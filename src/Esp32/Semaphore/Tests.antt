-- ===== src/Esp32/Semaphore/Tests.antt =====
-- The device's semaphore over a flag that stands for FreeRTOS.
use univr_info_workshop.Common.{
  ℕ, ◌<◌, ◌≡◌, refl, Bool, true, false, Option, none, some, if◌then◌else◌, abort,
}
use univr_info_workshop.Esp32.Queue.{pd_true, pd_false}
use univr_info_workshop.Esp32.Semaphore.{Binary, take}

abbrev flag_take : Bool → ℕ → ℕ × Bool
flag_take s ticks = if s then (pd_true, false) else (pd_false, false)

abbrev flag_give : Bool → ℕ × Bool
flag_give s = if s then (pd_false, true) else (pd_true, true)

flag_taken :
    (s : Bool) (ticks : ℕ)
    → s ≡ true
    → (s' : Bool) × (flag_take s ticks ≡ (pd_true, s')) × (s' ≡ false)
flag_taken s ticks e = (false, rw e, refl)

flag_timed_out :
    (s : Bool) (ticks : ℕ) → s ≡ false → ticks < 1000 → flag_take s ticks ≡ (pd_false, s)
flag_timed_out s ticks e finite = rw e

flag_given : (s : Bool) → s ≡ false → (s' : Bool) × (flag_give s ≡ (pd_true, s')) × (s' ≡ true)
flag_given s e = (true, rw e, refl)

flag_refused : (s : Bool) → s ≡ true → flag_give s ≡ (pd_false, s)
flag_refused s e = rw e

flag_created : {s : Bool} → ◌≡◌ {A = Option Bool} (some false) (some s) → s ≡ false
flag_created e = cc

abbrev flag : Binary
flag = record {
  Handle = Bool;
  create = some false;
  take = flag_take;
  give = flag_give;
  delete = λ s. s;
  ms_to_ticks = λ ms. ms;
  max_delay = 1000;
  is_free = λ s. s;
  created = flag_created;
  taken = flag_taken;
  timed_out = flag_timed_out;
  given = flag_given;
  refused = flag_refused;
}

null_handle : take flag none 5 ≡ abort
unfolding take
null_handle = refl
