-- ===== src/Esp32/Semaphore.antt =====
-- main/src/adapter/esp32/semaphore.c: the device's semaphore, a wrapper of the binary semaphores of
-- FreeRTOS, which are a parameter.
pub mod Gives
mod Tests
use univr_info_workshop.Common.{
  ℕ, ◌<◌, ◌≡◌, Bool, true, false, Option, none, some, ◌==◌, if◌then◌else◌, Outcome, ok, abort,
}
use univr_info_workshop.Error.{ErrorCode}
use univr_info_workshop.Esp32.Queue.{pd_true, pd_false}

-- The binary semaphores of FreeRTOS: the calls that the adapter makes, and what FreeRTOS documents of
-- them. A take is one during which nobody gives; of a semaphore that is not free it fails when the
-- ticks are over, unless it is to wait for ever.
pub record Binary : Type 1 where
  pub Handle : Type 0
  pub create : Option Handle
  pub take : Handle → (ticks : ℕ) → ℕ × Handle
  pub give : Handle → ℕ × Handle
  pub delete : Option Handle → Option Handle
  pub ms_to_ticks : ℕ → ℕ
  pub max_delay : ℕ
  pub is_free : Handle → Bool
  pub created : {s : Handle} → create ≡ some s → is_free s ≡ false
  pub taken :
      (s : Handle) (ticks : ℕ)
      → is_free s ≡ true
      → (s' : Handle) × (take s ticks ≡ (pd_true, s')) × (is_free s' ≡ false)
  pub timed_out :
      (s : Handle) (ticks : ℕ)
      → is_free s ≡ false
      → ticks < max_delay
      → take s ticks ≡ (pd_false, s)
  pub given :
      (s : Handle)
      → is_free s ≡ false
      → (s' : Handle) × (give s ≡ (pd_true, s')) × (is_free s' ≡ true)
  pub refused : (s : Handle) → is_free s ≡ true → give s ≡ (pd_false, s)

module _ (f : Binary) where
  -- `Semaphore_New`.
  pub new : Option f.Handle
  new = f.create

  -- `Semaphore_Take`; a handle that is NULL fails the assertion.
  pub take : Option f.Handle → (timeout_ms : ℕ) → Outcome (ErrorCode × f.Handle)
  take none timeout_ms = abort
  take (some s) timeout_ms =
      let (result, s') = f.take s (f.ms_to_ticks timeout_ms) in
      ok ((if result == pd_true then ErrorCode.success else ErrorCode.error_timeout), s')

  -- `Semaphore_Give`.
  pub give : Option f.Handle → Outcome (ErrorCode × f.Handle)
  give none = abort
  give (some s) =
      let (result, s') = f.give s in
      ok ((if result == pd_true then ErrorCode.success else ErrorCode.failure), s')

  -- `Semaphore_Free`, which passes on whatever handle it gets.
  pub free : Option f.Handle → Option f.Handle
  free s = f.delete s
