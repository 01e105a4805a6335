-- ===== src/Esp32/Queue/Sample.antt =====
-- A FreeRTOS whose queues are lists of messages, to evaluate the adapter of queue.c on.
use univr_info_workshop.Common.{
  ℕ, ◌+◌, ◌/◌, ◌^◌, ◌<◌, ◌≡◌, refl, ap, subst, true, false, ◌-◌, ◌%◌, Option, none, some, List, [],
  ◌∷◌, ◌++◌, length, ltb, if◌then◌else◌, arith,
}
use univr_info_workshop.Esp32.Queue.{Freertos, pd_true, pd_false}

-- A queue of FreeRTOS: its number of places, and its messages.
abbrev pub Rtos : Type 0 → Type 0
Rtos M = ℕ × List M

module _ {M : Type 0} where
  abbrev pub rtos_receive : Rtos M → ℕ → ℕ × Option M × Rtos M
  rtos_receive (n, []) ticks = (pd_false, none, (n, []))
  rtos_receive (n, x ∷ xs) ticks = (pd_true, some x, (n, xs))

  abbrev pub rtos_send : Rtos M → M → ℕ → ℕ × Rtos M
  rtos_send (n, xs) m ticks =
      if ltb (length xs) n then (pd_true, (n, xs ++ m ∷ [])) else (pd_false, (n, xs))

  abbrev pub RtosHolds : ℕ → Rtos M → List M → Type 0
  RtosHolds cap (n, xs) ys = (n ≡ cap) × (xs ≡ ys)

  pub rtos_sent :
      (cap : ℕ) (q : Rtos M) (m : M) (xs : List M)
      → RtosHolds cap q xs
      → length xs < cap
      → (q' : Rtos M) × (rtos_send q m 0 ≡ (pd_true, q')) × RtosHolds cap q' (xs ++ m ∷ [])
  rtos_sent cap (n, ys) m xs (same_cap, same) h =
      let room : ltb (length ys) n ≡ true = ground (arith, ap length same) in
      ((n, ys ++ m ∷ []), rw room, (same_cap, ap (λ l. l ++ m ∷ []) same))

  pub rtos_full :
      (cap : ℕ) (q : Rtos M) (m : M) (xs : List M)
      → RtosHolds cap q xs
      → length xs ≡ cap
      → rtos_send q m 0 ≡ (pd_false, q)
  rtos_full cap (n, ys) m xs (same_cap, same) h =
      let full : ltb (length ys) n ≡ false = ground (arith, ap length same) in rw full

  pub rtos_received :
      (cap : ℕ) (q : Rtos M) (x : M) (xs : List M) (ticks : ℕ)
      → RtosHolds cap q (x ∷ xs)
      → (q' : Rtos M) × (rtos_receive q ticks ≡ (pd_true, some x, q')) × RtosHolds cap q' xs
  rtos_received cap (n, []) x xs ticks (same_cap, same) = absurd (cc)
  rtos_received cap (n, y ∷ ys) x xs ticks (same_cap, same) =
      let first : y ≡ x = cc in let rest : ys ≡ xs = cc in ((n, ys), rw first, (same_cap, rest))

  pub rtos_timed_out :
      (cap : ℕ) (q : Rtos M) (ticks : ℕ)
      → RtosHolds cap q []
      → ticks < 2 ^ 32 - 1
      → rtos_receive q ticks ≡ (pd_false, none, q)
  rtos_timed_out cap (n, []) ticks h k = refl
  rtos_timed_out cap (n, y ∷ ys) ticks (same_cap, same) k = absurd (cc)

  -- The state is the number of objects made so far; there is memory for `n`, at addresses from 40 on.
  abbrev pub rtos_create : ℕ → (places size : ℕ) → ℕ → Option (ℕ × Rtos M) × ℕ
  rtos_create n places size made =
      if ltb made n then (some (40 + made, (places, [])), made + 1) else (none, made)

  pub created_lem :
      (n places size made : ℕ) {a : ℕ} {q : Rtos M} {made' : ℕ}
      → rtos_create n places size made ≡ (some (a, q), made')
      → RtosHolds places q []
  created_lem n places size made {a} {q} e =
      let same : (places, []) ≡ q = ground (arith) in
      subst (λ r. RtosHolds places r []) same (refl, refl)

  -- A FreeRTOS with memory for `n` objects. A tick is 10 ms.
  abbrev pub rtos : ℕ → Freertos M ℕ
  rtos n = record {
    Handle = Rtos M;
    create = rtos_create n;
    send = rtos_send;
    receive = rtos_receive;
    ms_to_ticks = λ ms. ms / 10 % 2 ^ 32;
    max_delay = 2 ^ 32 - 1;
    Holds = RtosHolds;
    created = created_lem n;
    sent = rtos_sent;
    full = rtos_full;
    received = rtos_received;
    timed_out = rtos_timed_out;
  }
