-- ===== src/Posix/Semaphore/Threads.antt =====
-- The semaphore among threads: `n` threads take it, and any thread gives it. A step is what a thread
-- does while it holds the mutex, so steps do not overlap.
use univr_info_workshop.Common.{
  ℕ, suc, ◌+◌, ◌<◌, ◌≡◌, ◌≢◌, refl, true, false, none, some, [], arith, ltb, ◌==◌, if◌then◌else◌,
  ok,
}
use univr_info_workshop.Error.{ErrorCode}
use univr_info_workshop.Posix.Time.{Timeval}
use univr_info_workshop.Posix.Semaphore.{Semaphore, take, give, elapsed_ms}

-- Where a taker stands: outside the call, asleep in pthread_cond_timedwait, or woken and about to
-- test the loop's condition again.
pub data Taker : Type 0 where
  outside asleep woken : Taker

-- `given` counts the gives that unlocked the semaphore, `taken` the successful takes.
pub record System : Type 0 where
  pub semaphore : Semaphore
  pub takers : ℕ → Taker
  pub given : ℕ
  pub taken : ℕ

abbrev pub update : (ℕ → Taker) → ℕ → Taker → ℕ → Taker
update f i r j = if i == j then r else f j

-- One step. A signal wakes one thread that sleeps, if there is one. A sleeper may also time out, or
-- wake for no reason, as POSIX allows. `take` with no rounds is what `Semaphore_Take` does without a
-- wait; `none` says that it would wait, which it does while the timeout has not passed.
pub data Step (n : ℕ) (s : System) : System → Type 0 where
  takes :
      (i : ℕ) (begin : Timeval) (timeout_ms : ℕ) {e : ErrorCode} {sem : Semaphore}
      → i < n
      → s.takers i ≢ Taker.asleep
      → take begin timeout_ms s.semaphore [] ≡ some (e, sem)
      → Step n s (record {
        semaphore = sem;
        takers = update s.takers i Taker.outside;
        given = s.given;
        taken = suc s.taken;
      })
  sleeps :
      (i : ℕ) (begin now : Timeval) (timeout_ms : ℕ)
      → i < n
      → s.takers i ≢ Taker.asleep
      → take begin timeout_ms s.semaphore [] ≡ none
      → ltb (elapsed_ms begin now) timeout_ms ≡ true
      → Step n s (record s { takers = update s.takers i Taker.asleep })
  gives_up :
      (i : ℕ) (begin now : Timeval) (timeout_ms : ℕ)
      → i < n
      → s.takers i ≢ Taker.asleep
      → take begin timeout_ms s.semaphore [] ≡ none
      → ltb (elapsed_ms begin now) timeout_ms ≡ false
      → Step n s (record s { takers = update s.takers i Taker.outside })
  times_out :
      (i : ℕ)
      → i < n
      → s.takers i ≡ Taker.asleep
      → Step n s (record s { takers = update s.takers i Taker.outside })
  wakes_spuriously :
      (i : ℕ)
      → i < n
      → s.takers i ≡ Taker.asleep
      → Step n s (record s { takers = update s.takers i Taker.woken })
  gives_again :
      {e : ErrorCode} {sem : Semaphore}
      → s.semaphore.locked ≡ false
      → give 0 s.semaphore ≡ ok (e, sem)
      → Step n s (record s { semaphore = sem })
  gives_to_none :
      {e : ErrorCode} {sem : Semaphore}
      → s.semaphore.locked ≡ true
      → give 0 s.semaphore ≡ ok (e, sem)
      → ((i : ℕ) → i < n → s.takers i ≢ Taker.asleep)
      → Step n s (record s { semaphore = sem; given = suc s.given })
  gives_and_wakes :
      (i : ℕ) {e : ErrorCode} {sem : Semaphore}
      → s.semaphore.locked ≡ true
      → give 0 s.semaphore ≡ ok (e, sem)
      → i < n
      → s.takers i ≡ Taker.asleep
      → Step n s (record {
        semaphore = sem;
        takers = update s.takers i Taker.woken;
        given = suc s.given;
        taken = s.taken;
      })

pub data Reach (n : ℕ) (s : System) : System → Type 0 where
  start : Reach n s s
  later : {t u : System} → Reach n s t → Step n t u → Reach n s u

-- A new semaphore, before any call.
abbrev pub initial : System
initial = record {
  semaphore = record { locked = true };
  takers = λ _. Taker.outside;
  given = 0;
  taken = 0;
}

-- Takes and gives are in balance, and a free semaphore that somebody waits for is about to be taken.
pub record IsBalanced (n : ℕ) (s : System) : Type 0 where
  pub balance : s.given ≡ s.taken + (if s.semaphore.locked then 0 else 1)
  pub awaited :
      s.semaphore.locked ≡ false
      → (i : ℕ) → i < n
      → s.takers i ≡ Taker.asleep
      → (j : ℕ) × (j < n) × (s.takers j ≡ Taker.woken)

take_free :
    (begin : Timeval) (timeout_ms : ℕ) (s : Semaphore) {e : ErrorCode} {sem : Semaphore}
    → take begin timeout_ms s [] ≡ some (e, sem)
    → (s.locked ≡ false) × (sem.locked ≡ true)
unfolding take
take_free begin timeout_ms s h = ground arith

take_waits :
    (begin : Timeval) (timeout_ms : ℕ) (s : Semaphore)
    → take begin timeout_ms s [] ≡ none
    → s.locked ≡ true
unfolding take
take_waits begin timeout_ms s h = ground arith

give_free :
    (s : Semaphore) {e : ErrorCode} {sem : Semaphore} → give 0 s ≡ ok (e, sem) → sem.locked ≡ false
unfolding give
give_free s h = ground arith

Step-IsBalanced : {n : ℕ} {s t : System} → Step n s t → IsBalanced n s → IsBalanced n t
Step-IsBalanced {s = s} (takes i b ms k a e) inv =
    let (free, held) = take_free b ms s.semaphore e in
    record { balance = ground (arith, inv.balance); awaited = λ f j lt z. absurd (cc) }
Step-IsBalanced {s = s} (sleeps i b now ms k a e more) inv =
    let held = take_waits b ms s.semaphore e in
    record { balance = inv.balance; awaited = λ f j lt z. absurd (cc) }
Step-IsBalanced {s = s} (gives_up i b now ms k a e over) inv =
    let held = take_waits b ms s.semaphore e in
    record { balance = inv.balance; awaited = λ f j lt z. absurd (cc) }
Step-IsBalanced {s = s} (times_out i k a) inv = record {
  balance = inv.balance;
  awaited = λ f j lt z. let (l, m, y) = inv.awaited f j lt (ground arith) in (l, m, ground arith);
}
Step-IsBalanced {s = s} (wakes_spuriously i k a) inv = record {
  balance = inv.balance;
  awaited = λ f j lt z. (i, k, ground arith);
}
Step-IsBalanced {s = s} (gives_again free e) inv =
    let still = give_free s.semaphore e in
    record { balance = ground (arith, inv.balance); awaited = λ f. inv.awaited free }
Step-IsBalanced {s = s} (gives_to_none held e nobody) inv =
    let free = give_free s.semaphore e in
    record { balance = ground (arith, inv.balance); awaited = λ f j lt z. absurd (nobody j lt z) }
Step-IsBalanced {s = s} (gives_and_wakes i held e k a) inv =
    let free = give_free s.semaphore e in
    record { balance = ground (arith, inv.balance); awaited = λ f j lt z. (i, k, ground arith) }

-- A semaphore that starts locked, among any number of threads, however they interleave: the gives
-- that unlocked it are as many as the successful takes, and one more while it is free, so no give is
-- taken twice; and no wakeup is lost: while it is free and a thread sleeps on it, some thread has
-- been woken and is about to test it.
pub Reach-IsBalanced : {n : ℕ} {s : System} → Reach n initial s → IsBalanced n s
Reach-IsBalanced start = record { balance = refl; awaited = λ f. absurd (cc) }
Reach-IsBalanced (later r step) = Step-IsBalanced step (Reach-IsBalanced r)
