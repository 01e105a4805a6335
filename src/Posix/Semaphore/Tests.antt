-- ===== src/Posix/Semaphore/Tests.antt =====
-- The semaphore of semaphore.c at concrete inputs.
use univr_info_workshop.Common.{ℕ, ◌≡◌, ◌≢◌, refl, true, false, none, some, [], ◌∷◌, arith}
use univr_info_workshop.Error.{ErrorCode}
use univr_info_workshop.Posix.Time.{Timeval}
use univr_info_workshop.Posix.Semaphore.{Semaphore, Round, take, give, elapsed_ms}
use univr_info_workshop.Posix.Semaphore.Elapsed.{take_early}
use univr_info_workshop.Posix.Semaphore.Threads
use univr_info_workshop.Posix.Semaphore.Threads.{
  System, Taker, Step, sleeps, gives_and_wakes, Reach, start, later, update, IsBalanced,
  Reach-IsBalanced,
}
use univr_info_workshop.Posix.Semaphore.Taking.{take-returns}

-- Times a microsecond apart, on the two sides of a second.
abbrev before : Timeval
before = record { tv_sec = 99; tv_usec = 999999 }

abbrev behind : Timeval
behind = record { tv_sec = 100; tv_usec = 0 }

abbrev held : Semaphore
held = record { locked = true }

abbrev spurious : Round
spurious = record { now = before; wait_result = 0; locked_after = true }

abbrev given : Round
given = record { now = before; wait_result = 0; locked_after = false }

abbrev late : Round
late = record { now = behind; wait_result = 0; locked_after = true }

-- A spurious wakeup, then a give.
taken : take before 500 held (spurious ∷ given ∷ []) ≡ some (ErrorCode.success, held)
unfolding take elapsed_ms
taken = refl

take_early_example : take before 500 held (late ∷ []) ≡ some (ErrorCode.error_timeout, held)
take_early_example =
    take_early before 500 held late [] (omega arith) (omega arith) refl (omega arith) (omega arith)
      refl

-- From 0 s on with 1500 ms: at 1.9 s it waits still, at 2.5 s it has returned.
abbrev at_start : Timeval
at_start = record { tv_sec = 0; tv_usec = 0 }

abbrev round_at : (tv_sec tv_usec : ℕ) → Round
round_at sec usec = record {
  now = record { tv_sec = sec; tv_usec = usec };
  wait_result = 0;
  locked_after = true;
}

waits_still : take at_start 1500 held (round_at 1 900000 ∷ []) ≡ none
unfolding take elapsed_ms
waits_still = refl

take-returns_example : take at_start 1500 held (round_at 1 900000 ∷ round_at 2 500000 ∷ []) ≢ none
take-returns_example =
    take-returns at_start 1500 held (round_at 1 900000 ∷ []) (round_at 2 500000) (omega arith)
      (omega arith) (omega arith) (omega arith)

-- A thread sleeps, the semaphore is given, and the thread takes it.
abbrev slept : System
slept = record Threads.initial { takers = update (λ _. Taker.outside) 0 Taker.asleep }

abbrev woken_up : System
woken_up = record slept {
  semaphore = record { locked = false };
  takers = update slept.takers 0 Taker.woken;
  given = 1;
}

woken-Reach : Reach 2 Threads.initial woken_up
unfolding take give elapsed_ms
woken-Reach =
    later (later start (sleeps 0 before before 500 (omega arith) (λ e. cc) refl refl))
      (gives_and_wakes 0 {e = ErrorCode.success} refl refl (omega arith) refl)

Reach-IsBalanced_example : IsBalanced 2 woken_up
Reach-IsBalanced_example = Reach-IsBalanced woken-Reach
