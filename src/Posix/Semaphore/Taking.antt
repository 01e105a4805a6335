-- ===== src/Posix/Semaphore/Taking.antt =====
-- Taking and giving the semaphore of semaphore.c.
use univr_info_workshop.Common.{
  ℕ, ◌+◌, ◌*◌, ◌≤◌, ◌<◌, ◌++◌, ◌≡◌, ◌≢◌, refl, true, false, none, some, List, [], ◌∷◌, arith, ok,
}
use univr_info_workshop.Error.{ErrorCode}
use univr_info_workshop.Posix.Time.{Timeval, one_sec_in_ns, timeval_ns, IsClockTime}
use univr_info_workshop.Posix.Semaphore.Elapsed.{elapsed_ms-seconds}
use univr_info_workshop.Posix.Semaphore.{Semaphore, Round, take, give, elapsed_ms}

-- Nobody gives the semaphore in these rounds.
abbrev pub StaysLocked : List Round → Type 0
StaysLocked [] = Unit
StaysLocked (r ∷ rs) = (r.locked_after ≡ true) × StaysLocked rs

-- A successful take leaves the semaphore locked.
pub take-locked :
    (begin : Timeval) (timeout_ms : ℕ) (s : Semaphore) (rounds : List Round) {s' : Semaphore}
    → take begin timeout_ms s rounds ≡ some (ErrorCode.success, s')
    → s'.locked ≡ true
unfolding take
take-locked begin timeout_ms s [] {s'} e = ground arith
take-locked begin timeout_ms s (r ∷ rs) {s'} e =
    ground (arith, take-locked begin timeout_ms (record { locked = r.locked_after }) rs {s' = s'})

-- A locked semaphore that nobody gives is not taken, however long the wait.
pub take-ne-success :
    (begin : Timeval) (timeout_ms : ℕ) (s : Semaphore) (rounds : List Round) {s' : Semaphore}
    → s.locked ≡ true
    → StaysLocked rounds
    → take begin timeout_ms s rounds ≢ some (ErrorCode.success, s')
unfolding take
take-ne-success begin timeout_ms s [] {s'} l h = ground arith
take-ne-success begin timeout_ms s (r ∷ rs) {s'} l h =
    ground
      (arith, take-ne-success begin timeout_ms (record { locked = r.locked_after }) rs {s' = s'})

-- By the clock of the machine, a second after the timeout the loop's own test ends the wait.
late-elapsed :
    (begin now : Timeval) (timeout_ms : ℕ)
    → IsClockTime begin
    → IsClockTime now
    → now.tv_sec < 1000000000000000
    → timeval_ns begin + timeout_ms * 1000000 + one_sec_in_ns ≤ timeval_ns now
    → timeout_ms ≤ elapsed_ms begin now
late-elapsed begin now timeout_ms cb cn k late =
    let order : begin.tv_sec ≤ now.tv_sec = omega (arith, cb.usec_small, cn.usec_small) in
    rw (elapsed_ms-seconds begin now cb cn order k) (omega (arith, cb.usec_small, cn.usec_small))

-- A take does not wait for ever: if in one of its rounds the clock shows that the timeout and one
-- second more have passed since the start, then the take has returned in that round or before it,
-- whatever the waits answered and however the semaphore was given and taken before.
pub take-returns :
    (begin : Timeval) (timeout_ms : ℕ) (s : Semaphore) (earlier : List Round) (r : Round)
    → IsClockTime begin
    → IsClockTime r.now
    → r.now.tv_sec < 1000000000000000
    → timeval_ns begin + timeout_ms * 1000000 + one_sec_in_ns ≤ timeval_ns r.now
    → take begin timeout_ms s (earlier ++ r ∷ []) ≢ none
unfolding take
take-returns begin timeout_ms s [] r cb cn k late =
    ground (arith, late-elapsed begin r.now timeout_ms cb cn k late)
take-returns begin timeout_ms s (x ∷ rs) r cb cn k late =
    ground
      (arith, take-returns begin timeout_ms (record { locked = x.locked_after }) rs r cb cn k late)

-- What is given can be taken at once, whatever the timeout and the clock, and only once: the
-- semaphore is then locked again. A second give before that changes nothing.
pub take-give :
    (begin : Timeval) (timeout_ms : ℕ) (s : Semaphore) (rounds : List Round)
    → (t : Semaphore) × (give 0 s ≡ ok (ErrorCode.success, t))
      × (give 0 t ≡ ok (ErrorCode.success, t))
      × (take begin timeout_ms t rounds ≡ some (ErrorCode.success, record { locked = true }))
unfolding take give
take-give begin timeout_ms s [] = (record { locked = false }, ground arith, refl, refl)
take-give begin timeout_ms s (r ∷ rs) = (record { locked = false }, ground arith, refl, refl)
