-- ===== src/Posix/Semaphore/Elapsed.antt =====
-- The times of semaphore.c: the deadline of a wait, and the time that `Semaphore_Take` thinks has
-- passed.
use univr_info_workshop.Common.{
  ℕ, suc, ◌+◌, ◌-◌, ◌*◌, ◌^◌, ◌≤◌, ◌<◌, ◌≡◌, true, some, List, ◌∷◌, arith,
}
use univr_info_workshop.Error.{ErrorCode}
use univr_info_workshop.Posix.Time.{Timeval, one_sec_in_ns, timeval_ns, timespec_ns, IsClockTime}
use univr_info_workshop.Posix.Semaphore.{
  Semaphore, Round, carry_seconds, deadline, elapsed_ms, take,
}

-- The deadline is the start plus the timeout, for every 64-bit timeout, and its nanoseconds are
-- fewer than a second, as pthread_cond_timedwait wants them.
pub take_deadline-ns :
    (begin : Timeval) (timeout_ms : ℕ)
    → IsClockTime begin
    → timeout_ms < 2 ^ 64
    → (timespec_ns (deadline begin timeout_ms) ≡ timeval_ns begin + timeout_ms * 1000000)
      × ((deadline begin timeout_ms).tv_nsec < one_sec_in_ns)
unfolding deadline carry_seconds
take_deadline-ns begin timeout_ms c h = ground arith

-- The elapsed time counts whole changes of the clock's seconds only: the microseconds of neither
-- time matter.
pub elapsed_ms-seconds :
    (begin now : Timeval)
    → IsClockTime begin
    → IsClockTime now
    → begin.tv_sec ≤ now.tv_sec
    → now.tv_sec < 1000000000000000
    → elapsed_ms begin now ≡ (now.tv_sec - begin.tv_sec) * 1000
unfolding elapsed_ms
elapsed_ms-seconds begin now cb cn h k = omega arith

-- A take of a locked semaphore with a timeout of at most a second gives up, with ERROR_TIMEOUT and
-- without a wait, as soon as the clock's second changes, were it a microsecond after the start.
pub take_early :
    (begin : Timeval) (timeout_ms : ℕ) (s : Semaphore) (r : Round) (rs : List Round)
    → IsClockTime begin
    → IsClockTime r.now
    → r.now.tv_sec ≡ suc begin.tv_sec
    → r.now.tv_sec < 1000000000000000
    → timeout_ms ≤ 1000
    → s.locked ≡ true
    → take begin timeout_ms s (r ∷ rs) ≡ some (ErrorCode.error_timeout, s)
unfolding take
take_early begin timeout_ms s r rs cb cn e k h locked =
    ground (arith, elapsed_ms-seconds begin r.now cb cn (omega arith) k)
