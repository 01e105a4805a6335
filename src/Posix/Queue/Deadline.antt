-- ===== src/Posix/Queue/Deadline.antt =====
-- The end of the wait in `Queue_Receive`: which times the loop on the nanoseconds leaves.
use univr_info_workshop.Common.{ℕ, ◌+◌, ◌*◌, ◌%◌, ◌^◌, ◌≤◌, ◌<◌, ◌≡◌, ◌↔◌, none, ok, arith}
use univr_info_workshop.Error.{ErrorCode}
use univr_info_workshop.Posix.Time.{
  Timeval, Timespec, one_sec_in_ns, timeval_ns, timespec_ns, IsClockTime,
}
use univr_info_workshop.Posix.Queue.{Queue, carry_seconds, deadline, receive, einval}

-- The fraction of a second that the clock and the timeout add up to, in microseconds.
abbrev pub fraction_us : Timeval → ℕ → ℕ
fraction_us now timeout_ms = now.tv_usec + timeout_ms % 1000 * 1000

-- The deadline is the time now plus the timeout, for every 64-bit timeout, and the loop has ended
-- by its own test.
pub deadline-ns :
    (now : Timeval) (timeout_ms : ℕ)
    → IsClockTime now
    → timeout_ms < 2 ^ 64
    → (timespec_ns (deadline now timeout_ms) ≡ timeval_ns now + timeout_ms * 1000000)
      × ((deadline now timeout_ms).tv_nsec ≤ one_sec_in_ns)
unfolding deadline carry_seconds
deadline-ns now timeout_ms c h = ground arith

-- The deadline has a full second of nanoseconds, which is no valid timespec, exactly when the
-- microseconds of the clock and of the timeout add up to one second.
pub deadline-full_second :
    (now : Timeval) (timeout_ms : ℕ)
    → IsClockTime now
    → timeout_ms < 2 ^ 64
    → ((deadline now timeout_ms).tv_nsec ≡ one_sec_in_ns) ↔ (fraction_us now timeout_ms ≡ 1000000)
unfolding deadline carry_seconds
deadline-full_second now timeout_ms c h = (ground arith, ground arith)

-- A receive on an empty queue does not wait when the microseconds of the clock and of the timeout add
-- up to one second: pthread_cond_timedwait refuses the deadline, as POSIX documents for `tv_nsec`
-- of a second or more, and the call fails with ERROR_OS.
pub receive_full_second :
    {M : Type 0} (now : Timeval) (timedwait : Timespec → Queue M → ℕ × Queue M) (q : Queue M)
    (timeout_ms : ℕ)
    → IsClockTime now
    → timeout_ms < 2 ^ 64
    → q.n_elements ≡ 0
    → fraction_us now timeout_ms ≡ 1000000
    → ((tp : Timespec) → one_sec_in_ns ≤ tp.tv_nsec → timedwait tp q ≡ (einval, q))
    → receive 0 now timedwait q timeout_ms ≡ ok (ErrorCode.error_os, none, q)
unfolding receive
receive_full_second now timedwait q timeout_ms c h e f refuses =
    let full = (deadline-full_second now timeout_ms c h).1 f in
    ground (arith, refuses (deadline now timeout_ms) (omega (arith, full)))
