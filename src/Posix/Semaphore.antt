-- ===== src/Posix/Semaphore.antt =====
-- main/src/adapter/posix/semaphore.c: a binary semaphore over a mutex and a condition variable. The
-- handle is never NULL here, and the mutex and gettimeofday succeed on valid arguments, so their
-- assertions pass. The clock, the waits and what other threads do meanwhile are arguments.
pub mod Elapsed
pub mod Taking
pub mod Threads
mod Tests
use univr_info_workshop.Common.{
  Heap, put, fault, ℕ, zero, suc, ◌+◌, ◌-◌, ◌*◌, ◌/◌, ◌%◌, ◌^◌, Bool, true, false, Option, none,
  some, List, [], ◌∷◌, ltb, ◌==◌, ◌!=◌, if◌then◌else◌, Outcome, ok, abort,
}
use univr_info_workshop.Error.{ErrorCode}
use univr_info_workshop.Posix.Time.{Timeval, Timespec, one_sec_in_ns}

-- `struct Semaphore`; the mutex and the condition variable have no state of their own here.
pub record Semaphore : Type 0 where
  pub locked : Bool

-- `ETIMEDOUT` of errno.h, as on Linux.
abbrev pub etimedout : ℕ
etimedout = 110

-- `Semaphore_New`: `memory` says whether calloc finds memory, and the other two arguments are the
-- results of the initialisations.
pub new : (memory : Bool) (mutex_init cond_init : ℕ) → Outcome (Option Semaphore)
new memory mutex_init cond_init =
    if memory
    then (if mutex_init != 0
        then ok none
        else if cond_init != 0
        then ok none
        else ok (some (record { locked = true })))
    else abort

-- The milliseconds of a time, as lines 47 and 48 compute them.
abbrev pub whole_ms : Timeval → ℕ
whole_ms t = (t.tv_sec * 1000 + t.tv_usec / 1000 / 1000) % 2 ^ 64

-- `Semaphore_ElapsedTimeMs`, with the time now; the difference is of `uint64_t`.
pub elapsed_ms : (begin now : Timeval) → ℕ
elapsed_ms begin now = (whole_ms now + 2 ^ 64 - whole_ms begin) % 2 ^ 64

-- The loop of lines 69 to 73, on fuel.
pub carry_seconds : ℕ → Timespec → Timespec
carry_seconds zero tp = tp
carry_seconds (suc fuel) tp =
    let rest =
      carry_seconds fuel
        (record { tv_sec = (tp.tv_sec + 1) % 2 ^ 64; tv_nsec = tp.tv_nsec - one_sec_in_ns }) in
    if ltb tp.tv_nsec one_sec_in_ns then tp else rest

-- Lines 65 to 73: when a wait ends. Two rounds are more than the nanoseconds need.
pub deadline : (begin : Timeval) (timeout_ms : ℕ) → Timespec
unfolding carry_seconds
deadline begin timeout_ms = carry_seconds 2 (record {
  tv_sec = (begin.tv_sec + timeout_ms / 1000) % 2 ^ 64;
  tv_nsec = (begin.tv_usec + timeout_ms % 1000 * 1000) * 1000 % 2 ^ 64;
})

-- One round of the loop of `Semaphore_Take`: the time at its test, then the result of the wait and
-- whether the semaphore is locked when the wait returns.
pub record Round : Type 0 where
  pub now : Timeval
  pub wait_result : ℕ
  pub locked_after : Bool

-- `Semaphore_Take` from the test of its loop on; `none` says that it waits still. An unlocked
-- semaphore ends the loop without a look at the clock.
pub take :
    (begin : Timeval) (timeout_ms : ℕ) → Semaphore → List Round → Option (ErrorCode × Semaphore)
take begin timeout_ms s [] =
    if s.locked then none else some (ErrorCode.success, record { locked = true })
take begin timeout_ms s (r ∷ rs) =
    let s' : Semaphore = record { locked = r.locked_after } in
    let rest = take begin timeout_ms s' rs in
    if s.locked
    then (if ltb (elapsed_ms begin r.now) timeout_ms
        then (if r.wait_result == 0
            then rest
            else if r.wait_result == etimedout
            then some (ErrorCode.error_timeout, s')
            else some (ErrorCode.error_os, s'))
        else some (ErrorCode.error_timeout, s))
    else some (ErrorCode.success, record { locked = true })

-- `Semaphore_Give`: a signal that fails is a failed assertion.
unfoldable pub give : (signal : ℕ) → Semaphore → Outcome (ErrorCode × Semaphore)
give signal s =
    if s.locked
    then (if signal == 0 then ok (ErrorCode.success, record { locked = false }) else abort)
    else ok (ErrorCode.success, s)

-- `Semaphore_Free`, on the heap of the semaphores: nothing for NULL, a fault for a block that is not
-- allocated.
pub free : Option ℕ → Heap Semaphore → Outcome (Heap Semaphore)
free none heap = ok heap
free (some p) heap = elim (heap p) [ none ↦ fault | some s ↦ ok (put heap p none) ]
