-- ===== src/Posix/Queue.antt =====
-- main/src/adapter/posix/queue.c: a bounded queue of messages over an array of pointers, guarded
-- by a mutex. The element size only says how many bytes memcpy moves, so a message is a value of
-- any type `M`. `blocks` are the message blocks that xmalloc gave out: a block's index is its
-- address, and no path of the file calls free on one. NULL is `none`.
-- What the mutex, malloc, the clock and the condition variable answer are arguments. The handle and
-- the message are never NULL here, and gettimeofday and pthread_mutex_unlock succeed on valid
-- arguments, so the assertions on these pass.
pub mod Deadline
pub mod Refine
pub mod Receiving
pub mod Trace
pub mod Blocks
pub mod Wakeup
pub mod Adapter
pub mod Memory
pub mod Abstract
mod Tests
use univr_info_workshop.Common.{
  ℕ, zero, suc, ◌+◌, ◌-◌, ◌*◌, ◌/◌, ◌%◌, ◌^◌, Bool, true, false, ◌&&◌, ◌||◌, Option, none, some,
  List, [], ◌∷◌, ◌++◌, ltb, ◌==◌, ◌!=◌, if◌then◌else◌, length, get_elem?, set, replicate, Outcome,
  ok, abort, fault,
}
use univr_info_workshop.Error.{ErrorCode}
use univr_info_workshop.Posix.Time.{Timeval, Timespec, one_sec_in_ns}

-- `struct Queue`, with the blocks that its slots point to. The mutex and the condition variable
-- have no state of their own here: what they answer is an argument.
pub record Queue (M : Type 0) : Type 0 where
  pub size : ℕ
  pub head : ℕ
  pub tail : ℕ
  pub n_elements : ℕ
  pub messages : List (Option ℕ)
  pub blocks : List M

-- `size_t` addition.
abbrev pub add_size : ℕ → ℕ → ℕ
add_size a b = (a + b) % 2 ^ 64

-- `ETIMEDOUT` and `EINVAL` of errno.h, as on Linux.
abbrev pub etimedout : ℕ
etimedout = 110

abbrev pub einval : ℕ
einval = 22

-- What pthread_cond_timedwait does while no other thread touches the queue, as POSIX documents it:
-- it refuses a deadline whose nanoseconds are a full second, and else waits until the deadline. (A
-- wakeup before that, which POSIX allows, finds the queue empty, and the receive answers the same.)
abbrev pub alone : {M : Type 0} → Timespec → Queue M → ℕ × Queue M
alone tp q = (if ltb tp.tv_nsec one_sec_in_ns then etimedout else einval, q)

module _ {M : Type 0} where
  -- `Queue_New`: `mutex_init` and `cond_init` are the results of the two initialisations. The two
  -- calls of xcalloc return zeroed memory or stop the program, which `memory` says.
  unfoldable pub new :
      (size : ℕ) (memory : Bool) (mutex_init cond_init : ℕ) → Outcome (Option (Queue M))
  new size memory mutex_init cond_init =
      if memory
      then (if mutex_init != 0
          then ok none
          else if cond_init != 0
          then ok none
          else ok (
              some (record {
                size = size;
                head = 0;
                tail = 0;
                n_elements = 0;
                messages = replicate size none;
                blocks = [];
              })))
      else abort

  -- Lines 74 to 78 of `Queue_Send`: the copy of the message and the move of the head, for a head in
  -- range.
  abbrev pub enqueue : Queue M → M → Queue M
  enqueue q m = record q {
    messages = set q.messages q.head (some (length q.blocks));
    blocks = q.blocks ++ m ∷ [];
    head = add_size q.head 1 % q.size;
    n_elements = add_size q.n_elements 1;
  }

  -- `Queue_Send`: the code, the queue after, and whether the condition variable was signalled.
  -- `lock` is the result of pthread_mutex_lock, `memory` whether malloc finds memory. A write past
  -- the array is a fault.
  unfoldable pub send :
      (lock : ℕ) (memory : Bool) → Queue M → M → Outcome (ErrorCode × Queue M × Bool)
  send lock memory q m =
      if lock != 0
      then ok (ErrorCode.failure, q, false)
      else if q.n_elements == q.size
      then ok (ErrorCode.error_resource_not_available, q, false)
      else if memory
      then (if ltb q.head (length q.messages)
          then (let q' = enqueue q m in ok (ErrorCode.success, q', q'.n_elements == 1))
          else fault)
      else abort

  -- What a slot of the array points to.
  abbrev pub deref : List M → Option (Option ℕ) → Option M
  deref blocks (some (some p)) = get_elem? blocks p
  deref blocks _ = none

  -- `queue->messages[i]` and the block that it points to; `none` is an invalid access.
  abbrev pub cell : Queue M → ℕ → Option M
  cell q i = deref q.blocks (get_elem? q.messages i)

  -- Lines 136 to 145 of `Queue_Receive`: the second test of the count, and the copy out. The
  -- option is what `*message` receives.
  pub take_message : Queue M → Outcome (ErrorCode × Option M × Queue M)
  take_message q =
      if q.n_elements == 0 then ok (ErrorCode.error_timeout, none, q) else elim (cell q q.tail) [
        | none ↦ fault
        | some m ↦ ok (
          ErrorCode.success,
          some m,
          record q { n_elements = q.n_elements - 1; tail = add_size q.tail 1 % q.size },
        )
      ]

-- The loop of lines 114 to 118, on fuel.
pub carry_seconds : ℕ → Timespec → Timespec
carry_seconds zero tp = tp
carry_seconds (suc fuel) tp =
    let rest =
      carry_seconds fuel
        (record { tv_sec = (tp.tv_sec + 1) % 2 ^ 64; tv_nsec = tp.tv_nsec - one_sec_in_ns }) in
    if ltb one_sec_in_ns tp.tv_nsec then rest else tp

-- Lines 107 to 118 of `Queue_Receive`: when the wait ends, from the time now. The sums are of
-- `uint64_t`; two rounds are more than the nanoseconds need.
pub deadline : Timeval → (timeout_ms : ℕ) → Timespec
unfolding carry_seconds
deadline tv timeout_ms = carry_seconds 2 (record {
  tv_sec = (tv.tv_sec + timeout_ms / 1000) % 2 ^ 64;
  tv_nsec = (tv.tv_usec + timeout_ms % 1000 * 1000) * 1000 % 2 ^ 64;
})

module _ {M : Type 0} where
  -- `Queue_Receive`. `timedwait` is pthread_cond_timedwait: from the deadline and the queue as it
  -- is when the wait begins, its result and the queue as it is when it returns with the mutex
  -- held again, after whatever other threads did.
  pub receive :
      (lock : ℕ) (now : Timeval) (timedwait : Timespec → Queue M → ℕ × Queue M)
      → Queue M
      → (timeout_ms : ℕ) → Outcome (ErrorCode × Option M × Queue M)
  unfolding take_message
  receive lock now timedwait q timeout_ms =
      if lock != 0
      then ok (ErrorCode.failure, none, q)
      else if q.n_elements != 0
      then take_message q
      else let (res, q') = timedwait (deadline now timeout_ms) q in
        if res == 0
        then take_message q'
        else if res == etimedout
        then ok (ErrorCode.error_timeout, none, q')
        else ok (ErrorCode.error_os, none, q')
