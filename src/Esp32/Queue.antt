-- ===== src/Esp32/Queue.antt =====
-- main/src/adapter/esp32/queue.c: the device's queue, a wrapper of the queues of FreeRTOS, which are a
-- parameter. The message is never NULL.
pub mod Contract
pub mod Sample
mod Tests
use univr_info_workshop.Common.{
  ℕ, ◌+◌, ◌-◌, ◌^◌, ◌<◌, ◌≡◌, Bool, true, false, Option, none, some, List, [], ◌∷◌, ◌++◌, ◌==◌,
  ◌!=◌, if◌then◌else◌, length, Outcome, ok, abort,
}
use univr_info_workshop.Error.{ErrorCode}

-- `pdTRUE`, and `pdFALSE`, which is `errQUEUE_FULL` too.
abbrev pub pd_true : ℕ
pd_true = 1

abbrev pub pd_false : ℕ
pd_false = 0

-- The queues of FreeRTOS with messages `M`: the calls that the adapter makes, and what FreeRTOS
-- documents of them. `Holds cap q xs` says that the queue of `cap` places holds `xs`, oldest first.
-- A send with no ticks does not wait. A receive is one during which nobody sends; on an empty queue
-- it fails when the ticks are over, unless it is to wait for ever. `S` is the state of FreeRTOS, with
-- its memory: `create` takes from it, and answers the address of the new queue, and the queue.
pub record Freertos (M S : Type 0) : Type 1 where
  pub Handle : Type 0
  pub create : (places size : ℕ) → S → Option (ℕ × Handle) × S
  pub send : Handle → M → (ticks : ℕ) → ℕ × Handle
  pub receive : Handle → (ticks : ℕ) → ℕ × Option M × Handle
  pub ms_to_ticks : ℕ → ℕ
  pub max_delay : ℕ
  pub Holds : ℕ → Handle → List M → Type 0
  pub created :
      (places size : ℕ) (s : S) {a : ℕ} {q : Handle} {s' : S}
      → create places size s ≡ (some (a, q), s')
      → Holds places q []
  pub sent :
      (cap : ℕ) (q : Handle) (m : M) (xs : List M)
      → Holds cap q xs
      → length xs < cap
      → (q' : Handle) × (send q m 0 ≡ (pd_true, q')) × Holds cap q' (xs ++ m ∷ [])
  pub full :
      (cap : ℕ) (q : Handle) (m : M) (xs : List M)
      → Holds cap q xs
      → length xs ≡ cap
      → send q m 0 ≡ (pd_false, q)
  pub received :
      (cap : ℕ) (q : Handle) (x : M) (xs : List M) (ticks : ℕ)
      → Holds cap q (x ∷ xs)
      → (q' : Handle) × (receive q ticks ≡ (pd_true, some x, q')) × Holds cap q' xs
  pub timed_out :
      (cap : ℕ) (q : Handle) (ticks : ℕ)
      → Holds cap q []
      → ticks < max_delay
      → receive q ticks ≡ (pd_false, none, q)

-- `QUEUE_MAX_TIMEOUT` of queue.h.
abbrev pub queue_max_timeout : ℕ
queue_max_timeout = 2 ^ 64 - 1

module _ {M S : Type 0} (f : Freertos M S) where
  -- `Queue_New`.
  unfoldable pub new : (size element_size : ℕ) → S → Option (ℕ × f.Handle) × S
  new size element_size s = f.create size element_size s

  -- `Queue_Delete`: the queues on which it calls vQueueDelete.
  pub delete : Option f.Handle → List f.Handle
  delete none = []
  delete (some q) = q ∷ []

  -- `Queue_Send`; a handle that is NULL fails the assertion.
  pub send : Option f.Handle → M → Outcome (ErrorCode × f.Handle)
  send none m = abort
  send (some q) m =
      let (result, q') = f.send q m 0 in
      if result != pd_true then ok (ErrorCode.failure, q') else ok (ErrorCode.success, q')

  -- The ticks that `Queue_Receive` waits.
  abbrev pub ticks_of : ℕ → ℕ
  ticks_of timeout_ms =
      if timeout_ms == queue_max_timeout then f.max_delay else f.ms_to_ticks timeout_ms

  -- `Queue_Receive`.
  pub receive : Option f.Handle → (timeout_ms : ℕ) → Outcome (ErrorCode × Option M × f.Handle)
  receive none timeout_ms = abort
  receive (some q) timeout_ms =
      let (result, x, q') = f.receive q (ticks_of timeout_ms) in
      ok ((if result == pd_true then ErrorCode.success else ErrorCode.failure), x, q')
