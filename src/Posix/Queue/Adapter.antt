-- ===== src/Posix/Queue/Adapter.antt =====
-- queue.c as an implementation of queue.h: the laws of the adapter, from the refinement theorems.
use univr_info_workshop.Common.{
  ℕ, ◌<◌, ◌≡◌, ◌∙◌, ◌≢◌, true, Bool-cases, inl, inr, ltb, Option, none, some, List, [], ◌∷◌, ◌++◌,
  arith, length, Outcome, ok, ◌>>=◌,
}
use univr_info_workshop.Error.{ErrorCode}
use univr_info_workshop.Adapter.{QueueAdapter}
use univr_info_workshop.Posix.Time.{Timeval, one_sec_in_ns}
use univr_info_workshop.Posix.Queue.{Queue, send, enqueue, receive, deadline, alone}
use univr_info_workshop.Posix.Queue.Refine.{Represents, pop, head-in_range, enqueue-Represents}
use univr_info_workshop.Posix.Queue.Receiving.{take_message_refines}

module _ {M : Type 0} (now : Timeval) (timeout_ms : ℕ) where
  -- `Queue_Send` with the mutex and memory at hand.
  unfoldable pub adapter_send : Queue M → M → Outcome (ErrorCode × Queue M)
  unfolding send
  adapter_send q m = do (e, q', signalled) ← send 0 true q m; ok (e, q')

  -- `Queue_Receive` with no other thread.
  unfoldable pub adapter_receive : Queue M → Outcome (ErrorCode × Option M × Queue M)
  unfolding receive
  adapter_receive q = receive 0 now alone q timeout_ms

  abbrev pub Holds : ℕ → Queue M → List M → Type 0
  Holds cap q xs = Represents q xs × (q.size ≡ cap)

  pub send_room :
      (size : ℕ) (q : Queue M) (m : M) (xs : List M)
      → Holds size q xs
      → length xs < size
      → (q' : Queue M) × (adapter_send q m ≡ ok (ErrorCode.success, q'))
        × Holds size q' (xs ++ m ∷ [])
  unfolding adapter_send
  send_room size q m xs h k = (
    enqueue q m,
    ground (arith, h.0.count, head-in_range q xs h.0),
    (enqueue-Represents q m xs h.0 (omega arith), h.1),
  )

  pub send_full :
      (size : ℕ) (q : Queue M) (m : M) (xs : List M)
      → Holds size q xs
      → length xs ≡ size
      → (e : ErrorCode) × (adapter_send q m ≡ ok (e, q)) × (e ≢ ErrorCode.success)
  unfolding adapter_send
  send_full size q m xs h k =
      (ErrorCode.error_resource_not_available, ground (arith, h.0.count), λ e. cc)

  pub receive_first :
      (size : ℕ) (q : Queue M) (x : M) (xs : List M)
      → Holds size q (x ∷ xs)
      → (q' : Queue M) × (adapter_receive q ≡ ok (ErrorCode.success, some x, q')) × Holds size q' xs
  unfolding adapter_receive pop
  receive_first size q x xs h =
      let (q', e, r, s) = take_message_refines q (x ∷ xs) h.0 in
      (q', ground (arith, h.0.count, e), (r, s ∙ h.1))

  pub receive_none :
      (size : ℕ) (q : Queue M)
      → Holds size q []
      → (e : ErrorCode) × (adapter_receive q ≡ ok (e, none, q)) × (e ≢ ErrorCode.success)
  unfolding adapter_receive
  receive_none size q h = elim (Bool-cases (ltb (deadline now timeout_ms).tv_nsec one_sec_in_ns)) [
    | inl waits ↦ (ErrorCode.error_timeout, ground (arith, h.0.count), λ e. cc)
    | inr refused ↦ (ErrorCode.error_os, ground (arith, h.0.count), λ e. cc)
  ]

  -- The queue of queue.c meets the contract of queue.h.
  abbrev pub adapter : QueueAdapter M
  adapter = record {
    Handle = Queue M;
    send = adapter_send;
    receive = adapter_receive;
    Holds = Holds;
    send_room = send_room;
    send_full = send_full;
    receive_first = receive_first;
    receive_none = receive_none;
  }
