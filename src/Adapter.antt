-- ===== src/Adapter.antt =====
-- main/src/adapter/queue.h: what core/service.c relies on of a message queue, whichever adapter
-- stands behind it. The adapters state what the header leaves open, such as the code of a refused
-- send.
pub mod Agree
use univr_info_workshop.Common.{
  ℕ, ◌<◌, ◌≡◌, ◌≢◌, Option, none, some, List, [], ◌∷◌, ◌++◌, length, Outcome, ok,
}
use univr_info_workshop.Error.{ErrorCode}

-- The operations of queue.h on messages `M`, and their contract. `Holds cap q xs` says that the
-- queue of `cap` places holds the messages `xs`, oldest first. `receive` is a receive during which
-- no other thread sends.
pub record QueueAdapter (M : Type 0) : Type 1 where
  pub Handle : Type 0
  pub send : Handle → M → Outcome (ErrorCode × Handle)
  pub receive : Handle → Outcome (ErrorCode × Option M × Handle)
  pub Holds : ℕ → Handle → List M → Type 0
  pub send_room :
      (cap : ℕ) (q : Handle) (m : M) (xs : List M)
      → Holds cap q xs
      → length xs < cap
      → (q' : Handle) × (send q m ≡ ok (ErrorCode.success, q')) × Holds cap q' (xs ++ m ∷ [])
  pub send_full :
      (cap : ℕ) (q : Handle) (m : M) (xs : List M)
      → Holds cap q xs
      → length xs ≡ cap
      → (e : ErrorCode) × (send q m ≡ ok (e, q)) × (e ≢ ErrorCode.success)
  pub receive_first :
      (cap : ℕ) (q : Handle) (x : M) (xs : List M)
      → Holds cap q (x ∷ xs)
      → (q' : Handle) × (receive q ≡ ok (ErrorCode.success, some x, q')) × Holds cap q' xs
  pub receive_none :
      (cap : ℕ) (q : Handle)
      → Holds cap q []
      → (e : ErrorCode) × (receive q ≡ ok (e, none, q)) × (e ≢ ErrorCode.success)
