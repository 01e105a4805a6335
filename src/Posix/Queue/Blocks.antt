-- ===== src/Posix/Queue/Blocks.antt =====
-- The message blocks of queue.c: what stays allocated when messages have gone through a queue.
use univr_info_workshop.Common.{
  ℕ, ◌<◌, ◌≡◌, refl, sym, ◌∙◌, none, some, List, [], ◌∷◌, ◌++◌, append-nil, append_assoc, arith, ok,
}
use univr_info_workshop.Error.{ErrorCode}
use univr_info_workshop.Posix.Time.{Timeval}
use univr_info_workshop.Posix.Queue.{Queue, send, receive, enqueue}
use univr_info_workshop.Posix.Queue.Refine.{Represents, head-in_range, enqueue-Represents}
use univr_info_workshop.Posix.Queue.Receiving.{dequeue, dequeue-Represents, cell-tail}
use univr_info_workshop.Posix.Queue.Trace.{Call, sends, receives, Reply, call, calls}

module _ {M : Type 0} (now : Timeval) (timeout_ms : ℕ) where
  -- Each message is sent and then received.
  abbrev pub rounds : List M → List (Call M)
  rounds [] = []
  rounds (m ∷ ms) = sends m ∷ receives now timeout_ms ∷ rounds ms

abbrev pub echoes : {M : Type 0} → List M → List (Reply M)
echoes [] = []
echoes (m ∷ ms) = (ErrorCode.success, none) ∷ (ErrorCode.success, some m) ∷ echoes ms

module _ {M : Type 0} (now : Timeval) (timeout_ms : ℕ) (q : Queue M) (m : M)
    (r : Represents q []) where
  room : 0 < q.size
  room = r.size_pos

  sent : Represents (enqueue q m) (m ∷ [])
  sent = enqueue-Represents q m [] r room

  call-sends : call q (sends m) ≡ ok ((ErrorCode.success, none), enqueue q m)
  unfolding call send
  call-sends = ground (arith, r.size_pos, r.count, head-in_range q [] r)

  call-receives :
      call (enqueue q m) (receives now timeout_ms)
      ≡ ok ((ErrorCode.success, some m), dequeue (enqueue q m) m [] sent)
  unfolding call receive
  call-receives = ground (arith, sent.count, cell-tail (enqueue q m) m [] sent)

-- Messages that are sent and received one by one come back in order, and leave the queue empty; but
-- the block of each one stays allocated behind those that were there.
pub calls-rounds :
    {M : Type 0} (now : Timeval) (timeout_ms : ℕ) (q : Queue M) (ms : List M)
    → Represents q []
    → (q' : Queue M) × (calls q (rounds now timeout_ms ms) ≡ ok (echoes ms, q'))
      × Represents q' []
      × (q'.blocks ≡ q.blocks ++ ms)
unfolding calls
calls-rounds now timeout_ms q [] r = (q, refl, r, sym (append-nil q.blocks))
calls-rounds now timeout_ms q (m ∷ ms) r =
    let s = sent now timeout_ms q m r in
    let (q', e, r', b) =
      calls-rounds now timeout_ms (dequeue (enqueue q m) m [] s) ms
        (dequeue-Represents (enqueue q m) m [] s) in
    (
      q',
      rw (call-sends now timeout_ms q m r, call-receives now timeout_ms q m r, e),
      r',
      b ∙ append_assoc q.blocks (m ∷ []) ms,
    )
