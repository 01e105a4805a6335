-- ===== src/Posix/Queue/Trace.antt =====
-- Sequences of calls by one thread: no sequence tells the queue of queue.c from a bounded first-in
-- first-out queue, and what the calls leave allocated.
use univr_info_workshop.Common.{
  ℕ, ◌≡◌, refl, Option, none, some, true, Bool-cases, inl, inr, ltb, if◌then◌else◌, List, [], ◌∷◌,
  arith, subst, ◌∙◌, Outcome, ok, ◌>>=◌,
}
use univr_info_workshop.Error.{ErrorCode}
use univr_info_workshop.Posix.Time.{Timeval, one_sec_in_ns}
use univr_info_workshop.Posix.Queue.{Queue, send, receive, deadline, alone}
use univr_info_workshop.Posix.Queue.Refine.{Represents, push, pop, send_refines}
use univr_info_workshop.Posix.Queue.Receiving.{take_message_refines}

-- A call of `Queue_Send`, or of `Queue_Receive` at a time of the clock.
pub data Call (M : Type 0) : Type 0 where
  sends : M → Call M
  receives : Timeval → (timeout_ms : ℕ) → Call M

abbrev pub Reply : Type 0 → Type 0
Reply M = ErrorCode × Option M

-- One call, with memory at hand and no other thread.
unfoldable pub call : {M : Type 0} → Queue M → Call M → Outcome (Reply M × Queue M)
unfolding send receive
call q (sends m) = do (e, q', signalled) ← send 0 true q m; ok ((e, none), q')
call q (receives now timeout_ms) = do (e, m, q') ← receive 0 now alone q timeout_ms; ok ((e, m), q')

unfoldable pub calls : {M : Type 0} → Queue M → List (Call M) → Outcome (List (Reply M) × Queue M)
unfolding call
calls q [] = ok ([], q)
calls q (c ∷ cs) = do
  (reply, q') ← call q c
  (replies, q'') ← calls q' cs
  ok (reply ∷ replies, q'')

-- The same calls on the list of the messages held. A receive on an empty list times out, or fails at
-- once where its deadline has a full second of nanoseconds.
abbrev pub fifo_call : {M : Type 0} → ℕ → List M → Call M → Reply M × List M
fifo_call cap xs (sends m) = (((push cap xs m).0, none), (push cap xs m).1)
fifo_call cap [] (receives now timeout_ms) = (
  (
    if ltb (deadline now timeout_ms).tv_nsec one_sec_in_ns
        then ErrorCode.error_timeout
        else ErrorCode.error_os,
    none,
  ),
  [],
)
fifo_call cap (x ∷ xs) (receives _ _) = ((ErrorCode.success, some x), xs)

unfoldable pub fifo : {M : Type 0} → ℕ → List M → List (Call M) → List (Reply M) × List M
unfolding push pop
fifo cap xs [] = ([], xs)
fifo cap xs (c ∷ cs) =
    let (reply, ys) = fifo_call cap xs c in
    let (replies, zs) = fifo cap ys cs in (reply ∷ replies, zs)

pub call_refines :
    {M : Type 0} (q : Queue M) (xs : List M) (c : Call M)
    → Represents q xs
    → (q' : Queue M) × (call q c ≡ ok ((fifo_call q.size xs c).0, q'))
      × Represents q' (fifo_call q.size xs c).1
      × (q'.size ≡ q.size)
unfolding call receive pop
call_refines q xs (sends m) r = let (q', e, r', s) = send_refines q m xs r in (q', rw e, r', s)
call_refines q [] (receives now timeout_ms) r =
    elim (Bool-cases (ltb (deadline now timeout_ms).tv_nsec one_sec_in_ns)) [
      | inl waits ↦ (q, ground (arith, r.count), r, refl)
      | inr refused ↦ (q, ground (arith, r.count), r, refl)
    ]
call_refines q (x ∷ xs) (receives now timeout_ms) r =
    let (q', e, r', s) = take_message_refines q (x ∷ xs) r in
    (q', ground (arith, r.count, e), r', s)

calls_refines_at :
    {M : Type 0} (size : ℕ) (q : Queue M) (xs : List M) (cs : List (Call M))
    → q.size ≡ size
    → Represents q xs
    → (q' : Queue M) × (calls q cs ≡ ok ((fifo size xs cs).0, q'))
      × Represents q' (fifo size xs cs).1
unfolding calls fifo
calls_refines_at size q xs [] s r = (q, refl, r)
calls_refines_at size q xs (c ∷ cs) s r =
    let (q₁, e₁, r₁, s₁) = call_refines q xs c r in
    let (q₂, e₂, r₂) =
      calls_refines_at size q₁ (fifo_call size xs c).1 cs (s₁ ∙ s)
        (subst (λ k. Represents q₁ (fifo_call k xs c).1) s r₁) in
    let e : call q c ≡ ok ((fifo_call size xs c).0, q₁) =
      subst (λ k. call q c ≡ ok ((fifo_call k xs c).0, q₁)) s e₁ in
    (q₂, rw (e, e₂), r₂)

-- No sequence of calls by one thread, with memory at hand, tells a queue from the bounded
-- first-in first-out queue of its messages: the replies are the same, the program is not stopped,
-- and in the end the messages held are the same. A receive on an empty queue finds no message: it
-- times out, or fails with ERROR_OS at once if the deadline, of the clock and the timeout, has a
-- full second of nanoseconds, which pthread_cond_timedwait refuses.
pub calls_refines :
    {M : Type 0} (q : Queue M) (xs : List M) (cs : List (Call M))
    → Represents q xs
    → (q' : Queue M) × (calls q cs ≡ ok ((fifo q.size xs cs).0, q'))
      × Represents q' (fifo q.size xs cs).1
calls_refines q xs cs r = calls_refines_at q.size q xs cs refl r
