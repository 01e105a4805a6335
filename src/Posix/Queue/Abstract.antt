-- ===== src/Posix/Queue/Abstract.antt =====
-- The queues of queue.c up to what their callers can see. A struct has positions in a ring and
-- blocks that were never freed; two structs that no sequence of calls tells apart are one abstract
-- queue.
pub mod Equal
mod Tests
use mathlib.Core.Quot
use mathlib.Core.Quot.{Quot, Quot-set}
use mathlib.Core.HLevel.{Σ_prop_path}
use native.Mathlib.Bridge.{le_prop}
use univr_info_workshop.Common.{
  ℕ, zero, suc, ◌+◌, ◌<◌, ◌≤◌, ◌^◌, ◌≡◌, refl, sym, ap, subst, ◌∙◌, true, false, Option, none, some,
  List, [], ◌∷◌, ◌++◌, append-nil, append_assoc, length, length-append, arith, Outcome, ok, ◌>>=◌,
  ltb, ◌==◌, if◌then◌else◌,
}
use univr_info_workshop.Error.{ErrorCode}
use univr_info_workshop.Posix.Time.{Timeval}
use univr_info_workshop.Posix.Queue.{Queue, new, enqueue}
use univr_info_workshop.Posix.Queue.Refine.{
  Represents, push, pop, new-Represents, enqueue-Represents,
}
use univr_info_workshop.Posix.Queue.Trace.{
  Call, sends, receives, Reply, call, calls, fifo_call, fifo, call_refines, calls_refines,
}

-- A queue of `n` places in a valid state, with the messages that it holds.
abbrev pub Valid : Type 0 → ℕ → Type 0
Valid M n = (q : Queue M) × (xs : List M) × Represents q xs × (q.size ≡ n)

-- What the callers learn from a sequence of calls.
abbrev pub replies : {M : Type 0} → Outcome (List (Reply M) × Queue M) → Outcome (List (Reply M))
replies out = out >>= λ (rs, q). ok rs

-- No sequence of calls tells the two queues apart.
abbrev pub Agree : {M : Type 0} {n : ℕ} → Valid M n → Valid M n → Type 0
Agree {M} a b = (cs : List (Call M)) → replies (calls a.0 cs) ≡ replies (calls b.0 cs)

-- The abstract queues.
abbrev pub Abstract : Type 0 → ℕ → Type 0
Abstract M n = Quot (Agree {M = M} {n = n})

-- Their specification.
abbrev pub BoundedList : Type 0 → ℕ → Type 0
BoundedList M n = (xs : List M) × (length xs ≤ n)

module _ {M : Type 0} {n : ℕ} where
  replies_lem : (v : Valid M n) (cs : List (Call M)) → replies (calls v.0 cs) ≡ ok (fifo n v.1 cs).0
  replies_lem (q, xs, r, s) cs =
      let (q', e, r') = calls_refines q xs cs r in ap replies e ∙ ap (λ k. ok (fifo k xs cs).0) s

  pub same-Agree : (a b : Valid M n) → a.1 ≡ b.1 → Agree a b
  same-Agree a b e cs = replies_lem a cs ∙ ap (λ xs. ok (fifo n xs cs).0) e ∙ sym (replies_lem b cs)

-- `k` receives that do not wait.
abbrev pub drain : {M : Type 0} → ℕ → List (Call M)
drain zero = []
drain (suc k) = receives (record { tv_sec = 0; tv_usec = 0 }) 0 ∷ drain k

-- Enough receives show all the messages.
pub drained :
    {M : Type 0} (n k : ℕ) (xs ys : List M)
    → length xs ≤ k
    → length ys ≤ k
    → (fifo n xs (drain k)).0 ≡ (fifo n ys (drain k)).0
    → xs ≡ ys
unfolding fifo pop
drained n k [] [] h h' e = refl
drained n zero [] (y ∷ ys) h h' e = absurd (omega arith)
drained n (suc k) [] (y ∷ ys) h h' e = cc
drained n zero (x ∷ xs) ys h h' e = absurd (omega arith)
drained n (suc k) (x ∷ xs) [] h h' e = cc
drained n (suc k) (x ∷ xs) (y ∷ ys) h h' e =
    let first : x ≡ y = cc in let rest = drained n k xs ys (omega arith) (omega arith) (cc) in cc

module _ {M : Type 0} {n : ℕ} where
  -- Queues that no calls tell apart hold the same messages.
  pub Agree-same : (a b : Valid M n) → Agree a b → a.1 ≡ b.1
  Agree-same a b h =
      let k = length a.1 + length b.1 in
      let seen : ok (fifo n a.1 (drain k)).0 ≡ ok (fifo n b.1 (drain k)).0 =
        sym (replies_lem a (drain k)) ∙ h (drain k) ∙ replies_lem b (drain k) in
      drained n k a.1 b.1 (omega arith) (omega arith) (cc)

  pub within : (v : Valid M n) → length v.1 ≤ n
  within (q, xs, r, s) = omega (arith, r.count, r.room)

  -- The class of a queue is known by its messages.
  abbrev pub contents_of : Valid M n → BoundedList M n
  contents_of v = (v.1, within v)

  pub bounded_path : (a b : BoundedList M n) → a.0 ≡ b.0 → a ≡ b
  bounded_path a b e = Σ_prop_path (λ xs. le_prop) e

  -- A queue that holds given messages: they are sent to the queue of `v`, one by one.
  pub filled :
      (v : Valid M n) (ys : List M) → length (v.1 ++ ys) ≤ n → (w : Valid M n) × (w.1 ≡ v.1 ++ ys)
  filled v [] h = (v, sym (append-nil v.1))
  filled (q, xs, r, s) (y ∷ ys) h =
      let room : length xs < q.size = omega (arith, length-append xs (y ∷ ys)) in
      let grown = enqueue-Represents q y xs r room in
      let v' : Valid M n = (enqueue q y, xs ++ y ∷ [], grown, s) in
      let regroup = append_assoc xs (y ∷ []) ys in
      let (w, e) = filled v' ys (rw regroup h) in (w, e ∙ regroup)

-- One call on a valid queue.
pub stepped : {M : Type 0} {n : ℕ} → Valid M n → Call M → Reply M × Valid M n
stepped (q, xs, r, s) c =
    let (q', e, r', s') = call_refines q xs c r in
    ((fifo_call q.size xs c).0, (q', (fifo_call q.size xs c).1, r', s' ∙ s))

module _ {M : Type 0} {n : ℕ} (v : Valid M n) (c : Call M) where
  pub stepped-call : call v.0 c ≡ ok ((stepped v c).0, (stepped v c).1.0)
  unfolding stepped
  stepped-call = (call_refines v.0 v.1 c v.2).1

  pub stepped-reply : (stepped v c).0 ≡ (fifo_call n v.1 c).0
  unfolding stepped
  stepped-reply = ap (λ k. (fifo_call k v.1 c).0) v.3

  pub stepped-contents : (stepped v c).1.1 ≡ (fifo_call n v.1 c).1
  unfolding stepped
  stepped-contents = ap (λ k. (fifo_call k v.1 c).1) v.3
