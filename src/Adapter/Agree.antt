-- ===== src/Adapter/Agree.antt =====
-- Two implementations of queue.h behave alike: what their callers can see is the same.
use univr_info_workshop.Common.{
  ℕ, ◌≤◌, ◌≡◌, refl, Bool, true, false, Option, none, some, List, [], ◌∷◌, ◌++◌, length,
  length-append, ltb, if◌then◌else◌, arith, Bool-cases, inl, inr, Outcome, ok, ◌>>=◌,
}
use univr_info_workshop.Error.{is_success, is_success-eq_false}
use univr_info_workshop.Adapter.{QueueAdapter}

-- A call of `Queue_Send` with a message, or of `Queue_Receive`.
pub data Call (M : Type 0) : Type 0 where
  sends : M → Call M
  receives : Call M

-- What a caller that tests for SUCCESS only can see: the test, and the message received.
abbrev pub Reply : Type 0 → Type 0
Reply M = Bool × Option M

module _ {M : Type 0} where
  -- The calls one after the other, with the replies.
  unfoldable pub run :
      (a : QueueAdapter M) → a.Handle → List (Call M) → Outcome (List (Reply M) × a.Handle)
  run a q [] = ok ([], q)
  run a q (sends m ∷ cs) = do
    (e, q') ← a.send q m
    (rs, q'') ← run a q' cs
    ok ((is_success e, none) ∷ rs, q'')
  run a q (receives ∷ cs) = do
    (e, x, q') ← a.receive q
    (rs, q'') ← run a q' cs
    ok ((is_success e, x) ∷ rs, q'')

  -- The same on a list with a bound.
  unfoldable pub model : (cap : ℕ) → List M → List (Call M) → List (Reply M) × List M
  model cap xs [] = ([], xs)
  model cap xs (sends m ∷ cs) =
      let (rs, ys) = model cap (if ltb (length xs) cap then xs ++ m ∷ [] else xs) cs in
      ((ltb (length xs) cap, none) ∷ rs, ys)
  model cap [] (receives ∷ cs) = let (rs, ys) = model cap [] cs in ((false, none) ∷ rs, ys)
  model cap (x ∷ xs) (receives ∷ cs) = let (rs, ys) = model cap xs cs in ((true, some x) ∷ rs, ys)

  run-model :
      (a : QueueAdapter M) (cap : ℕ) (q : a.Handle) (xs : List M) (cs : List (Call M))
      → a.Holds cap q xs
      → length xs ≤ cap
      → (q' : a.Handle) × (run a q cs ≡ ok ((model cap xs cs).0, q'))
        × a.Holds cap q' (model cap xs cs).1
  unfolding run model
  run-model a cap q xs [] h k = (q, refl, h)
  run-model a cap q xs (sends m ∷ cs) h k = elim (Bool-cases (ltb (length xs) cap)) [
    | inl room ↦
        let (q₁, e, h₁) = a.send_room cap q m xs h (ground arith) in
        let (q₂, r, h₂) =
          run-model a cap q₁ (xs ++ m ∷ []) cs h₁ (ground (arith, length-append xs (m ∷ []))) in
        (q₂, rw (e, r, room), rw room h₂)
    | inr full ↦
        let (code, e, n) = a.send_full cap q m xs h (ground arith) in
        let (q₂, r, h₂) = run-model a cap q xs cs h k in
        (q₂, rw (e, is_success-eq_false code n, r, full), rw full h₂)
  ]
  run-model a cap q [] (receives ∷ cs) h k =
      let (code, e, n) = a.receive_none cap q h in
      let (q₂, r, h₂) = run-model a cap q [] cs h k in
      (q₂, rw (e, is_success-eq_false code n, r), h₂)
  run-model a cap q (x ∷ xs) (receives ∷ cs) h k =
      let (q₁, e, h₁) = a.receive_first cap q x xs h in
      let (q₂, r, h₂) = run-model a cap q₁ xs cs h₁ (omega arith) in (q₂, rw (e, r), h₂)

-- The services cannot tell one implementation of queue.h from another: from queues of the same number
-- of places that hold the same messages, the same calls bring the same replies, to a caller that
-- tests for SUCCESS only, and leave the same messages.
pub run-agrees :
    {M : Type 0} (a b : QueueAdapter M) (cap : ℕ) (p : a.Handle) (q : b.Handle) (xs : List M)
    (cs : List (Call M))
    → a.Holds cap p xs
    → b.Holds cap q xs
    → length xs ≤ cap
    → (rs : List (Reply M)) × (ys : List M) × (p' : a.Handle) × (q' : b.Handle) × (run a p cs
        ≡ ok (rs, p'))
      × (run b q cs ≡ ok (rs, q'))
      × a.Holds cap p' ys
      × b.Holds cap q' ys
run-agrees a b cap p q xs cs hp hq k =
    let (p', e, h) = run-model a cap p xs cs hp k in
    let (q', f, i) = run-model b cap q xs cs hq k in
    ((model cap xs cs).0, (model cap xs cs).1, p', q', e, f, h, i)
