-- ===== src/Posix/Queue/Abstract/Equal.antt =====
-- The abstract queues of queue.c are the bounded lists: the two types are equal, and so are their
-- operations.
use mathlib.Core.Quot
use mathlib.Core.Quot.{Quot, Quot-set}
use mathlib.Core.Path.{PathP}
use native.Mathlib.Bridge.{le_prop}
use std.Equiv.{◌≃◌, id_equiv, Iso, iso_to_equiv}
use std.Univalence.{ua, ua-glue_path, equiv_j, ua-id_equiv}
use univr_info_workshop.Common.{
  ℕ, ◌<◌, ◌≤◌, ◌^◌, ◌≡◌, refl, sym, ap, ap₂, subst, ◌∙◌, true, List, [], ◌∷◌, ◌++◌, length,
  length-append, arith, ok,
}
use univr_info_workshop.Posix.Queue.{new}
use univr_info_workshop.Posix.Queue.Refine.{push, pop, new-Represents}
use univr_info_workshop.Posix.Queue.Trace.{Call, sends, receives, Reply, call, fifo_call}
use univr_info_workshop.Posix.Queue.Abstract.{
  Valid, Agree, Abstract, BoundedList, same-Agree, Agree-same, contents_of, bounded_path, filled,
  stepped, stepped-call, stepped-reply, stepped-contents,
}

-- Two operations that an equivalence takes to one another are equal over the path that it makes.
operation_over :
    {A B C R : Type 0} (e : A ≃ B) (f : A → C → R × A) (g : B → C → R × B)
    → ((a : A) (c : C) → g (e.0 a) c ≡ ((f a c).0, e.0 (f a c).1))
    → PathP (λ i. ua e i → C → R × ua e i) f g
unfolding id_equiv
operation_over {B} {C} {R} e f g h =
    equiv_j
      (λ A e.
        (f : A → C → R × A)
        → ((a : A) (c : C) → g (e.0 a) c ≡ ((f a c).0, e.0 (f a c).1))
        → PathP (λ i. ua e i → C → R × ua e i) f g)
      (λ f h.
        subst {A = B ≡ B} (λ p. PathP (λ i. p i → C → R × p i) f g) (sym ua-id_equiv)
          (λ i b c. sym (h b c) i))
      e f h

module _ {M : Type 0} (M-set : IsSet M) {n : ℕ} where
  bounded-set : IsSet (BoundedList M n)
  bounded-set = hlevel (M-set, le_prop)

  listed-set : IsSet (Reply M × BoundedList M n)
  listed-set = hlevel (M-set, le_prop)

  answer-set : IsSet (Reply M × Abstract M n)
  answer-set = hlevel (M-set, Quot-set)

  -- The messages of an abstract queue.
  contents : Abstract M n → BoundedList M n
  contents =
      Quot.lift bounded-set contents_of
        (λ a b h. bounded_path (contents_of a) (contents_of b) (Agree-same a b h))

  stepped_mk : Call M → Valid M n → Reply M × Abstract M n
  stepped_mk c v = ((stepped v c).0, Quot.mk (stepped v c).1)

  stepped_mk-Agree : (c : Call M) (a b : Valid M n) → Agree a b → stepped_mk c a ≡ stepped_mk c b
  unfolding stepped_mk
  stepped_mk-Agree c a b h =
      let same : a.1 ≡ b.1 = Agree-same a b h in
      let reply =
        stepped-reply a c ∙ ap (λ xs. (fifo_call n xs c).0) same ∙ sym (stepped-reply b c) in
      let after =
        stepped-contents a c ∙ ap (λ xs. (fifo_call n xs c).1) same ∙ sym (stepped-contents b c) in
      ap₂ (λ r q. (r, q)) reply (Quot.sound (same-Agree (stepped a c).1 (stepped b c).1 after))

  -- A call on an abstract queue is a call on any of the queues that it stands for.
  pub step : Abstract M n → Call M → Reply M × Abstract M n
  unfolding stepped_mk
  step q c = Quot.lift answer-set (stepped_mk c) (stepped_mk-Agree c) q

-- A call on a bounded list.
pub fifo_call-le :
    {M : Type 0} (n : ℕ) (xs : List M) (c : Call M)
    → length xs ≤ n
    → length (fifo_call n xs c).1 ≤ n
unfolding push pop
fifo_call-le n xs (sends m) h = ground (arith, length-append xs (m ∷ []))
fifo_call-le n [] (receives now timeout_ms) h = h
fifo_call-le n (x ∷ xs) (receives now timeout_ms) h = omega arith

pub fifo_step : {M : Type 0} {n : ℕ} → BoundedList M n → Call M → Reply M × BoundedList M n
fifo_step {n} (xs, h) c = ((fifo_call n xs c).0, ((fifo_call n xs c).1, fifo_call-le n xs c h))

module _ {M : Type 0} (M-set : IsSet M) {n : ℕ} (pos : 0 < n) (small : n < 2 ^ 62) where
  -- The queue that `Queue_New` makes.
  made : (v : Valid M n) × (v.1 ≡ [])
  unfolding new
  made = let (r, s) = new-Represents {M = M} n true 0 0 pos small refl in ((_, [], r, s), refl)

  holding : (b : BoundedList M n) → (v : Valid M n) × (v.1 ≡ b.0)
  holding (xs, h) =
      let (v, e) = made in let (w, e') = filled v xs (rw e h) in (w, e' ∙ ap (λ ys. ys ++ xs) e)

  contents-holding : (b : BoundedList M n) → contents M-set (Quot.mk (holding b).0) ≡ b
  unfolding contents
  contents-holding b = bounded_path (contents_of (holding b).0) b (holding b).1

  holding-contents : (q : Abstract M n) → Quot.mk (holding (contents M-set q)).0 ≡ q
  unfolding contents
  holding-contents =
      Quot.ind (λ q. Quot-set _ _)
        (λ v. Quot.sound (same-Agree (holding (contents_of v)).0 v (holding (contents_of v)).1))

  -- The two types are isomorphic.
  same_type : Iso (Abstract M n) (BoundedList M n)
  same_type = record {
    fun = contents M-set;
    inv = λ b. Quot.mk (holding b).0;
    rinv = contents-holding;
    linv = holding-contents;
  }

  steps_agree :
      (q : Abstract M n) (c : Call M)
      → fifo_step (contents M-set q) c ≡ ((step M-set q c).0, contents M-set (step M-set q c).1)
  unfolding contents step fifo_step stepped_mk
  steps_agree q c =
      Quot.ind
        {β = λ q.
          fifo_step (contents M-set q) c ≡ ((step M-set q c).0, contents M-set (step M-set q c).1)}
        (λ q. listed-set M-set _ _)
        (λ v.
          ap₂ (λ r b. (r, b)) (sym (stepped-reply v c))
            (bounded_path (fifo_step (contents_of v) c).1 (contents_of (stepped v c).1)
              (sym (stepped-contents v c))))
        q

-- Up to what its callers can see, the queue of queue.c is a bounded list. For messages that form
-- a set and a size between 1 and 2 ^ 62, the type of the queues of that size, where those count
-- as one that no sequence of calls tells apart, is equal to the type of the lists of at most that
-- length; on the way from the one type to the other a queue becomes the list of its messages, and
-- a call of `Queue_Send` or `Queue_Receive` by one thread, with memory at hand, becomes the same
-- call on the list, where a receive on an empty list times out, or fails with ERROR_OS if its
-- deadline has a full second of nanoseconds; and such a call on a queue gives the reply, and a
-- queue of the class, that the call on its class has.
pub Abstract-eq-BoundedList :
    {M : Type 0} (M-set : IsSet M) (n : ℕ)
    → 0 < n
    → n < 2 ^ 62
    → (p : Abstract M n ≡ BoundedList M n) × ((v : Valid M n)
        → PathP (λ i. p i) (Quot.mk v) (contents_of v))
      × PathP (λ i. p i → Call M → Reply M × p i) (step M-set) fifo_step
      × ((v : Valid M n) (c : Call M)
          → (v' : Valid M n) × (call v.0 c ≡ ok ((step M-set (Quot.mk v) c).0, v'.0))
            × ((step M-set (Quot.mk v) c).1 ≡ Quot.mk v'))
unfolding contents step stepped_mk same_type
Abstract-eq-BoundedList M-set n pos small =
    let e = iso_to_equiv (same_type M-set pos small) in
    (
      ua e,
      (λ v. ua-glue_path e refl),
      operation_over e (step M-set) fifo_step (steps_agree M-set pos small),
      λ v c. ((stepped v c).1, stepped-call v c, refl),
    )
