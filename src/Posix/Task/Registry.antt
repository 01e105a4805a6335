-- ===== src/Posix/Task/Registry.antt =====
-- The table of task.c as a registry of threads: which thread finds which task.
pub mod Names
pub mod Ends
pub mod Handles
pub mod History
mod Tests
use univr_info_workshop.Common.{
  ==_refl, ==_ne, ==_iff, Heap, put, put_same, put_other, ℕ, ◌≡◌, ◌≢◌, ◌∙◌, refl, ap, sym, subst,
  Bool, true, false, Option, none, some, List, [], ◌∷◌, ◌==◌, Bool-cases, inl, inr, ok, arith,
  if◌then◌else◌,
}
use univr_info_workshop.Posix.Task.{Task, State, store, clear, find}
use univr_info_workshop.Posix.Task.Table.{IsAbsent, AreDistinct, AreLive}
use univr_info_workshop.Posix.Task.Safety.{IsValid}
use univr_info_workshop.Posix.Task.Self.{
  AreOthers, AreOthers-store, put-AreOthers, find-AreOthers, IsStored,
}

-- No two tasks of the table run on one thread.
abbrev pub AreApart : Heap Task → List (Option ℕ) → Type 0
AreApart heap [] = Unit {0}
AreApart heap (none ∷ ts) = AreApart heap ts
AreApart heap (some q ∷ ts) =
    ((t : Task) × (heap q ≡ some t) × AreOthers heap t.thread ts) × AreApart heap ts

pub record IsRegistry (st : State) : Type 0 where
  pub valid : IsValid st
  pub apart : AreApart st.heap st.tasks

module _ (heap : Heap Task) (self : ℕ) where
  -- Another thread's new task is passed over.
  pub find-store_other :
      (p : ℕ) (t : Task) (ts : List (Option ℕ))
      → heap p ≡ some t
      → (t.thread == self) ≡ false
      → AreLive heap ts
      → find heap self (store p ts) ≡ find heap self ts
  unfolding find store
  find-store_other p t [] e other l = refl
  find-store_other p t (none ∷ ts) e other l = rw (find, e, other)
  find-store_other p t (some q ∷ ts) e other ((u, h), l) =
      rw (find, h)
        (ap (λ r. if u.thread == self then ok (some q) else r) (find-store_other p t ts e other l))

  -- A block that the table does not name is not looked at.
  pub find-put :
      (p : ℕ) (b : Option Task) (ts : List (Option ℕ))
      → IsAbsent p ts
      → AreLive heap ts
      → find (put heap p b) self ts ≡ find heap self ts
  unfolding find
  find-put p b [] a l = refl
  find-put p b (none ∷ ts) a l = find-put p b ts a l
  find-put p b (some q ∷ ts) a ((u, h), l) =
      rw (find, ==_ne p q (λ e. a.0 (sym e)), h)
        (ap (λ r. if u.thread == self then ok (some q) else r) (find-put p b ts a.1 l))

  -- Another thread's task that goes was passed over.
  pub find-clear_other :
      (p : ℕ) (t : Task) (ts : List (Option ℕ))
      → heap p ≡ some t
      → (t.thread == self) ≡ false
      → AreLive heap ts
      → find heap self (clear p ts) ≡ find heap self ts
  unfolding find clear
  find-clear_other p t [] e other l = refl
  find-clear_other p t (none ∷ ts) e other l = find-clear_other p t ts e other l
  find-clear_other p t (some q ∷ ts) e other ((u, h), l) = elim (Bool-cases (q == p)) [
    | inl same ↦
        let e' : heap q ≡ some t = ap heap ((==_iff q p).0 same) ∙ e in rw (same, find, e', other)
    | inr apart ↦
        rw (apart, find, h)
          (ap (λ r. if u.thread == self then ok (some q) else r)
            (find-clear_other p t ts e other l))
  ]

==_false_sym : (a b : ℕ) → (a == b) ≡ false → (b == a) ≡ false
==_false_sym a b h = ground arith

pub AreApart-store :
    (heap : Heap Task) (p : ℕ) (t : Task) (ts : List (Option ℕ))
    → heap p ≡ some t
    → AreOthers heap t.thread ts
    → AreApart heap ts
    → AreApart heap (store p ts)
unfolding store
AreApart-store heap p t [] e o a = tt
AreApart-store heap p t (none ∷ ts) e o a = ((t, e, o), a)
AreApart-store heap p t (some q ∷ ts) e ((u, h, other), o) ((v, g, os), a) =
    let same : u ≡ v = cc in
    let apart : (t.thread == v.thread) ≡ false =
      ==_false_sym v.thread t.thread (subst (λ w. (w.thread == t.thread) ≡ false) same other) in
    ((v, g, AreOthers-store heap v.thread p t ts e apart os), AreApart-store heap p t ts e o a)

pub put-AreApart :
    (heap : Heap Task) (p : ℕ) (b : Option Task) (ts : List (Option ℕ))
    → IsAbsent p ts
    → AreApart heap ts
    → AreApart (put heap p b) ts
put-AreApart heap p b [] a ap = tt
put-AreApart heap p b (none ∷ ts) a ap = put-AreApart heap p b ts a ap
put-AreApart heap p b (some q ∷ ts) a ((t, e, os), ap) = (
  (t, put_other heap p b q (λ same. a.0 (sym same)) ∙ e, put-AreOthers heap t.thread p b ts a.1 os),
  put-AreApart heap p b ts a.1 ap,
)

clear-AreOthers :
    (heap : Heap Task) (self p : ℕ) (ts : List (Option ℕ))
    → AreOthers heap self ts
    → AreOthers heap self (clear p ts)
unfolding clear
clear-AreOthers heap self p [] o = tt
clear-AreOthers heap self p (none ∷ ts) o = clear-AreOthers heap self p ts o
clear-AreOthers heap self p (some q ∷ ts) o = elim (Bool-cases (q == p)) [
  | inl e ↦ rw e o.1
  | inr e ↦ rw e (o.0, clear-AreOthers heap self p ts o.1)
]

pub clear-AreApart :
    (heap : Heap Task) (p : ℕ) (ts : List (Option ℕ))
    → AreApart heap ts
    → AreApart heap (clear p ts)
unfolding clear
clear-AreApart heap p [] a = tt
clear-AreApart heap p (none ∷ ts) a = clear-AreApart heap p ts a
clear-AreApart heap p (some q ∷ ts) ((t, e, os), a) = elim (Bool-cases (q == p)) [
  | inl same ↦ rw same a
  | inr apart ↦ rw apart ((t, e, clear-AreOthers heap t.thread p ts os), clear-AreApart heap p ts a)
]

-- A task of the table is one of the others.
AreOthers-stored :
    (heap : Heap Task) (self p : ℕ) (t : Task) (ts : List (Option ℕ))
    → heap p ≡ some t
    → IsStored p ts
    → AreOthers heap self ts
    → (t.thread == self) ≡ false
AreOthers-stored heap self p t [] e there o = elim there [ ]
AreOthers-stored heap self p t (none ∷ ts) e there o = AreOthers-stored heap self p t ts e there o
AreOthers-stored heap self p t (some q ∷ ts) e (inl same) ((u, h, other), o) =
    let h' : heap p ≡ some u = ap heap (sym same) ∙ h in
    let eq : u ≡ t = cc in subst (λ w. (w.thread == self) ≡ false) eq other
AreOthers-stored heap self p t (some q ∷ ts) e (inr there) (first, o) =
    AreOthers-stored heap self p t ts e there o

-- When a task of the table is cleared, none of the rest runs on its thread.
pub clear-gone :
    (heap : Heap Task) (p : ℕ) (t : Task) (ts : List (Option ℕ))
    → heap p ≡ some t
    → IsStored p ts
    → AreApart heap ts
    → AreOthers heap t.thread (clear p ts)
unfolding clear
clear-gone heap p t [] e there a = elim there [ ]
clear-gone heap p t (none ∷ ts) e there a = clear-gone heap p t ts e there a
clear-gone heap p t (some q ∷ ts) e there ((u, h, os), a) = elim (Bool-cases (q == p)) [
  | inl same ↦
      let h' : heap p ≡ some u = ap heap (sym ((==_iff q p).0 same)) ∙ h in
      let eq : u ≡ t = cc in rw same (subst (λ w. AreOthers heap w.thread ts) eq os)
  | inr apart ↦
      let there' : IsStored p ts = elim there [
        | inl same ↦ absurd (ground (arith, (==_iff q p).1 same))
        | inr later ↦ later
      ] in
      let differ =
        ==_false_sym t.thread u.thread (AreOthers-stored heap u.thread p t ts e there' os) in
      rw apart ((u, h, differ), clear-gone heap p t ts e there' a)
]
