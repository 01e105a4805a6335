-- ===== src/Posix/Task/Table.antt =====
-- The table of the tasks: what its places point to when a handle is stored or cleared.
use univr_info_workshop.Common.{
  Heap, put, put_other, ℕ, ◌≡◌, ◌≢◌, refl, ap, sym, subst, ◌∙◌, Option, none, some, List, [], ◌∷◌,
  ◌==◌, length, arith, ==_iff, Bool-cases, inl, inr,
}
use univr_info_workshop.Posix.Task.{Task, store, clear}

-- The handle is in no place of the table.
abbrev pub IsAbsent : ℕ → List (Option ℕ) → Type 0
IsAbsent p [] = Unit {0}
IsAbsent p (none ∷ ts) = IsAbsent p ts
IsAbsent p (some q ∷ ts) = (q ≢ p) × IsAbsent p ts

-- No handle is in two places.
abbrev pub AreDistinct : List (Option ℕ) → Type 0
AreDistinct [] = Unit {0}
AreDistinct (none ∷ ts) = AreDistinct ts
AreDistinct (some q ∷ ts) = IsAbsent q ts × AreDistinct ts

-- Every handle points to an allocated block.
abbrev pub AreLive : Heap Task → List (Option ℕ) → Type 0
AreLive heap [] = Unit {0}
AreLive heap (none ∷ ts) = AreLive heap ts
AreLive heap (some q ∷ ts) = ((t : Task) × (heap q ≡ some t)) × AreLive heap ts

pub store-IsAbsent :
    (p q : ℕ) (ts : List (Option ℕ)) → q ≢ p → IsAbsent p ts → IsAbsent p (store q ts)
unfolding store
store-IsAbsent p q [] h a = a
store-IsAbsent p q (none ∷ ts) h a = (h, a)
store-IsAbsent p q (some r ∷ ts) h a = (a.0, store-IsAbsent p q ts h a.1)

pub store-AreDistinct :
    (p : ℕ) (ts : List (Option ℕ)) → IsAbsent p ts → AreDistinct ts → AreDistinct (store p ts)
unfolding store
store-AreDistinct p [] a d = d
store-AreDistinct p (none ∷ ts) a d = (a, d)
store-AreDistinct p (some r ∷ ts) a d =
    (store-IsAbsent r p ts (λ e. a.0 (sym e)) d.0, store-AreDistinct p ts a.1 d.1)

pub store-AreLive :
    (heap : Heap Task) (p : ℕ) (t : Task) (ts : List (Option ℕ))
    → heap p ≡ some t
    → AreLive heap ts
    → AreLive heap (store p ts)
unfolding store
store-AreLive heap p t [] e l = l
store-AreLive heap p t (none ∷ ts) e l = ((t, e), l)
store-AreLive heap p t (some r ∷ ts) e l = (l.0, store-AreLive heap p t ts e l.1)

pub length-store : (p : ℕ) (ts : List (Option ℕ)) → length (store p ts) ≡ length ts
unfolding store
length-store p [] = refl
length-store p (none ∷ ts) = refl
length-store p (some r ∷ ts) = omega (arith, length-store p ts)

-- A block that is not allocated is in no table of live handles.
pub AreLive-IsAbsent :
    (heap : Heap Task) (p : ℕ) (ts : List (Option ℕ))
    → heap p ≡ none
    → AreLive heap ts
    → IsAbsent p ts
AreLive-IsAbsent heap p [] e l = tt
AreLive-IsAbsent heap p (none ∷ ts) e l = AreLive-IsAbsent heap p ts e l
AreLive-IsAbsent heap p (some q ∷ ts) e ((t, h), l) = (
  λ same. let freed : heap q ≡ none = ap heap same ∙ e in absurd (cc),
  AreLive-IsAbsent heap p ts e l,
)

-- A change of a block that the table does not name keeps the others live.
pub put-AreLive :
    (heap : Heap Task) (p : ℕ) (b : Option Task) (ts : List (Option ℕ))
    → IsAbsent p ts
    → AreLive heap ts
    → AreLive (put heap p b) ts
put-AreLive heap p b [] a l = tt
put-AreLive heap p b (none ∷ ts) a l = put-AreLive heap p b ts a l
put-AreLive heap p b (some q ∷ ts) a ((t, h), l) =
    ((t, put_other heap p b q (λ e. a.0 (sym e)) ∙ h), put-AreLive heap p b ts a.1 l)

module _ (p : ℕ) where
  pub clear-IsAbsent_other :
      (r : ℕ) (ts : List (Option ℕ)) → IsAbsent r ts → IsAbsent r (clear p ts)
  unfolding clear
  clear-IsAbsent_other r [] a = a
  clear-IsAbsent_other r (none ∷ ts) a = clear-IsAbsent_other r ts a
  clear-IsAbsent_other r (some q ∷ ts) a = elim (Bool-cases (q == p)) [
    | inl e ↦ rw e a.1
    | inr e ↦ rw e (a.0, clear-IsAbsent_other r ts a.1)
  ]

  -- The loop stops at the first place: the handle was in no other.
  pub clear-IsAbsent : (ts : List (Option ℕ)) → AreDistinct ts → IsAbsent p (clear p ts)
  unfolding clear
  clear-IsAbsent [] d = tt
  clear-IsAbsent (none ∷ ts) d = clear-IsAbsent ts d
  clear-IsAbsent (some q ∷ ts) d = elim (Bool-cases (q == p)) [
    | inl e ↦ rw e (subst (λ x. IsAbsent x ts) ((==_iff q p).0 e) d.0)
    | inr e ↦ rw e ((λ same. absurd (ground arith)), clear-IsAbsent ts d.1)
  ]

  pub clear-AreDistinct : (ts : List (Option ℕ)) → AreDistinct ts → AreDistinct (clear p ts)
  unfolding clear
  clear-AreDistinct [] d = d
  clear-AreDistinct (none ∷ ts) d = clear-AreDistinct ts d
  clear-AreDistinct (some q ∷ ts) d = elim (Bool-cases (q == p)) [
    | inl e ↦ rw e d.1
    | inr e ↦ rw e (clear-IsAbsent_other q ts d.0, clear-AreDistinct ts d.1)
  ]

  pub clear-AreLive :
      (heap : Heap Task) (ts : List (Option ℕ)) → AreLive heap ts → AreLive heap (clear p ts)
  unfolding clear
  clear-AreLive heap [] l = l
  clear-AreLive heap (none ∷ ts) l = clear-AreLive heap ts l
  clear-AreLive heap (some q ∷ ts) l = elim (Bool-cases (q == p)) [
    | inl e ↦ rw e l.1
    | inr e ↦ rw e (l.0, clear-AreLive heap ts l.1)
  ]

  pub length-clear : (ts : List (Option ℕ)) → length (clear p ts) ≡ length ts
  unfolding clear
  length-clear [] = refl
  length-clear (none ∷ ts) = omega (arith, length-clear ts)
  length-clear (some q ∷ ts) = elim (Bool-cases (q == p)) [
    | inl e ↦ rw e
    | inr e ↦ rw e (omega (arith, length-clear ts))
  ]
