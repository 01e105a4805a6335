-- ===== src/Posix/Task/Self.antt =====
-- Which task a thread takes for its own.
use univr_info_workshop.Common.{
  ==_ne, ==_refl, Heap, put, put_other, ℕ, ◌≡◌, ◌∙◌, refl, ap, sym, subst, Bool, true, false,
  Option, none, some, List, [], ◌∷◌, ◌==◌, ==_iff, Bool-cases, inl, inr, ◌⊎◌, ok,
}
use univr_info_workshop.Posix.Task.{Task, State, store, clear, find, get_self}
use univr_info_workshop.Posix.Task.Table.{IsAbsent, AreLive}
use univr_info_workshop.Posix.Task.Safety.{IsValid}

-- Whether the table has a free place.
unfoldable pub has_room : List (Option ℕ) → Bool
has_room [] = false
has_room (none ∷ ts) = true
has_room (some p ∷ ts) = has_room ts

-- The handle is in the table.
abbrev pub IsStored : ℕ → List (Option ℕ) → Type 0
IsStored p [] = ⊥
IsStored p (none ∷ ts) = IsStored p ts
IsStored p (some q ∷ ts) = (q ≡ p) ⊎ IsStored p ts

-- The tasks of the table are all allocated, and none of them is the thread's.
abbrev pub AreOthers : Heap Task → (self : ℕ) → List (Option ℕ) → Type 0
AreOthers heap self [] = Unit {0}
AreOthers heap self (none ∷ ts) = AreOthers heap self ts
AreOthers heap self (some q ∷ ts) =
    ((t : Task) × (heap q ≡ some t) × ((t.thread == self) ≡ false)) × AreOthers heap self ts

-- What the search for a thread's task may answer.
abbrev pub IsOwn : Heap Task → (self : ℕ) → List (Option ℕ) → Option ℕ → Type 0
IsOwn heap self ts none = AreOthers heap self ts
IsOwn heap self ts (some p) = IsStored p ts × ((t : Task) × (heap p ≡ some t) × (t.thread ≡ self))

module _ (heap : Heap Task) (self : ℕ) where
  cons-IsOwn :
      (q : ℕ) (ts : List (Option ℕ)) (t : Task) (r : Option ℕ)
      → heap q ≡ some t
      → (t.thread == self) ≡ false
      → IsOwn heap self ts r
      → IsOwn heap self (some q ∷ ts) r
  cons-IsOwn q ts t none e other own = ((t, e, other), own)
  cons-IsOwn q ts t (some p) e other own = (inr own.0, own.1)

  pub find-IsOwn :
      (ts : List (Option ℕ))
      → AreLive heap ts
      → (r : Option ℕ) × (find heap self ts ≡ ok r) × IsOwn heap self ts r
  unfolding find
  find-IsOwn [] l = (none, refl, tt)
  find-IsOwn (none ∷ ts) l =
      let (r, e, own) = find-IsOwn ts l in
      elim r
          as (λ r.
            find heap self ts ≡ ok r
            → IsOwn heap self ts r
            → (r : Option ℕ) × (find heap self ts ≡ ok r) × IsOwn heap self (none ∷ ts) r) [
              | none ↦ λ e own. (none, e, own)
              | some p ↦ λ e own. (some p, e, own)
            ]
        e own
  find-IsOwn (some q ∷ ts) ((t, e), l) =
      let (r, came, own) = find-IsOwn ts l in
      elim (Bool-cases (t.thread == self)) [
        | inl mine ↦ (some q, rw (find, e, mine), (inl refl, (t, e, (==_iff t.thread self).0 mine)))
        | inr other ↦ (r, rw (find, e, other) came, cons-IsOwn q ts t r e other own)
      ]

  pub find-AreOthers : (ts : List (Option ℕ)) → AreOthers heap self ts → find heap self ts ≡ ok none
  unfolding find
  find-AreOthers [] o = refl
  find-AreOthers (none ∷ ts) o = find-AreOthers ts o
  find-AreOthers (some q ∷ ts) ((t, e, other), o) = rw (find, e, other) (find-AreOthers ts o)

  pub find-store :
      (p : ℕ) (t : Task) (ts : List (Option ℕ))
      → heap p ≡ some t
      → (t.thread == self) ≡ true
      → has_room ts ≡ true
      → AreOthers heap self ts
      → find heap self (store p ts) ≡ ok (some p)
  unfolding find store has_room
  find-store p t [] e mine room o = absurd (cc)
  find-store p t (none ∷ ts) e mine room o = rw (find, e, mine)
  find-store p t (some q ∷ ts) e mine room ((u, h, other), o) =
      rw (find, h, other) (find-store p t ts e mine room o)

  pub put-AreOthers :
      (p : ℕ) (b : Option Task) (ts : List (Option ℕ))
      → IsAbsent p ts
      → AreOthers heap self ts
      → AreOthers (put heap p b) self ts
  put-AreOthers p b [] a o = tt
  put-AreOthers p b (none ∷ ts) a o = put-AreOthers p b ts a o
  put-AreOthers p b (some q ∷ ts) a ((t, e, other), o) =
      ((t, put_other heap p b q (λ same. a.0 (sym same)) ∙ e, other), put-AreOthers p b ts a.1 o)

pub AreOthers-store :
    (heap : Heap Task) (self p : ℕ) (t : Task) (ts : List (Option ℕ))
    → heap p ≡ some t
    → (t.thread == self) ≡ false
    → AreOthers heap self ts
    → AreOthers heap self (store p ts)
unfolding store
AreOthers-store heap self p t [] e other o = tt
AreOthers-store heap self p t (none ∷ ts) e other o = ((t, e, other), o)
AreOthers-store heap self p t (some q ∷ ts) e other (o, os) =
    (o, AreOthers-store heap self p t ts e other os)

-- A full table is left as it is.
pub store_full : (p : ℕ) (ts : List (Option ℕ)) → has_room ts ≡ false → store p ts ≡ ts
unfolding store has_room
store_full p [] full = refl
store_full p (none ∷ ts) full = absurd (cc)
store_full p (some q ∷ ts) full = ap (λ x. some q ∷ x) (store_full p ts full)

pub clear-store : (p : ℕ) (ts : List (Option ℕ)) → IsAbsent p ts → clear p (store p ts) ≡ ts
unfolding clear store
clear-store p [] a = refl
clear-store p (none ∷ ts) a = rw (==_refl p)
clear-store p (some q ∷ ts) a = rw (==_ne q p a.0) (ap (λ x. some q ∷ x) (clear-store p ts a.1))

-- On a valid table `Task_GetSelf` reads no freed block, and its answer is right: a task of the
-- table, allocated, that runs on the caller's thread, or NULL when no task of the table does.
pub get_self-IsOwn :
    (self : ℕ) (st : State)
    → IsValid st
    → (r : Option ℕ) × (get_self self st ≡ ok r) × IsOwn st.heap self st.tasks r
unfolding get_self
get_self-IsOwn self st v = find-IsOwn st.heap self st.tasks v.live

pub get_self-AreOthers :
    (self : ℕ) (st : State)
    → IsValid st
    → get_self self st ≡ ok none
    → AreOthers st.heap self st.tasks
get_self-AreOthers self st v unknown =
    let (r, e, own) = get_self-IsOwn self st v in
    let none_found : r ≡ none = cc in subst (IsOwn st.heap self st.tasks) none_found own
