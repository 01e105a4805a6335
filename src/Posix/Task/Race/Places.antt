-- ===== src/Posix/Task/Race/Places.antt =====
-- The places of a table: those in front that are taken, and the first free one.
use univr_info_workshop.Common.{
  ℕ, zero, suc, ◌<◌, ◌≡◌, refl, ap, Option, none, some, List, [], ◌∷◌, ◌++◌, map, length, get_elem?,
  set, arith, ◌⊎◌, inl, inr,
}
use univr_info_workshop.Posix.Task.{store}

pub taken :
    (qs : List ℕ) (rest : List (Option ℕ)) (k : ℕ)
    → k < length qs
    → (q : ℕ) × (get_elem? (map some qs ++ rest) k ≡ some (some q))
taken [] rest k h = absurd (omega arith)
taken (q ∷ qs) rest zero h = (q, refl)
taken (q ∷ qs) rest (suc k) h = taken qs rest k (omega arith)

pub found :
    (qs : List ℕ) (rest : List (Option ℕ)) (x : Option ℕ)
    → get_elem? (map some qs ++ x ∷ rest) (length qs) ≡ some x
found [] rest x = refl
found (q ∷ qs) rest x = found qs rest x

pub past_end : (qs : List ℕ) → get_elem? (map some qs ++ []) (length qs) ≡ none
past_end [] = refl
past_end (q ∷ qs) = past_end qs

pub set-found :
    (qs : List ℕ) (rest : List (Option ℕ)) (x y : Option ℕ)
    → set (map some qs ++ x ∷ rest) (length qs) y ≡ map some qs ++ y ∷ rest
set-found [] rest x y = refl
set-found (q ∷ qs) rest x y = ap (λ l. some q ∷ l) (set-found qs rest x y)

module _ (p : ℕ) where
  pub store-found :
      (qs : List ℕ) (rest : List (Option ℕ))
      → store p (map some qs ++ none ∷ rest) ≡ map some qs ++ some p ∷ rest
  unfolding store
  store-found [] rest = refl
  store-found (q ∷ qs) rest = ap (λ l. some q ∷ l) (store-found qs rest)

  pub store-past_end : (qs : List ℕ) → store p (map some qs ++ []) ≡ map some qs ++ []
  unfolding store
  store-past_end [] = refl
  store-past_end (q ∷ qs) = ap (λ l. some q ∷ l) (store-past_end qs)

-- A table is full, or it has a first free place.
abbrev pub Split : List (Option ℕ) → Type 0
Split ts =
    (qs : List ℕ) × ((ts ≡ map some qs ++ [])
      ⊎ ((rest : List (Option ℕ)) × (ts ≡ map some qs ++ none ∷ rest)))

pub split : (ts : List (Option ℕ)) → Split ts
split [] = ([], inl refl)
split (none ∷ ts) = ([], inr (ts, refl))
split (some q ∷ ts) =
    let (qs, s) = split ts in
    elim s [
      | inl e ↦ (q ∷ qs, inl (ap (λ l. some q ∷ l) e))
      | inr (rest, e) ↦ (q ∷ qs, inr (rest, ap (λ l. some q ∷ l) e))
    ]
