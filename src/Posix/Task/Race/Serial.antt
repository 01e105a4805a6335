-- ===== src/Posix/Task/Race/Serial.antt =====
-- A thread in `Task_Create` of task.c whose search and write no other thread disturbs.
use native.Mathlib.Decide.{dec_lt}
use univr_info_workshop.Common.{
  ℕ, zero, suc, ◌<◌, ◌≡◌, refl, ap, sym, subst, ◌∙◌, true, Option, none, some, List, [], ◌∷◌,
  get_elem?, set, arith, inl, inr,
}
use univr_info_workshop.Posix.Task.{store}
use univr_info_workshop.Posix.Task.Race.{Creator, Turn, finds, passes, ends, writes}
use univr_info_workshop.Posix.Task.Self.{has_room, IsStored}

-- Several turns of one thread.
pub data Turns (ts : List (Option ℕ)) (c : Creator) : List (Option ℕ) → Creator → Type 0 where
  rests : Turns ts c ts c
  goes :
      {us vs : List (Option ℕ)} {d e : Creator} → Turns ts c us d → Turn us d vs e → Turns ts c vs e

-- The places before `k` are taken.
abbrev AreTaken : List (Option ℕ) → ℕ → Type 0
AreTaken ts k = (j : ℕ) → j < k → (q : ℕ) × (get_elem? ts j ≡ some (some q))

set-AreTaken :
    (p : ℕ) (ts : List (Option ℕ)) (k : ℕ)
    → AreTaken ts k
    → get_elem? ts k ≡ some none
    → set ts k (some p) ≡ store p ts
unfolding store
set-AreTaken p [] k taken e = refl
set-AreTaken p (none ∷ ts) zero taken e = refl
set-AreTaken p (none ∷ ts) (suc k) taken e = let (q, f) = taken 0 (omega arith) in absurd (cc)
set-AreTaken p (some q ∷ ts) zero taken e = absurd (cc)
set-AreTaken p (some q ∷ ts) (suc k) taken e =
    ap (λ l. some q ∷ l) (set-AreTaken p ts k (λ j h. taken (suc j) (omega arith)) e)

store-AreTaken :
    (p : ℕ) (ts : List (Option ℕ)) (k : ℕ) → AreTaken ts k → get_elem? ts k ≡ none → store p ts ≡ ts
unfolding store
store-AreTaken p [] k taken e = refl
store-AreTaken p (none ∷ ts) zero taken e = absurd (cc)
store-AreTaken p (none ∷ ts) (suc k) taken e = let (q, f) = taken 0 (omega arith) in absurd (cc)
store-AreTaken p (some q ∷ ts) zero taken e = absurd (cc)
store-AreTaken p (some q ∷ ts) (suc k) taken e =
    ap (λ l. some q ∷ l) (store-AreTaken p ts k (λ j h. taken (suc j) (omega arith)) e)

-- How far a thread is that stores `p` in the table `ts`, and the table then.
IsOnWay : (p : ℕ) (ts us : List (Option ℕ)) → Creator → Type 0
IsOnWay p ts us (Creator.searching r k) = (r ≡ p) × (us ≡ ts) × AreTaken ts k
IsOnWay p ts us (Creator.writing r k) =
    (r ≡ p) × (us ≡ ts) × AreTaken ts k × (get_elem? ts k ≡ some none)
IsOnWay p ts us (Creator.returned r) = (r ≡ p) × (us ≡ store p ts)

taken_suc :
    (ts : List (Option ℕ)) (k q : ℕ)
    → AreTaken ts k
    → get_elem? ts k ≡ some (some q)
    → AreTaken ts (suc k)
taken_suc ts k q taken e j h = elim (dec_lt j k) [
  | yes before ↦ taken j before
  | no last ↦ let same : j ≡ k = omega arith in (q, rw same e)
]

Turn-IsOnWay :
    (p : ℕ) (ts : List (Option ℕ)) {us vs : List (Option ℕ)} {c d : Creator}
    → Turn us c vs d
    → IsOnWay p ts us c
    → IsOnWay p ts vs d
unfolding IsOnWay
Turn-IsOnWay p ts {us} (finds r i at e) way =
    let (same, table, taken) = subst (IsOnWay p ts us) at way in
    (same, table, taken, subst (λ l. get_elem? l i ≡ some none) table e)
Turn-IsOnWay p ts {us} (passes r i q at e) way =
    let (same, table, taken) = subst (IsOnWay p ts us) at way in
    (same, table, taken_suc ts i q taken (subst (λ l. get_elem? l i ≡ some (some q)) table e))
Turn-IsOnWay p ts {us} (ends r i at e) way =
    let (same, table, taken) = subst (IsOnWay p ts us) at way in
    (same, table ∙ sym (store-AreTaken p ts i taken (subst (λ l. get_elem? l i ≡ none) table e)))
Turn-IsOnWay p ts {us} (writes r i at) way =
    let (same, table, taken, free) = subst (IsOnWay p ts us) at way in
    (
      same,
      ap (λ l. set l i (some r)) table
          ∙ ap (λ x. set ts i (some x)) same
          ∙ set-AreTaken p ts i taken free,
    )

Turns-IsOnWay :
    (p : ℕ) (ts : List (Option ℕ)) {us : List (Option ℕ)} {c : Creator}
    → Turns ts (Creator.searching p 0) us c
    → IsOnWay p ts us c
unfolding IsOnWay
Turns-IsOnWay p ts rests = (refl, refl, λ j h. absurd (omega arith))
Turns-IsOnWay p ts (goes run turn) = Turn-IsOnWay p ts turn (Turns-IsOnWay p ts run)

-- Undisturbed turns leave the table as `store` does.
pub Turns-store :
    (p : ℕ) (ts : List (Option ℕ)) {us : List (Option ℕ)}
    → Turns ts (Creator.searching p 0) us (Creator.returned p)
    → us ≡ store p ts
unfolding IsOnWay
Turns-store p ts run = (Turns-IsOnWay p ts run).1

pub store-IsStored : (p : ℕ) (ts : List (Option ℕ)) → has_room ts ≡ true → IsStored p (store p ts)
unfolding store has_room
store-IsStored p [] room = cc
store-IsStored p (none ∷ ts) room = inl refl
store-IsStored p (some q ∷ ts) room = inr (store-IsStored p ts room)

pub store-keeps : (p q : ℕ) (ts : List (Option ℕ)) → IsStored p ts → IsStored p (store q ts)
unfolding store
store-keeps p q [] s = s
store-keeps p q (none ∷ ts) s = inr s
store-keeps p q (some r ∷ ts) (inl e) = inl e
store-keeps p q (some r ∷ ts) (inr s) = inr (store-keeps p q ts s)
