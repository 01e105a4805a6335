-- ===== src/Posix/Task/Race/Lost.antt =====
-- What becomes of the handles when two threads create tasks.
use univr_info_workshop.Common.{
  ℕ, zero, suc, ◌≤◌, ◌≡◌, refl, ap, sym, subst, ◌∙◌, true, false, Option, none, some, List, [], ◌∷◌,
  ◌++◌, map, length, set, arith, ◌==◌, inl, inr, Heap, ok,
}
use univr_info_workshop.Posix.Task.{Task, store, get_self}
use univr_info_workshop.Posix.Task.Race.{
  Creator, finds, passes, ends, writes, System, first_turns, second_turns, Reach, here, later, both,
}
use univr_info_workshop.Posix.Task.Race.Serial.{
  Turns, rests, goes, Turns-store, store-IsStored, store-keeps,
}
use univr_info_workshop.Posix.Task.Self.{
  IsStored, has_room, AreOthers, AreOthers-store, find-AreOthers,
}
use univr_info_workshop.Posix.Task.Race.Places.{
  found, past_end, set-found, split, store-found, store-past_end, taken,
}

scan :
    (p : ℕ) (qs : List ℕ) (rest : List (Option ℕ)) (k : ℕ)
    → k ≤ length qs
    → Turns
        (map some qs ++ rest)
        (Creator.searching p 0)
        (map some qs ++ rest)
        (Creator.searching p k)
scan p qs rest zero h = rests
scan p qs rest (suc k) h =
    let (q, e) = taken qs rest k (omega arith) in
    goes (scan p qs rest k (omega arith)) (passes p k q refl e)

-- The search comes to the first free place.
search :
    (p : ℕ) (qs : List ℕ) (rest : List (Option ℕ))
    → Turns
        (map some qs ++ none ∷ rest)
        (Creator.searching p 0)
        (map some qs ++ none ∷ rest)
        (Creator.writing p (length qs))
search p qs rest =
    goes (scan p qs (none ∷ rest) (length qs) (omega arith))
      (finds p (length qs) refl (found qs rest none))

-- A thread that is not disturbed stores its handle as `store` does.
alone :
    (p : ℕ) (ts : List (Option ℕ))
    → Turns ts (Creator.searching p 0) (store p ts) (Creator.returned p)
alone p ts =
    let (qs, s) = split ts in
    elim s [
      | inl e ↦
          subst (λ l. Turns l (Creator.searching p 0) (store p l) (Creator.returned p)) (sym e)
            (subst (λ l. Turns (map some qs ++ []) (Creator.searching p 0) l (Creator.returned p))
              (sym (store-past_end p qs))
              (goes (scan p qs [] (length qs) (omega arith))
                (ends p (length qs) refl (past_end qs))))
      | inr (rest, e) ↦
          subst (λ l. Turns l (Creator.searching p 0) (store p l) (Creator.returned p)) (sym e)
            (subst
              (λ l.
                Turns (map some qs ++ none ∷ rest) (Creator.searching p 0) l (Creator.returned p))
              (set-found qs rest none (some p) ∙ sym (store-found p qs rest))
              (goes (search p qs rest) (writes p (length qs) refl)))
    ]

first_runs :
    {s : System} {ts : List (Option ℕ)} {c : Creator} {us : List (Option ℕ)} {d : Creator}
    (x : Creator)
    → Reach s (record { tasks = ts; first = c; second = x })
    → Turns ts c us d
    → Reach s (record { tasks = us; first = d; second = x })
first_runs x r rests = r
first_runs x r (goes run turn) = later (first_runs x r run) (first_turns turn)

second_runs :
    {s : System} {ts : List (Option ℕ)} {c : Creator} {us : List (Option ℕ)} {d : Creator}
    (x : Creator)
    → Reach s (record { tasks = ts; first = x; second = c })
    → Turns ts c us d
    → Reach s (record { tasks = us; first = x; second = d })
second_runs x r rests = r
second_runs x r (goes run turn) = later (second_runs x r run) (second_turns turn)

has_room-Split :
    (ts : List (Option ℕ))
    → has_room ts ≡ true
    → (qs : List ℕ) × (rest : List (Option ℕ)) × (ts ≡ map some qs ++ none ∷ rest)
unfolding has_room
has_room-Split [] room = absurd (cc)
has_room-Split (none ∷ ts) room = ([], ts, refl)
has_room-Split (some q ∷ ts) room =
    let (qs, rest, e) = has_room-Split ts room in (q ∷ qs, rest, ap (λ l. some q ∷ l) e)

-- Two threads create the tasks `p` and `q`, while the table has a free place. If the second
-- searches for its place only when the first is back, then whatever turns the two took, they
-- stored the handles as one call after the other stores them, and if a place was left free after
-- the first, both handles are in the table; and that order is possible. But they may also both be
-- back with the table as if only `p` had been stored: the place that `q` took was overwritten.
-- Then the task of `q` does not know itself: where no other task of the table runs on its thread,
-- its own handle is NULL.
pub create_races :
    (ts : List (Option ℕ)) (p q : ℕ)
    → has_room ts ≡ true
    → ((us vs : List (Option ℕ))
        → Turns ts (Creator.searching p 0) us (Creator.returned p)
        → Turns us (Creator.searching q 0) vs (Creator.returned q)
        → (vs ≡ store q (store p ts))
          × (has_room (store p ts) ≡ true → IsStored p vs × IsStored q vs))
      × Reach (both ts p q) (record {
        tasks = store q (store p ts);
        first = Creator.returned p;
        second = Creator.returned q;
      })
      × Reach
          (both ts p q)
          (record { tasks = store p ts; first = Creator.returned p; second = Creator.returned q })
      × ((heap : Heap Task) (self : ℕ) (t : Task)
          → heap p ≡ some t
          → (t.thread == self) ≡ false
          → AreOthers heap self ts
          → get_self self (record { heap = heap; tasks = store p ts }) ≡ ok none)
unfolding get_self
create_races ts p q room =
    let (qs, rest, e) = has_room-Split ts room in
    (
      serial,
      second_runs (Creator.returned p) (first_runs (Creator.searching q 0) here (alone p ts))
          (alone q (store p ts)),
      overwritten qs rest e,
      λ heap self t h other os.
          find-AreOthers heap self (store p ts) (AreOthers-store heap self p t ts h other os),
    )
  where
    serial :
        (us vs : List (Option ℕ))
        → Turns ts (Creator.searching p 0) us (Creator.returned p)
        → Turns us (Creator.searching q 0) vs (Creator.returned q)
        → (vs ≡ store q (store p ts))
          × (has_room (store p ts) ≡ true → IsStored p vs × IsStored q vs)
    serial us vs one other =
        let table : vs ≡ store q (store p ts) =
          Turns-store q us other ∙ ap (store q) (Turns-store p ts one) in
        (
          table,
          λ more.
              let kept = store-keeps p q (store p ts) (store-IsStored p ts room) in
              (
                subst (IsStored p) (sym table) kept,
                subst (IsStored q) (sym table) (store-IsStored q (store p ts) more),
              ),
        )

    Overwritten : List (Option ℕ) → Type 0
    Overwritten l =
        Reach (both l p q)
          (record { tasks = store p l; first = Creator.returned p; second = Creator.returned q })

    overwritten :
        (qs : List ℕ) (rest : List (Option ℕ)) → ts ≡ map some qs ++ none ∷ rest → Overwritten ts
    overwritten qs rest e =
        let i = length qs in
        let begun : List (Option ℕ) = map some qs ++ none ∷ rest in
        let origin : Reach (both begun p q) (both begun p q) = here in
        let looked = first_runs (Creator.searching q 0) origin (search p qs rest) in
        let ran = second_runs (Creator.writing p i) looked (alone q begun) in
        let wrote = later ran (first_turns (writes p i refl)) in
        let table : set (store q begun) i (some p) ≡ store p begun =
          ap (λ l. set l i (some p)) (store-found q qs rest)
          ∙ set-found qs rest (some q) (some p)
          ∙ sym (store-found p qs rest) in
        subst Overwritten (sym e) (
          subst
            (λ l.
              Reach (both begun p q)
                (record { tasks = l; first = Creator.returned p; second = Creator.returned q }))
            table wrote)
