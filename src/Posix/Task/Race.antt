-- ===== src/Posix/Task/Race.antt =====
-- Two threads in `Task_Create` of task.c at once. The table has no lock: between the test of a place
-- and the write to it, another thread may take the place.
pub mod Places
pub mod Serial
pub mod Lost
mod Tests
use univr_info_workshop.Common.{
  ℕ, zero, suc, ◌<◌, ◌≤◌, ◌≡◌, refl, ap, sym, subst, ◌∙◌, Bool, true, false, Option, none, some,
  List, [], ◌∷◌, ◌++◌, map, append-nil, length, get_elem?, set, arith, ◌==◌, ◌⊎◌, inl, inr, Heap,
  ok,
}
use univr_info_workshop.Posix.Task.{Task, State, store, get_self}
use univr_info_workshop.Posix.Task.Self.{has_room, AreOthers, find-AreOthers}

-- Where a thread stands in lines 34 to 43 with the handle that it stores: about to test a place of
-- the table, about to write a place that it found free, or back from the call.
pub data Creator : Type 0 where
  searching writing : (handle place : ℕ) → Creator
  returned : (handle : ℕ) → Creator

-- One test or one write of a thread.
pub data Turn (ts : List (Option ℕ)) (c : Creator) : List (Option ℕ) → Creator → Type 0 where
  finds :
      (p i : ℕ)
      → c ≡ Creator.searching p i
      → get_elem? ts i ≡ some none
      → Turn ts c ts (Creator.writing p i)
  passes :
      (p i q : ℕ)
      → c ≡ Creator.searching p i
      → get_elem? ts i ≡ some (some q)
      → Turn ts c ts (Creator.searching p (suc i))
  ends :
      (p i : ℕ)
      → c ≡ Creator.searching p i
      → get_elem? ts i ≡ none
      → Turn ts c ts (Creator.returned p)
  writes : (p i : ℕ) → c ≡ Creator.writing p i → Turn ts c (set ts i (some p)) (Creator.returned p)

pub record System : Type 0 where
  pub tasks : List (Option ℕ)
  pub first : Creator
  pub second : Creator

-- The two threads take turns in any order.
pub data Step (s : System) : System → Type 0 where
  first_turns :
      {ts : List (Option ℕ)} {c : Creator}
      → Turn s.tasks s.first ts c
      → Step s (record { tasks = ts; first = c; second = s.second })
  second_turns :
      {ts : List (Option ℕ)} {c : Creator}
      → Turn s.tasks s.second ts c
      → Step s (record { tasks = ts; first = s.first; second = c })

pub data Reach (s : System) : System → Type 0 where
  here : Reach s s
  later : {t u : System} → Reach s t → Step t u → Reach s u

-- Both threads have created their tasks and begin to search.
abbrev pub both : List (Option ℕ) → (p q : ℕ) → System
both ts p q = record { tasks = ts; first = Creator.searching p 0; second = Creator.searching q 0 }
