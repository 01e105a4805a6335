-- ===== src/Posix/Task/Race/Tests.antt =====
-- Two threads that create tasks, on a small table.
use univr_info_workshop.Common.{
  ℕ, ◌≡◌, refl, true, false, Option, none, some, List, [], ◌∷◌, ◌==◌, Heap, ok,
}
use univr_info_workshop.Posix.Task.{Task, store, get_self}
use univr_info_workshop.Posix.Task.Self.{has_room, IsStored, AreOthers}
use univr_info_workshop.Posix.Task.Race.Serial.{Turns}
use univr_info_workshop.Posix.Task.Race.{Creator, Reach, both}
use univr_info_workshop.Posix.Task.Race.Lost.{create_races}

abbrev table : List (Option ℕ)
table = some 64 ∷ none ∷ none ∷ []

in_order : store 80 (store 72 table) ≡ some 64 ∷ some 72 ∷ some 80 ∷ []
unfolding store
in_order = refl

-- After 72 there is still a free place, so both handles are kept.
still_room : has_room (store 72 table) ≡ true
unfolding has_room store
still_room = refl

create_races_example :
    ((us vs : List (Option ℕ))
      → Turns table (Creator.searching 72 0) us (Creator.returned 72)
      → Turns us (Creator.searching 80 0) vs (Creator.returned 80)
      → (vs ≡ store 80 (store 72 table))
        × (has_room (store 72 table) ≡ true → IsStored 72 vs × IsStored 80 vs))
    × Reach (both table 72 80) (record {
      tasks = store 80 (store 72 table);
      first = Creator.returned 72;
      second = Creator.returned 80;
    })
    × Reach (both table 72 80) (record {
      tasks = store 72 table;
      first = Creator.returned 72;
      second = Creator.returned 80;
    })
    × ((heap : Heap Task) (self : ℕ) (t : Task)
        → heap 72 ≡ some t
        → (t.thread == self) ≡ false
        → AreOthers heap self table
        → get_self self (record { heap = heap; tasks = store 72 table }) ≡ ok none)
unfolding has_room
create_races_example = create_races table 72 80 refl
