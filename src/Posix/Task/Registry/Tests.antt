-- ===== src/Posix/Task/Registry/Tests.antt =====
-- Two tasks and an end, in the registry.
use univr_info_workshop.Common.{
  ℕ, true, List, put, ◌≡◌, refl, none, some, [], ◌∷◌, ◌==◌, if◌then◌else◌, arith, ok,
}
use univr_info_workshop.Posix.Task.{
  State, initial, store, clear, create, delete, own_if_null, find, get_self,
}
use univr_info_workshop.Posix.Task.Self.{has_room}
use univr_info_workshop.Posix.Task.Life.{created}
use univr_info_workshop.Posix.Task.Early.{spawned, published, early_lem}
use univr_info_workshop.Posix.Task.Registry.{IsRegistry}
use univr_info_workshop.Posix.Task.Registry.Names.{names}
use univr_info_workshop.Posix.Task.Registry.History.{History, starts, creates, ends, History-names}

abbrev one : State
one = created initial 64 (record { thread = 9; name = 67 ∷ [] })

abbrev two : State
two = created one 72 (record { thread = 8; name = 72 ∷ [] })

one-History : History one (λ j. if 9 == j then some (67 ∷ []) else none)
unfolding create has_room
one-History = creates (67 ∷ []) 64 9 starts (omega arith) refl refl refl refl

two-History :
    History two (λ j. if 8 == j then some (72 ∷ []) else if 9 == j then some (67 ∷ []) else none)
unfolding create has_room store
two-History = creates (72 ∷ []) 72 8 one-History (omega arith) refl refl refl refl

abbrev first_ended : State
first_ended = record { heap = put two.heap 64 none; tasks = clear 64 two.tasks }

first_ended-History : History first_ended (λ j.
    if 9 == j
    then none
    else if 8 == j
    then some (72 ∷ [])
    else if 9 == j
    then some (67 ∷ [])
    else none)
unfolding delete own_if_null get_self find store
first_ended-History = ends 9 (67 ∷ []) two-History refl refl

History-names_example :
    IsRegistry first_ended
    × ((j : ℕ)
        → names first_ended j
          ≡ ok (
              if 9 == j
              then none
              else if 8 == j
              then some (72 ∷ [])
              else if 9 == j
              then some (67 ∷ [])
              else none))
History-names_example = History-names first_ended-History

no_tasks-IsRegistry : IsRegistry initial
no_tasks-IsRegistry = (History-names starts).0

early_lem_example :
    let name : List ℕ = 67 ∷ [] in
    let early = spawned initial 64 0 name in
    let late = published 64 (spawned initial 64 9 name) in
    (create true (some name) (some 64) (some 9) initial ≡ ok (some 64, late))
    × IsRegistry early
    × ((j : ℕ) → names early j ≡ names initial j)
    × (get_self 9 early ≡ ok none)
    × (delete 9 none early ≡ ok (none, early))
    × IsRegistry late
    × ((j : ℕ) → names late j ≡ (if 9 == j then ok (some name) else names initial j))
    × (get_self 9 late ≡ ok (some 64))
unfolding has_room
early_lem_example =
    early_lem initial (67 ∷ []) 64 9 0 no_tasks-IsRegistry (omega arith) refl
      ((History-names starts).1 9) refl
