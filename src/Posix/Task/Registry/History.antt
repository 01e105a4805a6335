-- ===== src/Posix/Task/Registry/History.antt =====
-- The registry of task.c from the start of the program on.
use univr_info_workshop.Common.{
  ℕ, ◌<◌, ◌≡◌, ◌≢◌, put_other, ◌∙◌, refl, ap, subst, Bool, true, false, Option, none, some, List,
  ◌==◌, ok, if◌then◌else◌, length,
}
use univr_info_workshop.Posix.Task.{
  State, initial, create, store, delete, get_name, own_if_null, get_self, find,
}
use univr_info_workshop.Posix.Task.Self.{has_room}
use univr_info_workshop.Posix.Task.Life.{create_ok, delete_null}
use univr_info_workshop.Posix.Task.Registry.{IsRegistry}
use univr_info_workshop.Posix.Task.Registry.Handles.{delete_handle_lem}
use univr_info_workshop.Posix.Task.Registry.Names.{
  names, task, after, after-IsRegistry, after-names, after-found,
}
use univr_info_workshop.Posix.Task.Registry.Ends.{known}

-- While the table has a free place, a new task is what the map gains; the table gets its handle, the
-- thread finds it, and no other block changes.
pub create_lem :
    (st : State) (name : List ℕ) (p thread : ℕ)
    → IsRegistry st
    → length name < 32
    → st.heap p ≡ none
    → names st thread ≡ ok none
    → has_room st.tasks ≡ true
    → (st' : State) × (create true (some name) (some p) (some thread) st ≡ ok (some p, st'))
      × IsRegistry st'
      × ((j : ℕ) → names st' j ≡ (if thread == j then ok (some name) else names st j))
      × (get_self thread st' ≡ ok (some p))
      × (st'.tasks ≡ store p st.tasks)
      × ((q : ℕ) → p ≢ q → st'.heap q ≡ st.heap q)
create_lem st name p thread reg short fresh unknown room = (
  after st reg name p thread fresh unknown,
  create_ok name p thread st short,
  after-IsRegistry st reg name p thread fresh unknown,
  after-names st reg name p thread fresh unknown room,
  after-found st reg name p thread fresh unknown room,
  refl,
  λ q. put_other st.heap p (some (task st reg name p thread fresh unknown)) q,
)

-- A task that deletes itself is what the map loses.
pub delete_lem :
    (st : State) (self : ℕ) (name : List ℕ)
    → IsRegistry st
    → names st self ≡ ok (some name)
    → (st' : State) × (delete self none st ≡ ok (some self, st'))
      × IsRegistry st'
      × ((j : ℕ) → names st' j ≡ (if self == j then ok none else names st j))
unfolding get_self
delete_lem st self name reg named =
    let (p, t, found, stored, h, mine) = known st self name reg.valid named in
    let (st', deleted, reg', law, room, heap) = delete_handle_lem st self self p reg found in
    (st', delete_null self p t st found ∙ deleted, reg', law)

-- The registry and the map that it stands for. A thread is created under a number that no task of the
-- table has, and calloc finds a block that is not allocated.
pub data History : State → (ℕ → Option (List ℕ)) → Type 0 where
  starts : History initial (λ j. none)
  creates :
      {st st' : State} {map : ℕ → Option (List ℕ)} {handle : Option ℕ} (name : List ℕ)
      (p thread : ℕ)
      → History st map
      → length name < 32
      → st.heap p ≡ none
      → map thread ≡ none
      → has_room st.tasks ≡ true
      → create true (some name) (some p) (some thread) st ≡ ok (handle, st')
      → History st' (λ j. if thread == j then some name else map j)
  ends :
      {st st' : State} {map : ℕ → Option (List ℕ)} {cancelled : Option ℕ} (self : ℕ) (name : List ℕ)
      → History st map
      → map self ≡ some name
      → delete self none st ≡ ok (cancelled, st')
      → History st' (λ j. if self == j then none else map j)

pub initial-IsRegistry : IsRegistry initial
initial-IsRegistry = record { valid = record { size = refl; distinct = tt; live = tt }; apart = tt }

if-ok : (b : Bool) (x y : Option (List ℕ)) → (if b then ok x else ok y) ≡ ok (if b then x else y)
if-ok true x y = refl
if-ok false x y = refl

-- The table of the tasks is a map from threads to names: from the start of the program on, however threads
-- create tasks while the table has a free place and however tasks end themselves, `Task_GetName` with
-- NULL answers, on every thread, the name that the last creation for that thread gave it, or NULL
-- if there was none or the task has ended; the table stays valid, with no two tasks on one thread.
pub History-names :
    {st : State} {map : ℕ → Option (List ℕ)}
    → History st map
    → IsRegistry st × ((j : ℕ) → names st j ≡ ok (map j))
unfolding get_name own_if_null get_self find
History-names starts = (initial-IsRegistry, λ j. refl)
History-names
      (creates {st = st} {st' = st'} {map = map} name p thread h short fresh unknown room came) =
    let (reg, named) = History-names h in
    let (st₁, e, reg', law, own, tasks, heap) =
      create_lem st name p thread reg short fresh (named thread ∙ ap ok unknown) room in
    let same : st₁ ≡ st' = cc in
    (
      subst IsRegistry same reg',
      λ j.
          subst (λ s. names s j ≡ ok (if thread == j then some name else map j)) same
            (law j
              ∙ ap (λ r. if thread == j then ok (some name) else r) (named j)
              ∙ if-ok (thread == j) (some name) (map j)),
    )
History-names (ends {st = st} {st' = st'} {map = map} self name h known came) =
    let (reg, named) = History-names h in
    let (st₁, e, reg', law) = delete_lem st self name reg (named self ∙ ap ok known) in
    let same : st₁ ≡ st' = cc in
    (
      subst IsRegistry same reg',
      λ j.
          subst (λ s. names s j ≡ ok (if self == j then none else map j)) same
            (law j
              ∙ ap (λ r. if self == j then ok none else r) (named j)
              ∙ if-ok (self == j) none (map j)),
    )
