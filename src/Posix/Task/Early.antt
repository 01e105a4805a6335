-- ===== src/Posix/Task/Early.antt =====
-- The new thread of `Task_Create` of task.c between pthread_create, which starts it, and line 38, which
-- stores its handle.
use univr_info_workshop.Common.{
  ℕ, ◌<◌, ◌≡◌, ◌∙◌, ◌==◌, if◌then◌else◌, put, true, none, some, List, length, ok,
}
use univr_info_workshop.Posix.Task.{State, store, create, delete, get_self}
use univr_info_workshop.Posix.Task.Self.{has_room}
use univr_info_workshop.Posix.Task.Life.{create_ok, delete_unknown}
use univr_info_workshop.Posix.Task.Registry.{IsRegistry}
use univr_info_workshop.Posix.Task.Registry.Names.{
  names, aside, aside-IsRegistry, aside-names, unnamed, after-IsRegistry, after-names, after-found,
}

-- Lines 26 to 32: the block is allocated and has its name. Its thread is set by pthread_create, which may
-- do so when the thread already runs; `thread` is what the field holds.
pub spawned : State → (block thread : ℕ) (name : List ℕ) → State
spawned st block thread name = record st {
  heap = put st.heap block (some (record { thread = thread; name = name }));
}

-- Lines 34 to 41: the handle goes into the table.
pub published : (block : ℕ) → State → State
published block st = record st { tasks = store block st.tasks }

-- The store is the moment at which a new task comes into being for all callers. Where a name of fewer than 32
-- bytes, a block that was not allocated and a thread without a name make a task, and the table has a
-- free place: until the handle is stored, `Task_GetName` answers on every thread as before the call, so the
-- new thread, which may run already, has no handle and no name, and its `Task_Delete` of itself
-- comes back without effect, after which the task is stored all the same; from the store on, the
-- new thread has the name. The table is valid at both times.
pub early_lem :
    (st : State) (name : List ℕ) (p thread field : ℕ)
    → IsRegistry st
    → length name < 32
    → st.heap p ≡ none
    → names st thread ≡ ok none
    → has_room st.tasks ≡ true
    → let early = spawned st p field name in
      let late = published p (spawned st p thread name) in
      (create true (some name) (some p) (some thread) st ≡ ok (some p, late))
      × IsRegistry early
      × ((j : ℕ) → names early j ≡ names st j)
      × (get_self thread early ≡ ok none)
      × (delete thread none early ≡ ok (none, early))
      × IsRegistry late
      × ((j : ℕ) → names late j ≡ (if thread == j then ok (some name) else names st j))
      × (get_self thread late ≡ ok (some p))
unfolding published spawned
early_lem st name p thread field reg short fresh unknown room =
    let b = some (record { thread = field; name = name }) in
    let early = aside st reg p b fresh in
    let kept = aside-IsRegistry st reg p b fresh in
    let same = aside-names st reg p b fresh in
    let not_found = unnamed early thread kept.valid (same thread ∙ unknown) in
    (
      create_ok name p thread st short,
      kept,
      same,
      not_found,
      delete_unknown thread early not_found,
      after-IsRegistry st reg name p thread fresh unknown,
      after-names st reg name p thread fresh unknown room,
      after-found st reg name p thread fresh unknown room,
    )
