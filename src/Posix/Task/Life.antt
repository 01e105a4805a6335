-- ===== src/Posix/Task/Life.antt =====
-- The life of a task, from its creation to its end.
use univr_info_workshop.Common.{
  ==_refl, put, put_back, put_same, ℕ, ◌<◌, ◌≡◌, sym, subst, true, false, none, some, List, ltb,
  length, arith, ok,
}
use univr_info_workshop.Posix.Task.{
  Task, State, store, clear, create, find, get_self, own_if_null, delete, get_name,
}
use univr_info_workshop.Posix.Task.Table.{AreLive-IsAbsent}
use univr_info_workshop.Posix.Task.Safety.{IsValid}
use univr_info_workshop.Posix.Task.Self.{
  has_room, AreOthers, find-AreOthers, find-store, put-AreOthers, store_full, clear-store,
}

-- The state after the task on a new block was created.
abbrev pub created : State → (p : ℕ) → Task → State
created st p t = record { heap = put st.heap p (some t); tasks = store p st.tasks }

pub create_ok :
    (name : List ℕ) (p thread : ℕ) (st : State)
    → length name < 32
    → create true (some name) (some p) (some thread) st
      ≡ ok (some p, created st p (record { thread = thread; name = name }))
unfolding create
create_ok name p thread st h =
    let short : ltb (length name) 32 ≡ true = ground arith in rw (create, short)

module _ (self p : ℕ) (t : Task) (st : State) where
  pub get_name_own :
      get_self self st ≡ ok (some p) → st.heap p ≡ some t → get_name self none st ≡ ok (some t.name)
  unfolding get_name own_if_null
  get_name_own found e = rw (get_name, own_if_null, found, e)

  pub delete_own :
      get_self self st ≡ ok (some p)
      → st.heap p ≡ some t
      → delete self none st
        ≡ ok (some t.thread, record { heap = put st.heap p none; tasks = clear p st.tasks })
  unfolding delete own_if_null
  delete_own found e = rw (delete, own_if_null, found, e)

  -- A thread that finds its task deletes it by NULL as by its handle.
  pub delete_null : get_self self st ≡ ok (some p) → delete self none st ≡ delete self (some p) st
  unfolding delete own_if_null
  delete_null found = rw (delete, own_if_null, found)

  pub delete_handle :
      st.heap p ≡ some t
      → delete self (some p) st
        ≡ ok (some t.thread, record { heap = put st.heap p none; tasks = clear p st.tasks })
  unfolding delete own_if_null
  delete_handle e = rw (delete, own_if_null, e)

pub delete_unknown :
    (self : ℕ) (st : State) → get_self self st ≡ ok none → delete self none st ≡ ok (none, st)
unfolding delete own_if_null
delete_unknown self st found = rw (delete, own_if_null, found)

module _ (name : List ℕ) (p thread : ℕ) (st : State) (short : length name < 32) (v : IsValid st)
    (fresh : st.heap p ≡ none) (new_thread : AreOthers st.heap thread st.tasks) where
  -- The life of a task. A name of fewer than 32 bytes, a block that was not allocated and a thread
  -- that is none of the table's make a task; while the table has a free place, the new thread then
  -- finds itself and its name, and when it deletes itself its thread is cancelled, the table is the
  -- one before the creation, and so is the heap, and the thread is unknown again.
  pub create-delete :
      has_room st.tasks ≡ true
      → (running ended : State) × (create true (some name) (some p) (some thread) st
          ≡ ok (some p, running))
        × (get_self thread running ≡ ok (some p))
        × (get_name thread none running ≡ ok (some name))
        × (delete thread none running ≡ ok (some thread, ended))
        × (ended.tasks ≡ st.tasks)
        × ((q : ℕ) → ended.heap q ≡ st.heap q)
        × (get_self thread ended ≡ ok none)
  unfolding get_self
  create-delete room =
      let t : Task = record { thread = thread; name = name } in
      let running = created st p t in
      let absent = AreLive-IsAbsent st.heap p st.tasks fresh v.live in
      let others = put-AreOthers st.heap thread p (some t) st.tasks absent new_thread in
      let found : get_self thread running ≡ ok (some p) =
        find-store running.heap thread p t st.tasks (put_same st.heap p (some t)) (==_refl thread)
          room others in
      let cleared = clear-store p st.tasks absent in
      (
        running,
        record { heap = put running.heap p none; tasks = clear p running.tasks },
        create_ok name p thread st short,
        found,
        get_name_own thread p t running found (put_same st.heap p (some t)),
        delete_own thread p t running found (put_same st.heap p (some t)),
        cleared,
        (λ q. put_back st.heap p (some t) q fresh),
        subst (λ ts. find (put running.heap p none) thread ts ≡ ok none) (sym cleared)
            (find-AreOthers (put running.heap p none) thread st.tasks
              (put-AreOthers running.heap thread p none st.tasks absent others)),
      )

  -- When the 32 places are taken, a task is created and its handle returned all the same, but the
  -- table does not have it: the new thread's own handle is NULL and so is its name, and when it
  -- deletes itself nothing is cancelled, freed or changed.
  pub create_full :
      has_room st.tasks ≡ false
      → (running : State) × (create true (some name) (some p) (some thread) st
          ≡ ok (some p, running))
        × (get_self thread running ≡ ok none)
        × (get_name thread none running ≡ ok none)
        × (delete thread none running ≡ ok (none, running))
  unfolding get_self get_name own_if_null
  create_full full =
      let t : Task = record { thread = thread; name = name } in
      let running = created st p t in
      let absent = AreLive-IsAbsent st.heap p st.tasks fresh v.live in
      let found : get_self thread running ≡ ok none =
        subst (λ ts. find running.heap thread ts ≡ ok none) (sym (store_full p st.tasks full))
          (find-AreOthers running.heap thread st.tasks
            (put-AreOthers st.heap thread p (some t) st.tasks absent new_thread)) in
      (
        running,
        create_ok name p thread st short,
        found,
        rw (get_name, own_if_null, found),
        delete_unknown thread running found,
      )
