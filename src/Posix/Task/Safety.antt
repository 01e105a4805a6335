-- ===== src/Posix/Task/Safety.antt =====
-- No call leaves a dangling handle in the table of the tasks.
use univr_info_workshop.Common.{
  put, put_same, ℕ, ◌≡◌, ◌∙◌, sym, subst, Bool, true, false, Option, none, some, List, ltb, length,
  Bool-cases, Option-cases, inl, inr, Outcome, ok, abort, fault, ◌>>=◌,
}
use univr_info_workshop.Posix.Task.{
  Task, State, max_tasks, store, clear, create, delete, own_if_null,
}
use univr_info_workshop.Posix.Task.Table.{
  AreDistinct, AreLive, store-AreDistinct, store-AreLive, length-store, AreLive-IsAbsent,
  put-AreLive, clear-IsAbsent, clear-AreDistinct, clear-AreLive, length-clear,
}

-- The table has its 32 places, and its handles point to different blocks, all of them allocated.
pub record IsValid (st : State) : Type 0 where
  pub size : length st.tasks ≡ max_tasks
  pub distinct : AreDistinct st.tasks
  pub live : AreLive st.heap st.tasks

-- A call of `Task_Create` or `Task_Delete` that comes back, on any arguments and by any thread.
-- calloc returns a block that was not allocated.
pub data Step (st st' : State) : Type 0 where
  creates :
      (entry : Bool) (name : Option (List ℕ)) (p : ℕ) (created result : Option ℕ)
      → st.heap p ≡ none
      → create entry name (some p) created st ≡ ok (result, st')
      → Step st st'
  deletes :
      (self : ℕ) (task cancelled : Option ℕ)
      → delete self task st ≡ ok (cancelled, st')
      → Step st st'

module _ (st : State) (v : IsValid st) where
  pub stored-IsValid :
      (p : ℕ) (t : Task)
      → st.heap p ≡ none
      → IsValid (record { heap = put st.heap p (some t); tasks = store p st.tasks })
  stored-IsValid p t e =
      let a = AreLive-IsAbsent st.heap p st.tasks e v.live in
      record {
        size = length-store p st.tasks ∙ v.size;
        distinct = store-AreDistinct p st.tasks a v.distinct;
        live =
            store-AreLive (put st.heap p (some t)) p t st.tasks (put_same st.heap p (some t))
              (put-AreLive st.heap p (some t) st.tasks a v.live);
      }

  unstored-IsValid :
      (p : ℕ) (b : Option Task) → st.heap p ≡ none → IsValid (record st { heap = put st.heap p b })
  unstored-IsValid p b e = record {
    size = v.size;
    distinct = v.distinct;
    live = put-AreLive st.heap p b st.tasks (AreLive-IsAbsent st.heap p st.tasks e v.live) v.live;
  }

  pub freed-IsValid :
      (p : ℕ) → IsValid (record { heap = put st.heap p none; tasks = clear p st.tasks })
  freed-IsValid p = record {
    size = length-clear p st.tasks ∙ v.size;
    distinct = clear-AreDistinct p st.tasks v.distinct;
    live =
        put-AreLive st.heap p none (clear p st.tasks) (clear-IsAbsent p st.tasks v.distinct)
          (clear-AreLive p st.heap st.tasks v.live);
  }

-- The state in a result.
abbrev pub AllOk : (State → Type 0) → Outcome (Option ℕ × State) → Type 0
AllOk P (ok (r, st)) = P st
AllOk P abort = Unit {0}
AllOk P fault = Unit {0}

create-IsValid :
    (entry : Bool) (name : Option (List ℕ)) (p : ℕ) (created : Option ℕ) (st : State)
    → IsValid st
    → st.heap p ≡ none
    → AllOk IsValid (create entry name (some p) created st)
unfolding create
create-IsValid false name p created st v e = tt
create-IsValid true none p created st v e = tt
create-IsValid true (some name) p none st v e = elim (Bool-cases (ltb (length name) 32)) [
  | inl h ↦ rw h (unstored-IsValid st v p (some (record { thread = 0; name = name })) e)
  | inr h ↦ rw h tt
]
create-IsValid true (some name) p (some thread) st v e = elim (Bool-cases (ltb (length name) 32)) [
  | inl h ↦ rw h (stored-IsValid st v p (record { thread = thread; name = name }) e)
  | inr h ↦ rw h tt
]

delete_found-IsValid :
    (found : Outcome (Option ℕ)) (st : State)
    → IsValid st
    → AllOk IsValid (
        found >>= (λ o. elim o [
          | none ↦ ok (none, st)
          | some p ↦ elim (st.heap p) [
            | none ↦ fault
            | some t ↦
                ok (some t.thread, record { heap = put st.heap p none; tasks = clear p st.tasks })
          ]
        ]))
delete_found-IsValid abort st v = tt
delete_found-IsValid fault st v = tt
delete_found-IsValid (ok none) st v = v
delete_found-IsValid (ok (some p)) st v = elim (Option-cases (st.heap p)) [
  | inl e ↦ rw e tt
  | inr (t, e) ↦ rw e (freed-IsValid st v p)
]

-- However tasks are created and deleted, the table keeps its 32 places, no handle is in it twice,
-- and every handle in it points to an allocated block, so no freed task is left in it.
pub Step-IsValid : (st st' : State) → IsValid st → Step st st' → IsValid st'
unfolding delete
Step-IsValid st st' v (Step.creates entry name p created result e came) =
    subst (AllOk IsValid) came (create-IsValid entry name p created st v e)
Step-IsValid st st' v (Step.deletes self task cancelled came) =
    subst (AllOk IsValid) came (delete_found-IsValid (own_if_null self task st) st v)

delete_freed : (other p : ℕ) (st : State) → st.heap p ≡ none → delete other (some p) st ≡ fault
unfolding delete own_if_null
delete_freed other p st e = rw (delete, own_if_null, e)

-- A task that was deleted through its handle cannot be deleted through it again, by any thread: the
-- second call reads a freed block.
pub delete-twice :
    (self other p : ℕ) (cancelled : Option ℕ) (st st' : State)
    → delete self (some p) st ≡ ok (cancelled, st')
    → delete other (some p) st' ≡ fault
unfolding delete own_if_null
delete-twice self other p cancelled st st' came = elim (Option-cases (st.heap p)) [
  | inl e ↦
      let faulted : delete self (some p) st ≡ fault = rw (delete, own_if_null, e) in absurd (cc)
  | inr (t, e) ↦
      let done : delete self (some p) st
          ≡ ok (some t.thread, record { heap = put st.heap p none; tasks = clear p st.tasks }) =
        rw (delete, own_if_null, e) in
      subst (AllOk (λ x. delete other (some p) x ≡ fault)) (sym done ∙ came) (
        delete_freed other p (record { heap = put st.heap p none; tasks = clear p st.tasks })
          (put_same st.heap p none))
]
