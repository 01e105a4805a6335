-- ===== src/Posix/Task.antt =====
-- main/src/adapter/posix/task.c: tasks over pthreads, and the table of the tasks. A task's handle is
-- the address of its block; the heap says which blocks are allocated. A thread is its pthread_t. The
-- functions are whole steps, except in Race, where two threads search the table at once: it has no lock,
-- and in Early, where the new thread runs before `Task_Create` has stored its handle.
pub mod Table
pub mod Safety
pub mod Self
pub mod Life
pub mod Race
pub mod Registry
pub mod Sleep
pub mod Early
mod Tests
use univr_info_workshop.Common.{
  Heap, put, ℕ, suc, Bool, true, false, Option, none, some, List, [], ◌∷◌, ◌==◌, ◌!=◌, ltb,
  if◌then◌else◌, length, replicate, Outcome, ok, abort, fault, ◌>>=◌,
}
use univr_info_workshop.Error.{ErrorCode}

abbrev pub max_tasks : ℕ
max_tasks = 32

-- `struct Task`, but for `next`, which nothing uses. The name is a C string without its terminator.
pub record Task : Type 0 where
  pub thread : ℕ
  pub name : List ℕ

-- The heap, and the table `TASKS` of handles.
pub record State : Type 0 where
  pub heap : Heap Task
  pub tasks : List (Option ℕ)

-- The zeroed table before any task.
abbrev pub initial : State
initial = record { heap = λ p. none; tasks = replicate max_tasks none }

-- Lines 34 to 41: the first free place takes the handle; without one, it is not stored.
unfoldable pub store : ℕ → List (Option ℕ) → List (Option ℕ)
store p [] = []
store p (none ∷ ts) = some p ∷ ts
store p (some q ∷ ts) = some q ∷ store p ts

-- Lines 58 to 65: the first place with the handle is cleared.
unfoldable pub clear : ℕ → List (Option ℕ) → List (Option ℕ)
clear p [] = []
clear p (none ∷ ts) = none ∷ clear p ts
clear p (some q ∷ ts) = let rest = clear p ts in if q == p then none ∷ ts else some q ∷ rest

-- `Task_Create`. `entry` says whether the entry point is not NULL, and `name` is none for NULL; the
-- block that calloc returns is `block`, and `created` the thread, if pthread_create succeeds. A name
-- of 32 bytes or more is copied past the end of its array.
pub create :
    (entry : Bool) (name : Option (List ℕ)) (block created : Option ℕ)
    → State
    → Outcome (Option ℕ × State)
unfolding store
create false name block created st = abort
create true none block created st = abort
create true (some name) none created st = abort
create true (some name) (some p) created st =
    if ltb (length name) 32
    then elim created [
      | none ↦
          ok (none, record st { heap = put st.heap p (some (record { thread = 0; name = name })) })
      | some thread ↦ ok (
        some p,
        record {
          heap = put st.heap p (some (record { thread = thread; name = name }));
          tasks = store p st.tasks;
        },
      )
    ]
    else fault

-- The loop of `Task_GetSelf`: the first task of the table that is the thread's.
unfoldable pub find : Heap Task → (self : ℕ) → List (Option ℕ) → Outcome (Option ℕ)
find heap self [] = ok none
find heap self (none ∷ ts) = find heap self ts
find heap self (some p ∷ ts) =
    let rest = find heap self ts in
    elim (heap p) [ none ↦ fault | some t ↦ if t.thread == self then ok (some p) else rest ]

-- `Task_GetSelf`; `self` is pthread_self.
pub get_self : (self : ℕ) → State → Outcome (Option ℕ)
unfolding find
get_self self st = find st.heap self st.tasks

-- The task that a handle names, NULL being the caller's own.
pub own_if_null : (self : ℕ) → Option ℕ → State → Outcome (Option ℕ)
unfolding get_self
own_if_null self none st = get_self self st
own_if_null self (some p) st = ok (some p)

-- `Task_Delete`: the thread that is cancelled, if any, and the state after. The cancelled thread may
-- be the caller, which goes on to free the block.
pub delete : (self : ℕ) → Option ℕ → State → Outcome (Option ℕ × State)
unfolding own_if_null clear
delete self task st = do
  found ← own_if_null self task st
  elim found [
    | none ↦ ok (none, st)
    | some p ↦ elim (st.heap p) [
      | none ↦ fault
      | some t ↦ ok (some t.thread, record { heap = put st.heap p none; tasks = clear p st.tasks })
    ]
  ]

-- `Task_GetName`.
pub get_name : (self : ℕ) → Option ℕ → State → Outcome (Option (List ℕ))
unfolding own_if_null
get_name self task st = do
  found ← own_if_null self task st
  elim found [
    | none ↦ ok none
    | some p ↦ elim (st.heap p) [ none ↦ fault | some t ↦ ok (some t.name) ]
  ]

-- `Task_SetPriority`.
pub set_priority : (task : Option ℕ) (priority : ℕ) → ErrorCode
set_priority task priority = ErrorCode.success
