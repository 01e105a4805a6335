-- ===== src/Posix/Task/Registry/Handles.antt =====
-- Task_Delete of task.c by a handle, whoever calls it.
use univr_info_workshop.Common.{
  ==_iff, ℕ, ◌≡◌, ◌≢◌, ◌∙◌, put_other, refl, sym, ap, subst, true, false, Bool-cases, inl, inr,
  Option, none, some, List, [], ◌∷◌, ◌==◌, if◌then◌else◌, ok,
}
use univr_info_workshop.Posix.Task.{Task, State, clear, get_self, delete}
use univr_info_workshop.Posix.Task.Self.{IsStored, IsOwn, has_room, find-IsOwn}
use univr_info_workshop.Posix.Task.Life.{delete_handle}
use univr_info_workshop.Posix.Task.Registry.{IsRegistry}
use univr_info_workshop.Posix.Task.Registry.Names.{names}
use univr_info_workshop.Posix.Task.Registry.Ends.{ended, ended-IsRegistry, ended-other, ended_self}

-- The task that a thread finds as its own.
pub owned :
    (st : State) (j p : ℕ)
    → IsRegistry st
    → get_self j st ≡ ok (some p)
    → IsStored p st.tasks × ((t : Task) × (st.heap p ≡ some t) × (t.thread ≡ j))
unfolding get_self
owned st j p reg found =
    let (r, came, own) = find-IsOwn st.heap j st.tasks reg.valid.live in
    let same : r ≡ some p = cc in subst (IsOwn st.heap j st.tasks) same own

has_room-clear : (p : ℕ) (ts : List (Option ℕ)) → has_room ts ≡ true → has_room (clear p ts) ≡ true
unfolding has_room clear
has_room-clear p [] h = h
has_room-clear p (none ∷ ts) h = refl
has_room-clear p (some q ∷ ts) h = elim (Bool-cases (q == p)) [
  | inl same ↦ rw same refl
  | inr other ↦ rw other (has_room-clear p ts h)
]

-- A task that its thread `j` finds is deleted by its handle: the thread is cancelled, the name is gone, and
-- a place and the block are free again.
pub delete_handle_lem :
    (st : State) (self j p : ℕ)
    → IsRegistry st
    → get_self j st ≡ ok (some p)
    → (st' : State) × (delete self (some p) st ≡ ok (some j, st'))
      × IsRegistry st'
      × ((i : ℕ) → names st' i ≡ (if j == i then ok none else names st i))
      × (has_room st.tasks ≡ true → has_room st'.tasks ≡ true)
      × ((q : ℕ) → p ≢ q → st'.heap q ≡ st.heap q)
delete_handle_lem st self j p reg found =
    let (stored, (t, h, mine)) = owned st j p reg found in
    (
      ended st reg p t h,
      delete_handle self p t st h ∙ ap (λ i. ok (some i, ended st reg p t h)) mine,
      ended-IsRegistry st reg p t h,
      (λ i. elim (Bool-cases (j == i)) [
        | inl same ↦ rw same (
            subst (λ k. names (ended st reg p t h) k ≡ ok none) (mine ∙ (==_iff j i).0 same)
              (ended_self st reg p t h stored))
        | inr other ↦
            rw other (ended-other st reg p t h i (subst (λ k. (k == i) ≡ false) (sym mine) other))
      ]),
      has_room-clear p st.tasks,
      put_other st.heap p none,
    )
