-- ===== src/Posix/Task/Registry/Ends.antt =====
-- Task_Delete of task.c as an update of a map from threads to names.
use univr_info_workshop.Common.{put, ℕ, ◌≡◌, ◌∙◌, sym, false, Option, none, some, List, ◌==◌, ok}
use univr_info_workshop.Posix.Task.{Task, State, clear, find}
use univr_info_workshop.Posix.Task.Table.{IsAbsent, AreLive, clear-IsAbsent, clear-AreLive}
use univr_info_workshop.Posix.Task.Safety.{IsValid, freed-IsValid}
use univr_info_workshop.Posix.Task.Self.{IsStored, IsOwn, find-IsOwn, find-AreOthers, put-AreOthers}
use univr_info_workshop.Posix.Task.Registry.{
  IsRegistry, find-put, find-clear_other, put-AreApart, clear-AreApart, clear-gone,
}
use univr_info_workshop.Posix.Task.Registry.Names.{names, name_at, names_lem, name_at-put, found-ne}

-- A thread that has a name has a task in the table, of that name.
pub known :
    (st : State) (j : ℕ) (name : List ℕ)
    → IsValid st
    → names st j ≡ ok (some name)
    → (p : ℕ) × (t : Task) × (find st.heap j st.tasks ≡ ok (some p))
      × IsStored p st.tasks
      × (st.heap p ≡ some t)
      × (t.thread ≡ j)
known st j name v e =
    let (r, came, own) = find-IsOwn st.heap j st.tasks v.live in
    go r came (sym (names_lem st j r came) ∙ e) own
  where
    go :
        (r : Option ℕ)
        → find st.heap j st.tasks ≡ ok r
        → name_at st.heap r ≡ ok (some name)
        → IsOwn st.heap j st.tasks r
        → (p : ℕ) × (t : Task) × (find st.heap j st.tasks ≡ ok (some p))
          × IsStored p st.tasks
          × (st.heap p ≡ some t)
          × (t.thread ≡ j)
    go none came e own = absurd (cc)
    go (some p) came e (stored, (t, h, mine)) = (p, t, came, stored, h, mine)

module _ (st : State) (reg : IsRegistry st) (p : ℕ) (t : Task) (h : st.heap p ≡ some t) where
  abbrev pub ended : State
  ended = record { heap = put st.heap p none; tasks = clear p st.tasks }

  cleared : IsAbsent p (clear p st.tasks)
  cleared = clear-IsAbsent p st.tasks reg.valid.distinct

  live : AreLive st.heap (clear p st.tasks)
  live = clear-AreLive p st.heap st.tasks reg.valid.live

  pub ended-IsRegistry : IsRegistry ended
  ended-IsRegistry = record {
    valid = freed-IsValid st reg.valid p;
    apart =
        put-AreApart st.heap p none (clear p st.tasks) cleared
          (clear-AreApart st.heap p st.tasks reg.apart);
  }

  pub ended-other : (j : ℕ) → (t.thread == j) ≡ false → names ended j ≡ names st j
  ended-other j other =
      let (r, came, own) = find-IsOwn st.heap j (clear p st.tasks) live in
      let passed = find-put st.heap j p none (clear p st.tasks) cleared live ∙ came in
      let kept = sym (find-clear_other st.heap j p t st.tasks h other reg.valid.live) ∙ came in
      names_lem ended j r passed
      ∙ name_at-put st.heap p none r (found-ne st.heap j p (clear p st.tasks) r cleared own)
      ∙ sym (names_lem st j r kept)

  pub ended_self : IsStored p st.tasks → names ended t.thread ≡ ok none
  ended_self stored = names_lem ended t.thread none (
      find-AreOthers (put st.heap p none) t.thread (clear p st.tasks) (
        put-AreOthers st.heap t.thread p none (clear p st.tasks) cleared
          (clear-gone st.heap p t st.tasks h stored reg.apart)))
