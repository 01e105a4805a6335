-- ===== src/Posix/Task/Registry/Names.antt =====
-- Task_Create of task.c as an update of a map from threads to names.
use univr_info_workshop.Common.{
  ==_refl, ==_iff, Bool-cases, if◌then◌else◌, Heap, put, put_same, put_other, ℕ, ◌≡◌, ◌≢◌, ◌∙◌,
  refl, sym, subst, true, false, Option, none, some, List, [], ◌∷◌, ◌==◌, inl, inr, Outcome, ok,
  fault,
}
use univr_info_workshop.Posix.Task.{Task, State, store, find, get_self, get_name, own_if_null}
use univr_info_workshop.Posix.Task.Table.{IsAbsent, AreLive-IsAbsent, put-AreLive}
use univr_info_workshop.Posix.Task.Safety.{IsValid, stored-IsValid}
use univr_info_workshop.Posix.Task.Self.{
  AreOthers, IsStored, IsOwn, has_room, find-IsOwn, find-AreOthers, find-store, put-AreOthers,
}
use univr_info_workshop.Posix.Task.Life.{created, get_name_own}
use univr_info_workshop.Posix.Task.Registry.{
  IsRegistry, find-store_other, find-put, AreApart-store, put-AreApart,
}

-- The registry as a map: the name that `Task_GetName(NULL)` answers on a thread.
abbrev pub names : State → (thread : ℕ) → Outcome (Option (List ℕ))
names st thread = get_name thread none st

-- The name of what a search found.
abbrev pub name_at : Heap Task → Option ℕ → Outcome (Option (List ℕ))
name_at heap none = ok none
name_at heap (some p) = elim (heap p) [ none ↦ fault | some t ↦ ok (some t.name) ]

pub names_lem :
    (st : State) (j : ℕ) (r : Option ℕ)
    → find st.heap j st.tasks ≡ ok r
    → names st j ≡ name_at st.heap r
unfolding get_name own_if_null get_self
names_lem st j none e = rw (get_name, own_if_null, get_self, e)
names_lem st j (some p) e = rw (get_name, own_if_null, get_self, e)

-- A change of another block than the one found keeps the name.
pub name_at-put :
    (heap : Heap Task) (p : ℕ) (b : Option Task) (r : Option ℕ)
    → ((q : ℕ) → r ≡ some q → p ≢ q)
    → name_at (put heap p b) r ≡ name_at heap r
name_at-put heap p b none h = refl
name_at-put heap p b (some q) h = rw (name_at, put_other heap p b q (h q refl))

IsStored-ne : (p q : ℕ) (ts : List (Option ℕ)) → IsAbsent p ts → IsStored q ts → p ≢ q
IsStored-ne p q [] a s = elim s [ ]
IsStored-ne p q (none ∷ ts) a s = IsStored-ne p q ts a s
IsStored-ne p q (some r ∷ ts) a (inl e) = λ same. a.0 (e ∙ sym same)
IsStored-ne p q (some r ∷ ts) a (inr s) = IsStored-ne p q ts a.1 s

pub found-ne :
    (heap : Heap Task) (j p : ℕ) (ts : List (Option ℕ)) (r : Option ℕ)
    → IsAbsent p ts
    → IsOwn heap j ts r
    → (q : ℕ) → r ≡ some q
    → p ≢ q
found-ne heap j p ts none a own q e = absurd (cc)
found-ne heap j p ts (some r) a own q e =
    let same : r ≡ q = cc in subst (λ x. p ≢ x) same (IsStored-ne p r ts a own.0)

-- On a valid table no search fails, and a thread whose name is unknown has no task in it.
unknown : (st : State) (j : ℕ) → IsValid st → names st j ≡ ok none → AreOthers st.heap j st.tasks
unknown st j v e =
    let (r, came, own) = find-IsOwn st.heap j st.tasks v.live in
    go r (sym (names_lem st j r came) ∙ e) own
  where
    go :
        (r : Option ℕ)
        → name_at st.heap r ≡ ok none
        → IsOwn st.heap j st.tasks r
        → AreOthers st.heap j st.tasks
    go none e own = own
    go (some p) e (stored, (t, h, mine)) =
        let named : name_at st.heap (some p) ≡ ok (some t.name) = rw (name_at, h) in absurd (cc)

module _ (st : State) (reg : IsRegistry st) (name : List ℕ) (p thread : ℕ)
    (fresh : st.heap p ≡ none) (new_thread : names st thread ≡ ok none) where
  abbrev pub task : Task
  task = record { thread = thread; name = name }

  abbrev pub after : State
  after = created st p task

  absent : IsAbsent p st.tasks
  absent = AreLive-IsAbsent st.heap p st.tasks fresh reg.valid.live

  others : AreOthers (put st.heap p (some task)) thread st.tasks
  others =
      put-AreOthers st.heap thread p (some task) st.tasks absent
        (unknown st thread reg.valid new_thread)

  pub after-IsRegistry : IsRegistry after
  after-IsRegistry = record {
    valid = stored-IsValid st reg.valid p task fresh;
    apart =
        AreApart-store (put st.heap p (some task)) p task st.tasks (put_same st.heap p (some task))
          others (put-AreApart st.heap p (some task) st.tasks absent reg.apart);
  }

  after-other : (j : ℕ) → (thread == j) ≡ false → names after j ≡ names st j
  after-other j other =
      let (r, came, own) = find-IsOwn st.heap j st.tasks reg.valid.live in
      let heap' = put st.heap p (some task) in
      let passed : find heap' j (store p st.tasks) ≡ ok r =
        find-store_other heap' j p task st.tasks (put_same st.heap p (some task)) other
          (put-AreLive st.heap p (some task) st.tasks absent reg.valid.live)
        ∙ find-put st.heap j p (some task) st.tasks absent reg.valid.live
        ∙ came in
      names_lem after j r passed
      ∙ name_at-put st.heap p (some task) r (found-ne st.heap j p st.tasks r absent own)
      ∙ sym (names_lem st j r came)

  pub after-found : has_room st.tasks ≡ true → get_self thread after ≡ ok (some p)
  unfolding get_self
  after-found room =
      find-store (put st.heap p (some task)) thread p task st.tasks (put_same st.heap p (some task))
        (==_refl thread) room others

  after_self : has_room st.tasks ≡ true → names after thread ≡ ok (some name)
  after_self room =
      get_name_own thread p task after (after-found room) (put_same st.heap p (some task))

  pub after-names :
      has_room st.tasks ≡ true
      → (j : ℕ) → names after j ≡ (if thread == j then ok (some name) else names st j)
  after-names room j = elim (Bool-cases (thread == j)) [
    | inl same ↦
        rw same
          (subst (λ i. names after i ≡ ok (some name)) ((==_iff thread j).0 same) (after_self room))
    | inr other ↦ rw other (after-other j other)
  ]

-- A new block that the table does not name yet changes nothing in the registry.
module _ (st : State) (reg : IsRegistry st) (p : ℕ) (b : Option Task)
    (fresh : st.heap p ≡ none) where
  abbrev pub aside : State
  aside = record st { heap = put st.heap p b }

  not_named : IsAbsent p st.tasks
  not_named = AreLive-IsAbsent st.heap p st.tasks fresh reg.valid.live

  pub aside-IsRegistry : IsRegistry aside
  aside-IsRegistry = record {
    valid = record {
      size = reg.valid.size;
      distinct = reg.valid.distinct;
      live = put-AreLive st.heap p b st.tasks not_named reg.valid.live;
    };
    apart = put-AreApart st.heap p b st.tasks not_named reg.apart;
  }

  pub aside-names : (j : ℕ) → names aside j ≡ names st j
  aside-names j =
      let (r, came, own) = find-IsOwn st.heap j st.tasks reg.valid.live in
      names_lem aside j r (find-put st.heap j p b st.tasks not_named reg.valid.live ∙ came)
      ∙ name_at-put st.heap p b r (found-ne st.heap j p st.tasks r not_named own)
      ∙ sym (names_lem st j r came)

-- On a valid table a thread without a name is not found.
pub unnamed : (st : State) (j : ℕ) → IsValid st → names st j ≡ ok none → get_self j st ≡ ok none
unfolding get_self
unnamed st j v e = find-AreOthers st.heap j st.tasks (unknown st j v e)
