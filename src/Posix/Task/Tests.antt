-- ===== src/Posix/Task/Tests.antt =====
-- The tasks of task.c at concrete inputs.
use univr_info_workshop.Common.{
  put, put_other, ℕ, zero, suc, ◌≤◌, ◌≡◌, ◌∙◌, refl, true, none, some, List, [], ◌∷◌, arith, ok,
  fault,
}
use univr_info_workshop.Posix.Task.{
  Task, State, initial, store, create, delete, get_self, get_name, find,
}
use univr_info_workshop.Posix.Task.Safety.{IsValid, Step, Step-IsValid}
use univr_info_workshop.Posix.Task.Self.{has_room, get_self-AreOthers}
use univr_info_workshop.Posix.Task.Life.{created, create_full}

-- `CORE`.
abbrev core_name : List ℕ
core_name = 67 ∷ 79 ∷ 82 ∷ 69 ∷ []

abbrev core_task : ℕ → Task
core_task thread = record { thread = thread; name = core_name }

-- The first `n` tasks, each with the address of its block as its thread.
abbrev many : ℕ → State
many zero = initial
many (suc n) = created (many n) n (core_task n)

many-fresh : (n q : ℕ) → n ≤ q → (many n).heap q ≡ none
many-fresh zero q h = refl
many-fresh (suc n) q h =
    put_other (many n).heap n (some (core_task n)) q (λ e. omega arith)
    ∙ many-fresh n q (omega arith)

initial-IsValid : IsValid initial
initial-IsValid = record { size = refl; distinct = tt; live = tt }

many-Step : (n : ℕ) → Step (many n) (many (suc n))
unfolding create
many-Step n =
    Step.creates true (some core_name) n (some n) (some n) (many-fresh n n (omega arith)) refl

many-IsValid : (n : ℕ) → IsValid (many n)
many-IsValid zero = initial-IsValid
many-IsValid (suc n) = Step-IsValid (many n) (many (suc n)) (many-IsValid n) (many-Step n)

many-unknown : get_self 99 (many 32) ≡ ok none
unfolding get_self find store
many-unknown = refl

Step-IsValid_example : IsValid (many 3)
Step-IsValid_example = Step-IsValid (many 2) (many 3) (many-IsValid 2) (many-Step 2)

deleted :
    delete 0 (some 1) (many 2)
    ≡ ok (some 1, record { heap = put (many 2).heap 1 none; tasks = (many 1).tasks })
unfolding delete store
deleted = refl

-- A second deletion reads the freed block.
deleted_again :
    delete 0 (some 1) (record { heap = put (many 2).heap 1 none; tasks = (many 1).tasks }) ≡ fault
unfolding delete
deleted_again = refl

create_full_example :
    (running : State) × (create true (some core_name) (some 32) (some 99) (many 32)
      ≡ ok (some 32, running))
    × (get_self 99 running ≡ ok none)
    × (get_name 99 none running ≡ ok none)
    × (delete 99 none running ≡ ok (none, running))
unfolding has_room store
create_full_example =
    create_full core_name 32 99 (many 32) (omega arith) (many-IsValid 32)
      (many-fresh 32 32 (omega arith))
      (get_self-AreOthers 99 (many 32) (many-IsValid 32) many-unknown) refl
