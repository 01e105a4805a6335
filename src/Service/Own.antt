-- ===== src/Service/Own.antt =====
-- A service with a `main` of its own in place of the event loop.
use univr_info_workshop.Common.{◌≡◌, refl, Bool, Option, none, some, List, Outcome, ok, abort}
use univr_info_workshop.Error.{ErrorCode}
use univr_info_workshop.Service.{Service}
use univr_info_workshop.Service.Main.{Methods, Round, Progress, body, finish, service_main}

-- A task without hooks and without a semaphore: stopping the service, or sending it events, changes nothing,
-- and when `main` returns the program is rebooted.
pub service_main-own :
    {W : Type 0} (m : Methods W) (give : ErrorCode) (delete_returns : Bool) (s : Service) (w : W)
    (rounds : List Round) (main : Service → W → Outcome (Option (Service × W))) (result : Option W)
    → m.setup_hook ≡ none
    → m.teardown_hook ≡ none
    → m.main ≡ some main
    → main s w ≡ ok (elim result [ none ↦ none | some w' ↦ some (s, w') ])
    → s.termination_semaphore ≡ none
    → service_main m give delete_returns s w rounds
      ≡ elim result [ none ↦ ok (Progress.busy s w) | some w' ↦ abort ]
unfolding service_main body finish
service_main-own m give delete_returns s w rounds main none sets tears has answers alone =
    rw (sets, has, answers) refl
service_main-own m give delete_returns s w rounds main (some w') sets tears has answers alone =
    rw (sets, has, answers, tears, alone) refl
