-- ===== src/Service/Termination.antt =====
-- The end of a service's task.
use univr_info_workshop.Common.{ℕ, ◌≡◌, ap, Bool, none, some, List, arith, if◌then◌else◌, ok, abort}
use univr_info_workshop.Error.{ErrorCode}
use univr_info_workshop.Service.{Service}
use univr_info_workshop.Service.Main.{
  Methods, Round, Progress, call_hook, give_semaphore, body, service_main,
}

-- A run of the task up to the end of its loop or of its `main`.
pub record Ends {W : Type 0} (m : Methods W) (s : Service) (w : W) (rounds : List Round)
    (s' : Service) (w' : W) : Type 0 where
  pub ready : Service
  pub world : W
  pub set_up : call_hook m.setup_hook s w ≡ ok (ready, world)
  pub ended : body m ready world rounds ≡ ok (Progress.returned s' w')

-- A service whose loop or `main` ends reboots the whole program if it has no termination semaphore:
-- the assertion of `Semaphore_Give` fails before the task and the queue are deleted.
pub service_main-abort :
    {W : Type 0} (m : Methods W) (give : ErrorCode) (delete_returns : Bool) (s : Service) (w : W)
    (rounds : List Round) {s' s'' : Service} {w' w'' : W}
    → Ends m s w rounds s' w'
    → call_hook m.teardown_hook s' w' ≡ ok (s'', w'')
    → s''.termination_semaphore ≡ none
    → service_main m give delete_returns s w rounds ≡ abort
unfolding service_main
service_main-abort m give delete_returns s w rounds ends torn none_there =
    let asserts = ap (λ o. give_semaphore o give) none_there in
    rw (ends.set_up, ends.ended, torn, asserts)

-- With a semaphore that can be given the task terminates. Its queue is then gone from the service
-- if `Task_Delete` of the running task returns, and is left behind if it does not.
pub service_main-terminated :
    {W : Type 0} (m : Methods W) (delete_returns : Bool) (s : Service) (w : W) (rounds : List Round)
    {s' s'' : Service} {w' w'' : W} {sem : ℕ}
    → Ends m s w rounds s' w'
    → call_hook m.teardown_hook s' w' ≡ ok (s'', w'')
    → s''.termination_semaphore ≡ some sem
    → (t : Service) × (service_main m ErrorCode.success delete_returns s w rounds
        ≡ ok (Progress.terminated t w''))
      × (t.state ≡ s''.state)
      × (t.queue ≡ (if delete_returns then none else s''.queue))
unfolding service_main
service_main-terminated m delete_returns s w rounds {s'' = s''} ends torn there = (
  if delete_returns then record s'' { queue = none } else s'',
  (let given = ap (λ o. give_semaphore o ErrorCode.success) there in
      rw (ends.set_up, ends.ended, torn, given)),
  ground arith,
  ground arith,
)
