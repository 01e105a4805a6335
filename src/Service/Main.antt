-- ===== src/Service/Main.antt =====
-- `Service_Main` of main/src/core/service.c: the body of a service's task. The rounds are what the
-- rest of the world does at each turn of the event loop.
use univr_info_workshop.Common.{
  ℕ, Bool, Option, none, some, List, [], ◌∷◌, if◌then◌else◌, Outcome, ok, abort, ◌>>=◌,
}
use univr_info_workshop.Error.{ErrorCode, is_success}
use univr_info_workshop.Service.{Service, ServiceEvent, is_running, stop, event_timeout}

-- `ServiceMethod` and `ServiceEventHandler`. A method may change the service and the rest of the
-- program, and may stop the program.
abbrev pub ServiceMethod : Type 0 → Type 0
ServiceMethod W = Service → W → Outcome (Service × W)

-- The methods of `struct Service`. A `main` that does not return gives `none`.
pub record Methods (W : Type 0) : Type 0 where
  pub setup_hook : Option (ServiceMethod W)
  pub teardown_hook : Option (ServiceMethod W)
  pub main : Option (Service → W → Outcome (Option (Service × W)))
  pub handler : Option (Service → (event payload : ℕ) → W → Outcome (Service × W))

-- What happens at one turn of the loop: whether another task stops the service before the test of
-- its state, and the event that `Queue_Receive` hands out, if it succeeds.
pub record Round : Type 0 where
  pub stops : Bool
  pub received : Option ServiceEvent

-- How far the task has come. `returned` is the end of the loop or of `main`.
pub data Progress (W : Type 0) : Type 0 where
  busy : Service → W → Progress W
  returned : Service → W → Progress W
  terminated : Service → W → Progress W

-- The event that the handler sees: a receive that fails leaves the timeout event in place.
abbrev pub event_of : Option ServiceEvent → ServiceEvent
event_of none = record { event = event_timeout; payload = 0 }
event_of (some e) = e

abbrev pub after_stop : Round → Service → Service
after_stop r s = if r.stops then stop s else s

-- Line 48: `Semaphore_Give` asserts that its argument is not NULL, and any result but SUCCESS reboots
-- the program; `give` is that result.
abbrev pub give_semaphore : Option ℕ → (give : ErrorCode) → Outcome (Unit {0})
give_semaphore none give = abort
give_semaphore (some sem) give = if is_success give then ok tt else abort

module _ {W : Type 0} where
  abbrev pub call_hook : Option (ServiceMethod W) → ServiceMethod W
  call_hook none s w = ok (s, w)
  call_hook (some hook) s w = hook s w

  abbrev pub call_handler :
      Option (Service → (event payload : ℕ) → W → Outcome (Service × W))
      → ServiceEvent
      → ServiceMethod W
  call_handler none e s w = ok (s, w)
  call_handler (some handler) e s w = handler s e.event e.payload w

  -- The event loop, lines 29 to 38.
  unfoldable pub loop : Methods W → Service → W → List Round → Outcome (Progress W)
  loop m s w [] = ok (Progress.busy s w)
  loop m s w (r ∷ rs) =
      if is_running (after_stop r s).state
      then (do
        (s', w') ← call_handler m.handler (event_of r.received) (after_stop r s) w
        loop m s' w' rs)
      else ok (Progress.returned (after_stop r s) w)

  -- Lines 22 to 39: `main` if there is one, else the event loop.
  unfoldable pub body : Methods W → Service → W → List Round → Outcome (Progress W)
  unfolding loop
  body m s w rounds = elim m.main [
    | none ↦ loop m s w rounds
    | some main ↦ do
      result ← main s w
      ok (elim result [ none ↦ Progress.busy s w | some (s', w') ↦ Progress.returned s' w' ])
  ]

  -- Lines 41 to 54. `delete_returns` says whether `Task_Delete` of the running task comes back, as it does on POSIX
  -- and does not under FreeRTOS.
  unfoldable pub finish :
      Methods W → (give : ErrorCode) (delete_returns : Bool) → Service → W → Outcome (Progress W)
  finish m give delete_returns s w = do
    (s', w') ← call_hook m.teardown_hook s w
    done ← give_semaphore s'.termination_semaphore give
    ok (Progress.terminated (if delete_returns then record s' { queue = none } else s') w')

  unfoldable pub service_main :
      Methods W
      → (give : ErrorCode) (delete_returns : Bool) → Service
      → W
      → List Round
      → Outcome (Progress W)
  unfolding body finish
  service_main m give delete_returns s w rounds = do
    (s₁, w₁) ← call_hook m.setup_hook s w
    p ← body m s₁ w₁ rounds
    elim p [
      | Progress.returned s₂ w₂ ↦ finish m give delete_returns s₂ w₂
      | Progress.busy s₂ w₂ ↦ ok (Progress.busy s₂ w₂)
      | Progress.terminated s₂ w₂ ↦ ok (Progress.terminated s₂ w₂)
    ]
