-- ===== src/Esp32/Task/Starting.antt =====
-- Starting a service on the device.
use univr_info_workshop.Common.{
  ℕ, ◌≡◌, ◌≢◌, refl, ap, true, Option, none, some, List, ◌==◌, ◌!=◌, if◌then◌else◌, ok, abort,
  arith, inr,
}
use univr_info_workshop.Service.{
  Service, ServiceState, is_stopped, start, task_default_priority, task_default_stack_size,
}
use univr_info_workshop.Service.Lifecycle.{IsStarted, start-ok, start-IsStarted, start-abort}
use univr_info_workshop.Esp32.Task.{Tasks, pd_pass, create, start_service}

-- What xTaskCreate answers to the start of a service: it is asked for the priority and the stack of
-- the service, or for the defaults where these are 0.
abbrev pub answer :
    (f : Tasks) (main service : ℕ) (name : List ℕ) (s : Service) (st : f.State)
    → ℕ × Option ℕ × f.State
answer f main service name s st =
    f.create main name
      (if s.task_stack_size == 0 then task_default_stack_size else s.task_stack_size) service
      (if s.task_priority == 0 then task_default_priority else s.task_priority) st

-- Starting a stopped service on the device, on a queue: if FreeRTOS creates the task, the service is
-- started on that queue and that task; if it reports any failure, the program reboots, whatever
-- handle it stored.
pub start_service_lem :
    (f : Tasks) (main service : ℕ) (name : List ℕ) (queue : ℕ) (s : Service) (st : f.State)
    → s.state ≡ ServiceState.stopped
    → ((t : ℕ) (st' : f.State)
        → answer f main service name s st ≡ (pd_pass, some t, st')
        → (s' : Service) × (start_service f main service name (some queue) s st ≡ ok (s', st'))
          × IsStarted s'
          × (s'.queue ≡ some queue)
          × (s'.task ≡ some t))
      × ((answer f main service name s st).0 ≢ pd_pass
          → start_service f main service name (some queue) s st ≡ abort)
unfolding start_service create
start_service_lem f main service name queue s st stopped =
    let begins : is_stopped s.state ≡ true = ap is_stopped stopped in
    (
      (λ t st' created.
          let (s', e) = start-ok (some queue) (some t) s (λ h. cc) (λ h. cc) in
          let (started, same, on_queue, on_task) =
            start-IsStarted (some queue) (some t) s stopped e in
          (s', rw (begins, created, e) refl, started, on_queue, on_task)),
      λ failed.
          let refused : ((answer f main service name s st).0 != pd_pass) ≡ true = ground arith in
          let reboots : start (some queue) none s ≡ abort =
            (start-abort (some queue) none s).1 (stopped, inr refl) in
          rw (begins, refused, reboots) refl,
    )
