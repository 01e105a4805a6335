-- ===== src/Service/Lifecycle.antt =====
-- Starting and stopping a service: every branch of `Service_Start` and `Service_Stop`.
use univr_info_workshop.Common.{
  ℕ, ◌<◌, ◌≡◌, ◌≢◌, ◌↔◌, ◌⊎◌, refl, Bool, true, false, Option, none, some, arith, if◌then◌else◌, ok,
  abort,
}
use univr_info_workshop.Service.{Service, ServiceState, start, stop, is_stopped}

-- A service whose task runs: it has a queue, a task, a stack and a priority.
pub record IsStarted (s : Service) : Type 0 where
  pub state : s.state ≡ ServiceState.running
  pub queue : s.queue ≢ none
  pub task : s.task ≢ none
  pub stack : 0 < s.task_stack_size
  pub priority : 0 < s.task_priority

-- The fields of a service that neither a start nor a stop changes.
pub record SameSettings (s t : Service) : Type 0 where
  pub timeout : t.timeout_ms ≡ s.timeout_ms
  pub semaphore : t.termination_semaphore ≡ s.termination_semaphore
  pub stack : s.task_stack_size ≢ 0 → t.task_stack_size ≡ s.task_stack_size
  pub priority : s.task_priority ≢ 0 → t.task_priority ≡ s.task_priority

-- A start of a stopped service that does not reboot the program leaves it started, on the queue and
-- the task that were made for it, and keeps its settings.
pub start-IsStarted :
    (new_queue new_task : Option ℕ) (s : Service) {t : Service}
    → s.state ≡ ServiceState.stopped
    → start new_queue new_task s ≡ ok t
    → IsStarted t × SameSettings s t × (t.queue ≡ new_queue) × (t.task ≡ new_task)
unfolding start
start-IsStarted none new_task s e h = ground arith
start-IsStarted (some q) none s e h = ground arith
start-IsStarted (some q) (some t) s e h = ground arith

-- The program reboots exactly when a stopped service gets no queue or no task.
pub start-abort :
    (new_queue new_task : Option ℕ) (s : Service)
    → (start new_queue new_task s ≡ abort)
      ↔ ((s.state ≡ ServiceState.stopped) × ((new_queue ≡ none) ⊎ (new_task ≡ none)))
unfolding start
start-abort none new_task s = (ground arith, ground arith)
start-abort (some q) none s = (ground arith, ground arith)
start-abort (some q) (some t) s = (ground arith, ground arith)

-- A second start changes nothing, whatever queue and task could be had.
pub start-start :
    (new_queue new_task other_queue other_task : Option ℕ) (s : Service) {t : Service}
    → start new_queue new_task s ≡ ok t
    → start other_queue other_task t ≡ ok t
unfolding start
start-start none new_task other_queue other_task s h = ground arith
start-start (some q) none other_queue other_task s h = ground arith
start-start (some q) (some t) other_queue other_task s h = ground arith

-- A stop leaves the service stopped, with its queue, its task and its settings; a second stop
-- changes nothing.
pub stop_lem :
    (s : Service)
    → ((stop s).state ≡ ServiceState.stopped)
      × SameSettings s (stop s)
      × ((stop s).queue ≡ s.queue)
      × ((stop s).task ≡ s.task)
      × (stop (stop s) ≡ stop s)
unfolding stop
stop_lem s = ground arith

either_ok : (b : Bool) (s t : Service) → (u : Service) × ((if b then ok s else ok t) ≡ ok u)
either_ok true s t = (s, refl)
either_ok false s t = (t, refl)

-- With a queue and a task at hand a stopped service can be started.
pub start-ok :
    (new_queue new_task : Option ℕ) (s : Service)
    → new_queue ≢ none
    → new_task ≢ none
    → (t : Service) × (start new_queue new_task s ≡ ok t)
unfolding start
start-ok none new_task s h k = absurd (h refl)
start-ok (some q) none s h k = absurd (k refl)
start-ok (some q) (some t) s h k = either_ok (is_stopped s.state) _ _
