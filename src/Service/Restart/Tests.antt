-- ===== src/Service/Restart/Tests.antt =====
-- Restarts of a service of core/service.c at concrete inputs.
use univr_info_workshop.Common.{◌≡◌, refl, true, false, none, some, [], ◌∷◌}
use univr_info_workshop.Service.{Service, ServiceState, start, stop}
use univr_info_workshop.Service.Restart.{
  System, starts, stops, leaves, Reach, here, later, HasOneTask, Reach-HasOneTask, two_tasks,
}

abbrev idle : Service
idle = record {
  task_priority = 3;
  task_stack_size = 2048;
  queue = none;
  task = none;
  timeout_ms = 500;
  state = ServiceState.stopped;
  termination_semaphore = none;
}

abbrev started : Service
started = record idle { queue = some 8; task = some 9; state = ServiceState.running }

-- The service was started, started once more while it runs, and stopped, and its task has left the loop.
abbrev stopped_again : System
stopped_again = record { service = record started { state = ServiceState.stopped }; tasks = [] }

once : Reach true (record { service = idle; tasks = [] }) stopped_again
unfolding start stop
once =
    later
      (later
        (later (later here (starts 8 9 (λ h k. refl) refl))
          (starts 10 11 (λ h k. absurd (cc)) refl))
        stops)
      (leaves [] [] 9 refl refl)

Reach-HasOneTask_example : HasOneTask stopped_again
Reach-HasOneTask_example = Reach-HasOneTask idle once

two_tasks_example :
    (u : System) × Reach false (record { service = idle; tasks = [] }) u
    × (u.tasks ≡ 11 ∷ 9 ∷ [])
    × (u.service.state ≡ ServiceState.running)
    × (u.service.queue ≡ some 10)
    × (u.service.task ≡ some 11)
two_tasks_example = two_tasks idle 8 9 10 11 refl
