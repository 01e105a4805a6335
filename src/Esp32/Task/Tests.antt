-- ===== src/Esp32/Task/Tests.antt =====
-- The device's tasks at concrete inputs.
use univr_info_workshop.Common.{◌≡◌, refl, none, some, [], ◌∷◌}
use univr_info_workshop.Service.{Service, ServiceState}
use univr_info_workshop.Esp32.Task.{pd_pass}
use univr_info_workshop.Esp32.Task.Sample.{two_fit}
use univr_info_workshop.Esp32.Task.Starting.{answer}

abbrev idle : Service
idle = record {
  task_priority = 0;
  task_stack_size = 2048;
  queue = none;
  task = none;
  timeout_ms = 500;
  state = ServiceState.stopped;
  termination_semaphore = none;
}

-- The second task is created; a third is not.
second : answer two_fit 7 9 (104 ∷ []) idle 1 ≡ (pd_pass, some 41, 2)
second = refl

third : answer two_fit 7 9 (104 ∷ []) idle 2 ≡ (0, none, 2)
third = refl
