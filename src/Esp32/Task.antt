-- ===== src/Esp32/Task.antt =====
-- main/src/adapter/esp32/task.c: the device's tasks, a wrapper of the tasks of FreeRTOS, which are a
-- parameter. A handle is an address, NULL is `none`.
pub mod Starting
pub mod Sample
mod Tests
use univr_info_workshop.Common.{
  ℕ, Bool, true, false, Option, none, some, List, ◌==◌, ◌!=◌, if◌then◌else◌, Outcome, ok, abort,
  ◌>>=◌,
}
use univr_info_workshop.Error.{ErrorCode}
use univr_info_workshop.Service.{
  Service, is_stopped, start, task_default_priority, task_default_stack_size,
}

-- `pdPASS`.
abbrev pub pd_pass : ℕ
pd_pass = 1

-- The tasks of FreeRTOS, and the calls that the adapter makes. `create` answers a status and the
-- handle that it stores; `current` is the task that runs.
pub record Tasks : Type 1 where
  pub State : Type 0
  pub create :
      (entry : ℕ) (name : List ℕ) (stack_size : ℕ) (arg priority : ℕ) → State → ℕ × Option ℕ × State
  pub delete : Option ℕ → State → State
  pub delay : (ticks : ℕ) → State → State
  pub ms_to_ticks : ℕ → ℕ
  pub current : State → Option ℕ
  pub name_of : Option ℕ → State → Option (List ℕ)
  pub set_priority : Option ℕ → ℕ → State → State

module _ (f : Tasks) where
  -- `Task_Create`.
  pub create :
      (entry : Option ℕ) (name : Option (List ℕ)) (priority stack_size arg : ℕ)
      → f.State
      → Outcome (Option ℕ × f.State)
  create none name priority stack_size arg st = abort
  create (some entry) none priority stack_size arg st = abort
  create (some entry) (some name) priority stack_size arg st =
      let (status, result, st') = f.create entry name stack_size arg priority st in
      if status != pd_pass then ok (none, st') else ok (result, st')

  -- `Task_Delete`, `Task_SleepMs`, `Task_GetSelf` and `Task_GetName`.
  pub delete : Option ℕ → f.State → f.State
  delete task st = f.delete task st

  pub sleep_ms : (time : ℕ) → f.State → f.State
  sleep_ms time st = f.delay (f.ms_to_ticks time) st

  pub get_self : f.State → Option ℕ
  get_self st = f.current st

  pub get_name : Option ℕ → f.State → Option (List ℕ)
  get_name task st = f.name_of task st

  -- `Task_SetPriority`.
  pub set_priority : Option ℕ → (priority : ℕ) → f.State → ErrorCode × f.State
  set_priority task priority st = (ErrorCode.success, f.set_priority task priority st)

  -- `Service_Start` on the device, on the queue that `Queue_New` returned: `main` is the address of
  -- Service_Main, and `service` that of the service.
  unfoldable pub start_service :
      (main service : ℕ) (name : List ℕ) (queue : Option ℕ)
      → Service
      → f.State
      → Outcome (Service × f.State)
  unfolding create
  start_service main service name none s st = if is_stopped s.state then abort else ok (s, st)
  start_service main service name (some queue) s st =
      if is_stopped s.state
      then (do
        (task, st') ←
            create (some main) (some name)
              (if s.task_priority == 0 then task_default_priority else s.task_priority)
              (if s.task_stack_size == 0 then task_default_stack_size else s.task_stack_size)
              service st
        s' ← start (some queue) task s
        ok (s', st'))
      else ok (s, st)
