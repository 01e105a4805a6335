-- ===== src/App.antt =====
-- main/main.c, emulator/main.c and main/src/core/service_core.c: the services of the program, how
-- they are started, and the core service, which starts the remote console once there is a network.
pub mod Startup
pub mod OnPc
pub mod Emulator
pub mod Core
pub mod Handover
pub mod Device
pub mod Radio
pub mod Network
pub mod RemoteConsole
mod Tests
use univr_info_workshop.Common.{
  ℕ, Option, none, some, List, [], ◌∷◌, ◌==◌, if◌then◌else◌, Outcome, ok, ◌>>=◌,
}
use univr_info_workshop.Wifi.{WifiEvent, event_code}
use univr_info_workshop.Service.{Service, ServiceState, ServiceEvent, start}
use univr_info_workshop.Hmi.{service_hmi}

-- `SERVICE_CORE`.
abbrev pub service_core : Service
service_core = record {
  task_priority = 0;
  task_stack_size = 4096;
  queue = none;
  task = none;
  timeout_ms = 500;
  state = ServiceState.stopped;
  termination_semaphore = none;
}

-- `SERVICE_NETWORK_CONSOLE`.
abbrev pub service_network_console : Service
service_network_console = record {
  task_priority = 0;
  task_stack_size = 4096;
  queue = none;
  task = none;
  timeout_ms = 0;
  state = ServiceState.stopped;
  termination_semaphore = none;
}

-- What `Queue_New` and `Task_Create` return for one service.
pub record Resources : Type 0 where
  pub new_queue : Option ℕ
  pub new_task : Option ℕ

abbrev pub start_with : Resources → Service → Outcome Service
start_with r s = start r.new_queue r.new_task s

-- `Core_HandleEvent`, on the service of the network console.
pub handle_event : Resources → (event payload : ℕ) → Service → Outcome Service
handle_event r event payload console =
    if event == event_code WifiEvent.sta_got_ip then start_with r console else ok console

-- The core service's events one after the other; what a start gets does not matter after the first.
pub handle_events : Resources → Service → List ServiceEvent → Outcome Service
unfolding handle_event
handle_events r console [] = ok console
handle_events r console (e ∷ es) = do
  console' ← handle_event r e.event e.payload console
  handle_events r console' es

-- The services of the program.
pub record Services : Type 0 where
  pub core : Service
  pub hmi : Service
  pub network_console : Service

-- `app_main` of main/main.c up to its endless loop, on the services as they are defined.
pub app_main : (for_core for_hmi : Resources) → Outcome Services
app_main for_core for_hmi = do
  core ← start_with for_core service_core
  hmi ← start_with for_hmi service_hmi
  ok (record { core = core; hmi = hmi; network_console = service_network_console })

-- `main` of emulator/main.c up to its endless loop.
pub emulator_main : (for_core for_hmi for_console : Resources) → Outcome Services
emulator_main for_core for_hmi for_console = do
  core ← start_with for_core service_core
  hmi ← start_with for_hmi service_hmi
  console ← start_with for_console service_network_console
  ok (record { core = core; hmi = hmi; network_console = console })
