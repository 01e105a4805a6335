-- ===== src/App/Tests.antt =====
-- The program's services at concrete inputs.
use univr_info_workshop.App.Device.{
  Place, Gives, Refuses, no_queue, RunsOn, app_main_on_device, app_main_on_device_lem,
}
use univr_info_workshop.Esp32.Queue.{Freertos}
use univr_info_workshop.Hmi.{service_hmi}
use univr_info_workshop.Esp32.Queue.Sample.{rtos}
use univr_info_workshop.Esp32.Task.Sample.{fit}
use univr_info_workshop.App.{service_core}
use univr_info_workshop.App.Core.{Radio, World, core_methods}
use univr_info_workshop.App.Radio.{turns, handle_all-service_main}
use univr_info_workshop.Common.{
  ℕ, arith, none, ◌≡◌, refl, true, false, some, List, [], ◌∷◌, ok, abort, ◌==◌, if◌then◌else◌,
  codes,
}
use univr_info_workshop.Error.{ErrorCode}
use univr_info_workshop.Service.{Service, ServiceState, ServiceEvent, stop}
use univr_info_workshop.Service.Main.{Progress, service_main}
use univr_info_workshop.App.RemoteConsole.{Network, is_reliable, console_methods, console_task_lem}
use univr_info_workshop.Service.Lifecycle.{IsStarted}
use univr_info_workshop.App.{Resources, start_with, service_network_console}
use univr_info_workshop.Esp32.Wifi.{Context, Incoming, Action, initial, handle_all}
use univr_info_workshop.App.Network.{sent_events, has_address}
use univr_info_workshop.Posix.Task.{State, get_self, get_name}
use univr_info_workshop.Posix.Task as Tasks
use univr_info_workshop.Posix.Task.Safety.{IsValid}
use univr_info_workshop.App.Emulator.{Grant, Running, Runs, emulator_on_pc, emulator_on_pc_lem}
use univr_info_workshop.Posix.Task.Registry.{IsRegistry}
use univr_info_workshop.Posix.Task.Registry.Names.{names}
use univr_info_workshop.App.Startup.{AreGiven}

abbrev plenty : Resources
plenty = record { new_queue = some 16; new_task = some 17 }

plenty-AreGiven : AreGiven plenty
plenty-AreGiven = record { queue = λ e. cc; task = λ e. cc }

-- A timeout, the loss of an address, and an address.
abbrev events : List ServiceEvent
events =
    record { event = 0xafaf; payload = 0 }
    ∷ record { event = 0x102; payload = 0 }
    ∷ record { event = 0x101; payload = 0 }
    ∷ []

-- The station starts, fails twice, connects and gets an address.
abbrev incoming : List Incoming
incoming =
    Incoming.sta_start ∷ Incoming.sta_disconnected ∷ Incoming.sta_disconnected
    ∷ Incoming.sta_connected ∷ Incoming.sta_got_ip ∷ []

-- "HMI".
abbrev hmi_name : List ℕ
hmi_name = 72 ∷ 77 ∷ 73 ∷ []

no_tasks-IsValid : IsValid Tasks.initial
no_tasks-IsValid = record { size = refl; distinct = tt; live = tt }

abbrev core_grant : Grant
core_grant = record { queue = 16; block = 17; thread = 18 }

abbrev hmi_grant : Grant
hmi_grant = record { queue = 32; block = 33; thread = 34 }

abbrev console_grant : Grant
console_grant = record { queue = 48; block = 49; thread = 50 }

emulator_on_pc_lem_example :
    (core hmi console : Running) × (st : State) × (emulator_on_pc core_grant hmi_grant console_grant
        Tasks.initial
      ≡ ok ((core, hmi, console), st))
    × Runs core core_grant
    × Runs hmi hmi_grant
    × Runs console console_grant
    × IsRegistry st
    × ((j : ℕ)
        → names st j ≡ (
            if 50 == j
            then ok (some (codes "TEL"))
            else if 34 == j
            then ok (some (codes "HMI"))
            else if 18 == j
            then ok (some (codes "CORE"))
            else ok none))
emulator_on_pc_lem_example =
    emulator_on_pc_lem core_grant hmi_grant console_grant (λ e. absurd (omega (arith, e)))
      (λ e. absurd (omega (arith, e))) (λ e. absurd (omega (arith, e)))
      (λ e. absurd (omega (arith, e))) (λ e. absurd (omega (arith, e)))
      (λ e. absurd (omega (arith, e)))

-- The port is taken.
abbrev no_port : Network
no_port = record { socket = true; bind = false; listen = true; clients = [] }

console_task_lem_example :
    (s : Service) × (start_with plenty service_network_console ≡ ok s)
    × (service_main (console_methods (codes "1.0.0") no_port) ErrorCode.success true s [] []
        ≡ (if is_reliable no_port then ok (Progress.busy s []) else abort))
    × (service_main (console_methods (codes "1.0.0") no_port) ErrorCode.success true (stop s) [] []
        ≡ (if is_reliable no_port then ok (Progress.busy (stop s) []) else abort))
console_task_lem_example =
    console_task_lem (codes "1.0.0") no_port plenty ErrorCode.success true [] (omega arith)
      plenty-AreGiven

-- The event loop was there before, which `Core_Init` does not look at.
abbrev radio : Radio
radio = record {
  nvs = ErrorCode.success;
  event_loop = ErrorCode.failure;
  wifi_handler = ErrorCode.success;
  ip_handler = ErrorCode.success;
  netif = true;
  wifi = true;
  set_mode = ErrorCode.success;
  set_config = ErrorCode.success;
  start = ErrorCode.success;
  ssid = codes "net";
  password = codes "secret";
}

abbrev running_core : Service
running_core = record service_core { state = ServiceState.running; queue = some 16; task = some 17 }

abbrev at_start : World
at_start = record { console = service_network_console; config = none }

handle_all-service_main_example :
    (out : Context × List Action) × (handle_all initial incoming ≡ ok out)
    × ((w' : World) × (service_main
            (core_methods radio plenty)
            ErrorCode.success
            true
            running_core
            at_start
            (turns (true ∷ false ∷ true ∷ []) (sent_events out.1))
          ≡ ok (Progress.busy running_core w'))
        × (has_address incoming ≡ false → w'.console ≡ service_network_console)
        × (has_address incoming ≡ true → IsStarted w'.console))
handle_all-service_main_example =
    handle_all-service_main initial incoming radio plenty ErrorCode.success true running_core
      at_start (true ∷ false ∷ true ∷ []) refl refl plenty-AreGiven refl refl refl

abbrev core_place : Place
core_place = record { main = 7; service = 8 }

abbrev hmi_place : Place
hmi_place = record { main = 7; service = 9 }

-- Memory for two queues and two tasks.
abbrev for_four : Freertos ServiceEvent ℕ
for_four = rtos 4

abbrev no_events : for_four.Handle
no_events = (20, [])

app_main_on_device_lem_example :
    (Gives (fit 4) for_four core_place (codes "CORE") service_core 0 40 no_events 41 2
      → Gives (fit 4) for_four hmi_place (codes "HMI") service_hmi 2 42 no_events 43 4
      → (core hmi : Service) × (app_main_on_device (fit 4) for_four core_place hmi_place 0
          ≡ ok (((core, some (40, no_events)), (hmi, some (42, no_events))), 4))
        × RunsOn (fit 4) for_four core 40 no_events 41
        × RunsOn (fit 4) for_four hmi 42 no_events 43)
    × (Refuses (fit 4) for_four core_place (codes "CORE") service_core 0
        → app_main_on_device (fit 4) for_four core_place hmi_place 0 ≡ abort)
    × (Gives (fit 4) for_four core_place (codes "CORE") service_core 0 40 no_events 41 2
        → Refuses (fit 4) for_four hmi_place (codes "HMI") service_hmi 2
        → app_main_on_device (fit 4) for_four core_place hmi_place 0 ≡ abort)
app_main_on_device_lem_example =
    app_main_on_device_lem (fit 4) for_four core_place hmi_place 0 2 4 40 42 no_events no_events 41
      43

-- FreeRTOS gives all four; with memory for two objects it refuses the queue of the HMI.
four_given :
    Gives (fit 4) for_four core_place (codes "CORE") service_core 0 40 no_events 41 2
    × Gives (fit 4) for_four hmi_place (codes "HMI") service_hmi 2 42 no_events 43 4
four_given = (
  record { between = 1; queue = refl; new_task = refl },
  record { between = 3; queue = refl; new_task = refl },
)

two_given :
    Gives (fit 2) (rtos 2) core_place (codes "CORE") service_core 0 40 (20, []) 41 2
    × Refuses (fit 2) (rtos 2) hmi_place (codes "HMI") service_hmi 2
two_given = (record { between = 1; queue = refl; new_task = refl }, no_queue refl)

reboots : app_main_on_device (fit 2) (rtos 2) core_place hmi_place 0 ≡ abort
reboots =
    (app_main_on_device_lem (fit 2) (rtos 2) core_place hmi_place 0 2 2 40 42 (20, []) (20, []) 41
        43).2
      two_given.0 two_given.1
