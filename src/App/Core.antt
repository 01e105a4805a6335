-- ===== src/App/Core.antt =====
-- The core service as a task: Core_Init and Core_HandleEvent of main/src/core/service_core.c, run by
-- `Service_Main` of main/src/core/service.c.
use univr_info_workshop.Common.{
  ℕ, ◌≡◌, refl, ap, ◌∙◌, Bool, true, false, Option, none, some, List, [], ◌∷◌, if◌then◌else◌,
  Bool-cases, inl, inr, ok, abort, ◌>>=◌, >>=_cong, sym,
}
use univr_info_workshop.Error.{ErrorCode}
use univr_info_workshop.Service.{Service, is_running, ServiceState, stop}
use univr_info_workshop.Service.Lifecycle.{IsStarted, stop_lem}
use univr_info_workshop.Service.Main.{
  Methods, Round, Progress, event_of, give_semaphore, loop, service_main,
}
use univr_info_workshop.Service.Loop.{event_of_lem, events_before_stop, any_stops}
use univr_info_workshop.Esp32.Wifi.Station.{StaConfig, wifi_init, core_init, core_init_returns}
use univr_info_workshop.App.{Resources, handle_event, handle_events}
use univr_info_workshop.App.Startup.{AreGiven, got_ip, handle_events-console}

-- What ESP-IDF answers to `WiFi_Init` and `WiFi_StartSta`, and the configured names.
pub record Radio : Type 0 where
  pub nvs : ErrorCode
  pub event_loop : ErrorCode
  pub wifi_handler : ErrorCode
  pub ip_handler : ErrorCode
  pub netif : Bool
  pub wifi : Bool
  pub set_mode : ErrorCode
  pub set_config : ErrorCode
  pub start : ErrorCode
  pub ssid : List ℕ
  pub password : List ℕ

-- What the core service changes: the service of the remote console, and the configuration of the station.
pub record World : Type 0 where
  pub console : Service
  pub config : Option StaConfig

-- The methods of SERVICE_CORE.
pub core_methods : Radio → Resources → Methods World
core_methods radio r = record {
  setup_hook = some (λ s w. do
    config ←
        core_init
          (wifi_init radio.nvs radio.event_loop radio.wifi_handler radio.ip_handler radio.netif
            radio.wifi)
          radio.set_mode radio.set_config radio.start radio.ssid radio.password
    ok (s, record w { config = config }));
  teardown_hook = none;
  main = none;
  handler = some (λ s event payload w. do
    console ← handle_event r event payload w.console
    ok (s, record w { console = console }));
}

-- The event loop over the events of the rounds before a stop.
loop-handle_events :
    (radio : Radio) (r : Resources) (s : Service) (w : World) (rounds : List Round)
    → s.state ≡ ServiceState.running
    → loop (core_methods radio r) s w rounds ≡ (do
      console ← handle_events r w.console (events_before_stop rounds)
      let w' = record w { console = console }
      ok (if any_stops rounds then Progress.returned (stop s) w' else Progress.busy s w'))
unfolding loop core_methods handle_events events_before_stop any_stops
loop-handle_events radio r s w [] running = refl
loop-handle_events radio r s w (round ∷ rounds) running = elim (Bool-cases round.stops) [
  | inl stops ↦ rw (stops, (stop_lem s).0) refl
  | inr goes ↦
      let runs : is_running s.state ≡ true = ap is_running running in
      rw (goes, runs, sym (event_of_lem round.received))
        (>>=_cong
          (handle_event r (event_of round.received).event (event_of round.received).payload
            w.console)
          _ _ _ _
          (λ console. loop-handle_events radio r s (record w { console = console }) rounds running))
]

-- The core service as a task, with any error codes from the radio as long as ESP_ERROR_CHECK does not stop the
-- program, with a queue and a task at hand for a remote console that is stopped: until the core
-- service is stopped, the console is left as it is while no event that reaches the service reports an
-- address, and is started when one does, whatever other events and timeouts come. When the core service is
-- stopped while it has no termination semaphore, as `SERVICE_CORE` never has, the whole program reboots.
pub service_main-console :
    (radio : Radio) (r : Resources) (give : ErrorCode) (delete_returns : Bool) (s : Service)
    (w : World) (rounds : List Round)
    → radio.netif ≡ true
    → radio.wifi ≡ true
    → AreGiven r
    → s.state ≡ ServiceState.running
    → s.termination_semaphore ≡ none
    → w.console.state ≡ ServiceState.stopped
    → (any_stops rounds ≡ false
        → (w' : World) × (service_main (core_methods radio r) give delete_returns s w rounds
            ≡ ok (Progress.busy s w'))
          × (got_ip (events_before_stop rounds) ≡ false → w'.console ≡ w.console)
          × (got_ip (events_before_stop rounds) ≡ true → IsStarted w'.console))
      × (any_stops rounds ≡ true
          → service_main (core_methods radio r) give delete_returns s w rounds ≡ abort)
unfolding service_main core_methods
service_main-console radio r give delete_returns s w rounds up on given running alone stopped =
    let (config, init) =
      core_init_returns radio.nvs radio.event_loop radio.wifi_handler radio.ip_handler
        radio.set_mode radio.set_config radio.start radio.ssid radio.password up on in
    let ready : World = record w { config = config } in
    let (t, handled, without, with_address) =
      handle_events-console r w.console (events_before_stop rounds) given stopped in
    let looped = loop-handle_events radio r s ready rounds running in
    let unset : (stop s).termination_semaphore ≡ none = (stop_lem s).1.semaphore ∙ alone in
    (
      λ goes. (
        record ready { console = t },
        rw (init, looped, handled, goes) refl,
        without,
        λ h. (with_address h).0,
      ),
      λ stops. rw (init, looped, handled, stops, ap (λ o. give_semaphore o give) unset) refl,
    )
