-- ===== src/App/Startup.antt =====
-- When the services run: after the start of the program, and after the core service's events.
use univr_info_workshop.Common.{
  ◌≡◌, ◌≢◌, refl, Bool, true, false, none, List, [], ◌∷◌, ◌==◌, if◌then◌else◌, Bool-cases, inl, inr,
  ok,
}
use univr_info_workshop.Wifi.{WifiEvent, event_code}
use univr_info_workshop.Service.{Service, ServiceState, ServiceEvent}
use univr_info_workshop.Service.Lifecycle.{IsStarted, start-IsStarted, start-start, start-ok}
use univr_info_workshop.Hmi.{service_hmi}
use univr_info_workshop.App.{
  Resources, Services, start_with, handle_event, handle_events, app_main, emulator_main,
  service_core, service_network_console,
}

-- A queue and a task could be had.
pub record AreGiven (r : Resources) : Type 0 where
  pub queue : r.new_queue ≢ none
  pub task : r.new_task ≢ none

-- Whether the Wi-Fi driver reports an address among the events.
unfoldable pub got_ip : List ServiceEvent → Bool
got_ip [] = false
got_ip (e ∷ es) = if e.event == event_code WifiEvent.sta_got_ip then true else got_ip es

start_with-IsStarted :
    (r : Resources) (s : Service)
    → AreGiven r
    → s.state ≡ ServiceState.stopped
    → (t : Service) × (start_with r s ≡ ok t) × IsStarted t
start_with-IsStarted r s given stopped =
    let (t, e) = start-ok r.new_queue r.new_task s given.queue given.task in
    (t, e, (start-IsStarted r.new_queue r.new_task s stopped e).0)

-- The device starts the core service and the HMI, and leaves the remote console stopped; the
-- emulator starts all three.
pub app_main-IsStarted :
    (for_core for_hmi for_console : Resources)
    → AreGiven for_core
    → AreGiven for_hmi
    → AreGiven for_console
    → ((p : Services) × (app_main for_core for_hmi ≡ ok p)
        × IsStarted p.core
        × IsStarted p.hmi
        × (p.network_console ≡ service_network_console))
      × ((p : Services) × (emulator_main for_core for_hmi for_console ≡ ok p)
          × IsStarted p.core
          × IsStarted p.hmi
          × IsStarted p.network_console)
unfolding app_main emulator_main
app_main-IsStarted for_core for_hmi for_console a b c =
    let (core, e, core_runs) = start_with-IsStarted for_core service_core a refl in
    let (hmi, f, hmi_runs) = start_with-IsStarted for_hmi service_hmi b refl in
    let (console, g, console_runs) =
      start_with-IsStarted for_console service_network_console c refl in
    (
      (_, rw (e, f), core_runs, hmi_runs, refl),
      (_, rw (e, f, g), core_runs, hmi_runs, console_runs),
    )

-- A console that runs is not touched by the core service's events.
handle_events-started :
    (r : Resources) (s console : Service) (es : List ServiceEvent)
    → start_with r s ≡ ok console
    → handle_events r console es ≡ ok console
unfolding handle_events handle_event
handle_events-started r s console [] e = refl
handle_events-started r s console (event ∷ es) e =
    let again = start-start r.new_queue r.new_task r.new_queue r.new_task s e in
    elim (Bool-cases (event.event == event_code WifiEvent.sta_got_ip)) [
      | inl up ↦ rw (up, again) (handle_events-started r s console es e)
      | inr other ↦ rw other (handle_events-started r s console es e)
    ]

-- The remote console waits for the network: over any sequence of events of the core service, a
-- console that is stopped stays as it is while no event reports an address, and is started once,
-- however many do.
pub handle_events-console :
    (r : Resources) (console : Service) (es : List ServiceEvent)
    → AreGiven r
    → console.state ≡ ServiceState.stopped
    → (t : Service) × (handle_events r console es ≡ ok t)
      × (got_ip es ≡ false → t ≡ console)
      × (got_ip es ≡ true → IsStarted t × (start_with r console ≡ ok t))
unfolding handle_events handle_event got_ip
handle_events-console r console [] given stopped = (console, refl, λ _. refl, λ e. absurd (cc))
handle_events-console r console (event ∷ es) given stopped =
    elim (Bool-cases (event.event == event_code WifiEvent.sta_got_ip)) [
      | inl up ↦
          let (t, e, started) = start_with-IsStarted r console given stopped in
          (
            t,
            rw (up, e) (handle_events-started r console t es e),
            rw up (λ q. absurd (cc)),
            rw up (λ _. (started, e)),
          )
      | inr other ↦ rw other (handle_events-console r console es given stopped)
    ]
