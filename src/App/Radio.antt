-- ===== src/App/Radio.antt =====
-- From the Wi-Fi driver of the device, main/src/adapter/esp32/wifi.c, through the task of the core service,
-- to the start of the remote console.
use univr_info_workshop.Common.{
  ◌≡◌, refl, ap, ◌∙◌, Bool, true, false, none, some, List, [], ◌∷◌, ok, if◌then◌else◌, ◌==◌,
}
use univr_info_workshop.Error.{ErrorCode}
use univr_info_workshop.Service.{Service, ServiceState, ServiceEvent}
use univr_info_workshop.Service.Lifecycle.{IsStarted}
use univr_info_workshop.Service.Main.{Round, Progress, service_main}
use univr_info_workshop.Service.Loop.{events_before_stop, any_stops}
use univr_info_workshop.Wifi.{WifiEvent, event_code}
use univr_info_workshop.Esp32.Wifi.{Context, Incoming, Action, handle_all}
use univr_info_workshop.App.{Resources}
use univr_info_workshop.App.Startup.{AreGiven, got_ip}
use univr_info_workshop.App.Network.{sent_events, has_address, handle_all-reports}
use univr_info_workshop.App.Core.{Radio, World, core_methods, service_main-console}

abbrev arrives : ServiceEvent → Round
arrives e = record { stops = false; received = some e }

abbrev times_out : Round
times_out = record { stops = false; received = none }

-- The turns of a task that nobody stops and that receives the given events, in order. `timeouts` says, turn by
-- turn, whether the receive times out; when it has ended, the events that are left come one after the other.
pub turns : (timeouts : List Bool) → List ServiceEvent → List Round
turns [] [] = []
turns [] (e ∷ es) = arrives e ∷ turns [] es
turns (true ∷ more) es = times_out ∷ turns more es
turns (false ∷ more) [] = turns more []
turns (false ∷ more) (e ∷ es) = arrives e ∷ turns more es

turns-any_stops :
    (timeouts : List Bool) (es : List ServiceEvent) → any_stops (turns timeouts es) ≡ false
unfolding any_stops turns
turns-any_stops [] [] = refl
turns-any_stops [] (e ∷ es) = turns-any_stops [] es
turns-any_stops (true ∷ more) es = turns-any_stops more es
turns-any_stops (false ∷ more) [] = turns-any_stops more []
turns-any_stops (false ∷ more) (e ∷ es) = turns-any_stops more es

-- A timeout reports no address.
turns-got_ip :
    (timeouts : List Bool) (es : List ServiceEvent)
    → got_ip (events_before_stop (turns timeouts es)) ≡ got_ip es
unfolding events_before_stop turns got_ip event_code
turns-got_ip [] [] = refl
turns-got_ip [] (e ∷ es) =
    ap (λ b. if e.event == event_code WifiEvent.sta_got_ip then true else b) (turns-got_ip [] es)
turns-got_ip (true ∷ more) es = turns-got_ip more es
turns-got_ip (false ∷ more) [] = turns-got_ip more []
turns-got_ip (false ∷ more) (e ∷ es) =
    ap (λ b. if e.event == event_code WifiEvent.sta_got_ip then true else b) (turns-got_ip more es)

-- From the radio to the console. The Wi-Fi driver is called with any events of ESP-IDF while its calls succeed,
-- and the task of the core service, which nobody stops, receives what the driver sends, in order, with
-- any timeouts between; ESP_ERROR_CHECK does not stop the program at the start, and a queue and a task are at
-- hand for a remote console that is stopped. Then the task works on, and the console is as it was if the
-- station was given no address, and is started if it was given one, whatever else came before or behind.
pub handle_all-service_main :
    (ctx : Context) (es : List Incoming) (radio : Radio) (r : Resources) (give : ErrorCode)
    (delete_returns : Bool) (s : Service) (w : World) (timeouts : List Bool)
    → radio.netif ≡ true
    → radio.wifi ≡ true
    → AreGiven r
    → s.state ≡ ServiceState.running
    → s.termination_semaphore ≡ none
    → w.console.state ≡ ServiceState.stopped
    → (out : Context × List Action) × (handle_all ctx es ≡ ok out)
      × ((w' : World) × (service_main
              (core_methods radio r)
              give
              delete_returns
              s
              w
              (turns timeouts (sent_events out.1))
            ≡ ok (Progress.busy s w'))
          × (has_address es ≡ false → w'.console ≡ w.console)
          × (has_address es ≡ true → IsStarted w'.console))
handle_all-service_main ctx es radio r give delete_returns s w timeouts up on given running alone
      stopped =
    let (out, handled, reported) = handle_all-reports ctx es in
    let rounds = turns timeouts (sent_events out.1) in
    let same = turns-got_ip timeouts (sent_events out.1) ∙ reported in
    let (w', came, without, with_address) =
      (service_main-console radio r give delete_returns s w rounds up on given running alone
          stopped).0
        (turns-any_stops timeouts (sent_events out.1)) in
    (out, handled, (w', came, (λ h. without (same ∙ h)), λ h. with_address (same ∙ h)))
