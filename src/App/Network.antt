-- ===== src/App/Network.antt =====
-- From the Wi-Fi driver of the device to the remote console: the driver's events, through the queue of
-- the core service, to the start of the console.
use univr_info_workshop.Common.{
  ◌+◌, ◌≡◌, ◌∙◌, refl, ap, Bool, true, false, List, [], ◌∷◌, ◌++◌, if◌then◌else◌, ok, Bool-cases,
  inl, inr, ltb,
}
use univr_info_workshop.Error.{ErrorCode}
use univr_info_workshop.Wifi.{event_code}
use univr_info_workshop.Service.{Service, ServiceState, ServiceEvent}
use univr_info_workshop.Service.Lifecycle.{IsStarted}
use univr_info_workshop.Esp32.Wifi.{
  Context, Incoming, Action, handle, handle_all, connect_maximum_retry,
}
use univr_info_workshop.App.{Resources, handle_events}
use univr_info_workshop.App.Startup.{AreGiven, got_ip, handle_events-console}

-- The events that the driver put into its queue, which is that of the core service.
unfoldable pub sent_events : List Action → List ServiceEvent
sent_events [] = []
sent_events (Action.connects ∷ acts) = sent_events acts
sent_events (Action.sends event payload ∷ acts) =
    record { event = event; payload = payload } ∷ sent_events acts

abbrev pub is_address : Incoming → Bool
is_address Incoming.sta_got_ip = true
is_address _ = false

-- Whether ESP-IDF reports an address for the station.
unfoldable pub has_address : List Incoming → Bool
has_address [] = false
has_address (e ∷ es) = if is_address e then true else has_address es

handle-reports :
    (ctx : Context) (e : Incoming)
    → (out : Context × List Action) × (handle true ErrorCode.success ctx e ≡ ok out)
      × ((rest : List Action)
          → got_ip (sent_events (out.1 ++ rest))
            ≡ (if is_address e then true else got_ip (sent_events rest)))
unfolding handle sent_events got_ip event_code
handle-reports ctx Incoming.sta_disconnected =
    elim (Bool-cases (ltb ctx.connection_retry_count connect_maximum_retry)) [
      | inl more ↦ (
        (
          record { is_connected = false; connection_retry_count = ctx.connection_retry_count + 1 },
          Action.connects ∷ [],
        ),
        rw more,
        λ rest. refl,
      )
      | inr tired ↦ ((record ctx { is_connected = false }, []), rw tired, λ rest. refl)
    ]
handle-reports ctx Incoming.sta_start = ((ctx, Action.connects ∷ []), refl, λ rest. refl)
handle-reports ctx Incoming.sta_connected = (_, refl, λ rest. refl)
handle-reports ctx Incoming.wifi_other = ((ctx, []), refl, λ rest. refl)
handle-reports ctx Incoming.sta_got_ip = (_, refl, λ rest. refl)
handle-reports ctx Incoming.sta_lost_ip = (_, refl, λ rest. refl)
handle-reports ctx Incoming.ap_sta_ip_assigned = (_, refl, λ rest. refl)
handle-reports ctx Incoming.ip_other = ((ctx, []), refl, λ rest. refl)

pub handle_all-reports :
    (ctx : Context) (es : List Incoming)
    → (out : Context × List Action) × (handle_all ctx es ≡ ok out)
      × (got_ip (sent_events out.1) ≡ has_address es)
unfolding handle_all sent_events got_ip has_address
handle_all-reports ctx [] = ((ctx, []), refl, refl)
handle_all-reports ctx (e ∷ es) =
    let ((ctx₁, acts), p, first) = handle-reports ctx e in
    let ((ctx₂, rest), q, others) = handle_all-reports ctx₁ es in
    (
      (ctx₂, acts ++ rest),
      rw (p, q),
      first rest ∙ ap (λ b. if is_address e then true else b) others,
    )

-- From the radio to the console: whatever events of ESP-IDF the Wi-Fi driver is called with, while
-- its calls succeed and the core service handles what the driver sends in order, a remote console
-- that is stopped stays as it is when no station address is reported, and is started when one is,
-- whatever else comes before or behind.
pub handle_all-console :
    (ctx : Context) (es : List Incoming) (r : Resources) (console : Service)
    → AreGiven r
    → console.state ≡ ServiceState.stopped
    → (out : Context × List Action) × (handle_all ctx es ≡ ok out)
      × ((t : Service) × (handle_events r console (sent_events out.1) ≡ ok t)
          × (has_address es ≡ false → t ≡ console)
          × (has_address es ≡ true → IsStarted t))
handle_all-console ctx es r console given stopped =
    let (out, p, reported) = handle_all-reports ctx es in
    let (t, q, without, with_address) =
      handle_events-console r console (sent_events out.1) given stopped in
    (out, p, (t, q, (λ h. without (reported ∙ h)), λ h. (with_address (reported ∙ h)).0))
