-- ===== src/Service/Loop.antt =====
-- The event loop of a service: which events the handler sees, and when the loop ends.
use univr_info_workshop.Common.{
  Option, none, ℕ, ◌≡◌, refl, sym, ap, Bool, true, false, some, List, [], ◌∷◌, if◌then◌else◌,
  Bool-cases, inl, inr, ok,
}
use univr_info_workshop.Service.{Service, ServiceState, ServiceEvent, is_running, stop}
use univr_info_workshop.Service.Lifecycle.{stop_lem}
use univr_info_workshop.Service.Main.{Methods, Round, Progress, event_of, call_handler, loop}

-- What a receive hands to the handler: its event, or a timeout event when there is none.
abbrev pub received_or_timeout : Option ServiceEvent → ServiceEvent
received_or_timeout (some e) = e
received_or_timeout none = record { event = 0xafaf; payload = 0 }

-- The events of the rounds before the first one that stops the service.
unfoldable pub events_before_stop : List Round → List ServiceEvent
events_before_stop [] = []
events_before_stop (r ∷ rs) =
    if r.stops then [] else received_or_timeout r.received ∷ events_before_stop rs

unfoldable pub any_stops : List Round → Bool
any_stops [] = false
any_stops (r ∷ rs) = if r.stops then true else any_stops rs

-- The events handled one after the other by a function.
unfoldable pub handle_all : {W : Type 0} → (ℕ → ℕ → W → W) → W → List ServiceEvent → W
handle_all h w [] = w
handle_all h w (e ∷ es) = handle_all h (h e.event e.payload w) es

loop_step :
    {W : Type 0} (h : ℕ → ℕ → W → W) (m : Methods W) (s : Service) (w : W) (r : Round)
    (rs : List Round)
    → m.handler ≡ some (λ s e p w. ok (s, h e p w))
    → s.state ≡ ServiceState.running
    → r.stops ≡ false
    → loop m s w (r ∷ rs)
      ≡ loop m s (h (event_of r.received).event (event_of r.received).payload w) rs
unfolding loop
loop_step h m s w r rs e k goes =
    let runs : is_running s.state ≡ true = ap is_running k in
    let handled = ap (λ f. call_handler f (event_of r.received) s w) e in rw (goes, runs, handled)

pub event_of_lem : (o : Option ServiceEvent) → event_of o ≡ received_or_timeout o
event_of_lem none = refl
event_of_lem (some e) = refl

-- Where the handler is a function of the event and leaves the service alone, a running service's
-- loop handles the events of all the rounds before the service is stopped, in order and once each,
-- a failed receive as a timeout event; then it ends with the service stopped, and it goes on as
-- long as nobody stops the service.
pub loop_lem :
    {W : Type 0} (h : ℕ → ℕ → W → W) (m : Methods W) (s : Service) (w : W) (rounds : List Round)
    → m.handler ≡ some (λ s e p w. ok (s, h e p w))
    → s.state ≡ ServiceState.running
    → let w' = handle_all h w (events_before_stop rounds) in
      loop m s w rounds
      ≡ ok (if any_stops rounds then Progress.returned (stop s) w' else Progress.busy s w')
unfolding loop handle_all events_before_stop any_stops
loop_lem h m s w [] e k = refl
loop_lem h m s w (r ∷ rs) e k = elim (Bool-cases r.stops) [
  | inl stops ↦ rw (stops, (stop_lem s).0)
  | inr goes ↦
      rw (loop_step h m s w r rs e k goes, goes, sym (event_of_lem r.received))
        (loop_lem h m s (h (event_of r.received).event (event_of r.received).payload w) rs e k)
]
