-- ===== src/Service/Delivery/Receipt.antt =====
-- What one receive and one turn of the loop do.
use univr_info_workshop.Common.{
  ℕ, ◌≡◌, refl, subst, true, false, Option, none, some, List, [], ◌∷◌, ◌++◌, ok, Bool-cases, inl,
  inr,
}
use univr_info_workshop.Error.{ErrorCode, is_success-eq_false}
use univr_info_workshop.Adapter.{QueueAdapter}
use univr_info_workshop.Service.{
  Service, ServiceState, ServiceEvent, is_running, service_queue_size,
}
use univr_info_workshop.Service.Main.{Methods, Progress, loop}
use univr_info_workshop.Service.Loop.{
  received_or_timeout, handle_all, loop_lem, any_stops, events_before_stop,
}
use univr_info_workshop.Service.Delivery.{stored, received}

pub running_of : (st : ServiceState) → is_running st ≡ true → st ≡ ServiceState.running
running_of ServiceState.stopped e = cc
running_of ServiceState.waiting e = cc
running_of ServiceState.running e = refl

-- A turn hands one event to the handler and leaves the service as it is.
pub turn_lem :
    {W : Type 0} (h : ℕ → ℕ → W → W) (m : Methods W) (s : Service) (w : W) (o : Option ServiceEvent)
    {s' : Service} {w' : W}
    → m.handler ≡ some (λ s e p w. ok (s, h e p w))
    → loop m s w (record { stops = false; received = o } ∷ []) ≡ ok (Progress.busy s' w')
    → (s' ≡ s) × (w' ≡ handle_all h w (received_or_timeout o ∷ []))
unfolding loop any_stops events_before_stop
turn_lem h m s w o e came = elim (Bool-cases (is_running s.state)) [
  | inl runs ↦
      let whole =
        loop_lem h m s w (record { stops = false; received = o } ∷ []) e
          (running_of s.state runs) in
      ((cc), (cc))
  | inr ends ↦
      let ended : loop m s w (record { stops = false; received = o } ∷ [])
          ≡ ok (Progress.returned s w) =
        rw (loop, ends) in
      absurd (cc)
]

-- What a receive leaves of the events that the queue held.
abbrev pub Left :
    (a : QueueAdapter ServiceEvent)
    → List ServiceEvent
    → ErrorCode × Option ServiceEvent × a.Handle
    → Type 0
Left a xs (e, x, q) =
    (rest : List ServiceEvent) × a.Holds service_queue_size q rest
    × (xs ≡ received (stored e x ∷ []) ++ rest)

pub receive-Left :
    (a : QueueAdapter ServiceEvent) (xs : List ServiceEvent) (q : a.Handle)
    (out : ErrorCode × Option ServiceEvent × a.Handle)
    → a.Holds service_queue_size q xs
    → a.receive q ≡ ok out
    → Left a xs out
receive-Left a [] q out held came =
    let (e, r, n) = a.receive_none service_queue_size q held in
    let same : (e, none, q) ≡ out = cc in
    subst (Left a []) same ([], held, rw (is_success-eq_false e n))
receive-Left a (x ∷ xs) q out held came =
    let (q', r, held') = a.receive_first service_queue_size q x xs held in
    let same : (ErrorCode.success, some x, q') ≡ out = cc in
    subst (Left a (x ∷ xs)) same (xs, held', refl)
