-- ===== src/Hmi/Delivered.antt =====
-- From the queue of the HMI service to the LED: hmi.c at the end of a queue that other tasks and the
-- button driver fill.
use univr_info_workshop.Common.{
  ◌+◌, ◌≤◌, ◌≡◌, refl, ap, ◌∙◌, Option, none, some, List, [], ◌∷◌, ◌++◌, map, length, arith,
}
use univr_info_workshop.Adapter.{QueueAdapter}
use univr_info_workshop.Service.{Service, ServiceState, ServiceEvent, service_queue_size}
use univr_info_workshop.Service.Main.{Methods}
use univr_info_workshop.Service.Loop.{received_or_timeout}
use univr_info_workshop.Service.Delivery.{System, Reach, start, later, received, IsDelivered}
use univr_info_workshop.Service.Delivery.Kept.{Reach-IsDelivered}
use univr_info_workshop.Service.Delivery.Handled.{Reach-handled}
use univr_info_workshop.Hmi.{Drivers, Context, initial, handle_event, methods}
use univr_info_workshop.Hmi.Presses.{presses, show, handle_all-presses}

presses-append : (xs ys : List ServiceEvent) → presses (xs ++ ys) ≡ presses xs + presses ys
unfolding presses
presses-append [] ys = omega arith
presses-append (x ∷ xs) ys = ground (arith, presses-append xs ys)

-- A timeout is no press.
presses-received :
    (turns : List (Option ServiceEvent))
    → presses (map received_or_timeout turns) ≡ presses (received turns)
unfolding presses
presses-received [] = refl
presses-received (none ∷ turns) = presses-received turns
presses-received (some e ∷ turns) = ground (arith, presses-received turns)

Reach-trans :
    {W : Type 0} {a : QueueAdapter ServiceEvent} {m : Methods W} {s t u : System a.Handle W}
    → Reach a m s t
    → Reach a m t u
    → Reach a m s u
Reach-trans r start = r
Reach-trans r (later q step) = later (Reach-trans r q) step

-- The HMI service before its first event.
abbrev pub unpressed :
    {D : Type 0} (a : QueueAdapter ServiceEvent) (service : Service) (q : a.Handle) (d : D)
    → System a.Handle (Context × D)
unpressed a service q d = record {
  service = service;
  queue = q;
  world = (initial, d);
  accepted = [];
  turns = [];
}

module _ {D : Type 0} (drivers : Drivers D) (a : QueueAdapter ServiceEvent) (service : Service)
    (q : a.Handle) (d : D) (empty : a.Holds service_queue_size q []) where
  delivered :
      {s : System a.Handle (Context × D)}
      → Reach a (methods drivers) (unpressed a service q d) s
      → IsDelivered a (handle_event drivers) (initial, d) s
  unfolding methods
  delivered r =
      Reach-IsDelivered a (handle_event drivers) (methods drivers) service q (initial, d) refl empty
        r

  shown_received :
      {s : System a.Handle (Context × D)}
      → Reach a (methods drivers) (unpressed a service q d) s
      → s.world.1 ≡ show drivers 0 (presses (received s.turns)) d
  shown_received {s = s} r =
      let p = delivered r in
      ap (λ w. w.1) p.handled
      ∙ (handle_all-presses drivers (map received_or_timeout s.turns) initial 0 d refl).1
      ∙ ap (λ n. show drivers 0 n d) (presses-received s.turns)

-- Every press that its queue takes is shown, once and in order: however the presses, other
-- events, calls of `Service_Notify`, stops and turns of the loop interleave, from an empty queue
-- on, the HMI service has shown the colours of as many presses as its turns received, and all
-- further accepted presses wait in the queue, at most 20; and if the service is running, turns of
-- its loop that receive the rest of the accepted events, in order, lead to a state in which the
-- colours of all accepted presses have been shown and nothing waits: in between no event is
-- accepted and the service does not change. This is so on every implementation of queue.h and for
-- all drivers.
pub Reach-shown :
    {D : Type 0} (drivers : Drivers D) (a : QueueAdapter ServiceEvent) (service : Service)
    (q : a.Handle) (d : D) (s : System a.Handle (Context × D))
    → a.Holds service_queue_size q []
    → Reach a (methods drivers) (unpressed a service q d) s
    → (s.world.1 ≡ show drivers 0 (presses (received s.turns)) d)
      × ((waiting : List ServiceEvent) × a.Holds service_queue_size s.queue waiting
          × (length waiting ≤ service_queue_size)
          × (presses s.accepted ≡ presses (received s.turns) + presses waiting))
      × (s.service.state ≡ ServiceState.running
          → (xs : List ServiceEvent) × (q' : a.Handle) × (w : Context × D) × Reach a
              (methods drivers)
              s
              (record s { queue = q'; world = w; turns = s.turns ++ map some xs })
            × (received (s.turns ++ map some xs) ≡ s.accepted)
            × (w.1 ≡ show drivers 0 (presses s.accepted) d)
            × a.Holds service_queue_size q' [])
unfolding methods
Reach-shown drivers a service q d s empty r =
    let p = delivered drivers a service q d empty r in
    (
      shown_received drivers a service q d empty r,
      (
        p.waiting,
        p.holds,
        p.fits,
        ap presses p.conserved ∙ presses-append (received s.turns) p.waiting,
      ),
      λ runs.
          let (xs, q', rest, none_left, all) =
            Reach-handled a (handle_event drivers) (methods drivers) service q (initial, d) s refl
              empty r runs in
          (
            xs,
            q',
            _,
            rest,
            all,
            shown_received drivers a service q d empty (Reach-trans r rest)
                ∙ ap (λ es. show drivers 0 (presses es) d) all,
            none_left,
          ),
    )
