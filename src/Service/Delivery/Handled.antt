-- ===== src/Service/Delivery/Handled.antt =====
-- What waits for a running service is handled.
use univr_info_workshop.Common.{
  ℕ, ◌≡◌, refl, ap, sym, subst, ◌∙◌, false, some, List, [], ◌∷◌, ◌++◌, append_assoc, append-nil,
  map, ok,
}
use univr_info_workshop.Adapter.{QueueAdapter}
use univr_info_workshop.Service.{Service, ServiceState, ServiceEvent, service_queue_size}
use univr_info_workshop.Service.Main.{Methods, Progress, loop}
use univr_info_workshop.Service.Loop.{handle_all, loop_lem, any_stops, events_before_stop}
use univr_info_workshop.Service.Delivery.{System, Step, turns, Reach, start, later, received}
use univr_info_workshop.Service.Delivery.Kept.{Reach-IsDelivered, received-append}

module _ {W : Type 0} (a : QueueAdapter ServiceEvent) (m : Methods W) where
  Reach-before : {s t u : System a.Handle W} → Step a m s t → Reach a m t u → Reach a m s u
  Reach-before step start = later start step
  Reach-before step (later r step') = later (Reach-before step r) step'

  module _ (h : ℕ → ℕ → W → W) (by_h : m.handler ≡ some (λ s e p w. ok (s, h e p w))) where
    one_turn :
        (s : System a.Handle W) (x : ServiceEvent)
        → s.service.state ≡ ServiceState.running
        → loop m s.service s.world (record { stops = false; received = some x } ∷ [])
          ≡ ok (Progress.busy s.service (h x.event x.payload s.world))
    unfolding handle_all any_stops events_before_stop
    one_turn s x runs =
        loop_lem h m s.service s.world (record { stops = false; received = some x } ∷ []) by_h runs

    -- The state after turns that received the events of a list.
    abbrev turned : System a.Handle W → List ServiceEvent → a.Handle → System a.Handle W
    turned s xs q = record s {
      queue = q;
      world = handle_all h s.world xs;
      turns = s.turns ++ map some xs;
    }

    turns_through :
        (xs : List ServiceEvent) (s : System a.Handle W)
        → s.service.state ≡ ServiceState.running
        → a.Holds service_queue_size s.queue xs
        → (q : a.Handle) × a.Holds service_queue_size q [] × Reach a m s (turned s xs q)
    unfolding handle_all
    turns_through [] s runs held = (
      s.queue,
      held,
      subst (λ l. Reach a m s (record s { turns = l })) (sym (append-nil s.turns)) start,
    )
    turns_through (x ∷ xs) s runs held =
        let (q', e, held') = a.receive_first service_queue_size s.queue x xs held in
        let s' : System a.Handle W = record s {
          queue = q';
          world = h x.event x.payload s.world;
          turns = s.turns ++ some x ∷ [];
        } in
        let (q, none_left, r) = turns_through xs s' runs held' in
        (
          q,
          none_left,
          Reach-before (turns e (one_turn s x runs)) (
              subst
                (λ l.
                  Reach a m s'
                    (record s { queue = q; world = handle_all h s.world (x ∷ xs); turns = l }))
                (append_assoc s.turns (some x ∷ []) (map some xs)) r),
        )

received-some : (xs : List ServiceEvent) → received (map some xs) ≡ xs
received-some [] = refl
received-some (x ∷ xs) = ap (λ l. x ∷ l) (received-some xs)

-- Nothing that was accepted stays behind while the service runs: from any state that can come up
-- since the queue was empty, if the service is running there, turns of its loop alone lead to a state
-- in which the queue is empty and all the events accepted so far were received, in order; what the
-- turns before had received is unchanged, and the program is in the state to which the handler takes
-- it over the events that waited.
pub Reach-handled :
    {W : Type 0} (a : QueueAdapter ServiceEvent) (h : ℕ → ℕ → W → W) (m : Methods W)
    (service : Service) (q : a.Handle) (w : W) (s : System a.Handle W)
    → m.handler ≡ some (λ s e p w. ok (s, h e p w))
    → a.Holds service_queue_size q []
    → Reach a m (record { service = service; queue = q; world = w; accepted = []; turns = [] }) s
    → s.service.state ≡ ServiceState.running
    → (xs : List ServiceEvent) × (q' : a.Handle) × Reach a m s
        (record s { queue = q'; world = handle_all h s.world xs; turns = s.turns ++ map some xs })
      × a.Holds service_queue_size q' []
      × (received (s.turns ++ map some xs) ≡ s.accepted)
Reach-handled a h m service q w s by_h empty r runs =
    let d = Reach-IsDelivered a h m service q w by_h empty r in
    let (q', none_left, rest) = turns_through a m h by_h d.waiting s runs d.holds in
    (
      d.waiting,
      q',
      rest,
      none_left,
      received-append s.turns (map some d.waiting)
          ∙ ap (λ l. received s.turns ++ l) (received-some d.waiting)
          ∙ sym d.conserved,
    )
