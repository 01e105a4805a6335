-- ===== src/Service/Delivery/Kept.antt =====
-- No event is lost, doubled or overtaken between Service_Notify and the handler.
use univr_info_workshop.Common.{
  ℕ, ◌<◌, ◌≡◌, ◌≢◌, refl, ap, sym, subst, ◌∙◌, false, Option, none, some, List, [], ◌∷◌, ◌++◌,
  append_assoc, map, length, length-append, arith, ok,
}
use univr_info_workshop.Error.{ErrorCode}
use univr_info_workshop.Adapter.{QueueAdapter}
use univr_info_workshop.Service.{
  Service, ServiceState, ServiceEvent, Notified, notify, service_queue_size,
}
use univr_info_workshop.Service.Main.{Methods, Progress, loop}
use univr_info_workshop.Service.Loop.{received_or_timeout, handle_all}
use univr_info_workshop.Service.Notify.{notify_lem}
use univr_info_workshop.Service.Delivery.{
  System, notifies, sends, stops, turns, Reach, start, later, stored, received, IsDelivered,
}
use mathlib.Core.List.{map-append}
use native.Mathlib.Decide.{dec_lt}
use univr_info_workshop.Service.Delivery.Receipt.{receive-Left, turn_lem}

pub received-append :
    (xs ys : List (Option ServiceEvent)) → received (xs ++ ys) ≡ received xs ++ received ys
received-append [] ys = refl
received-append (none ∷ xs) ys = received-append xs ys
received-append (some e ∷ xs) ys = ap (λ l. e ∷ l) (received-append xs ys)

handle_all-append :
    {W : Type 0} (h : ℕ → ℕ → W → W) (w : W) (xs ys : List ServiceEvent)
    → handle_all h w (xs ++ ys) ≡ handle_all h (handle_all h w xs) ys
unfolding handle_all
handle_all-append h w [] ys = refl
handle_all-append h w (x ∷ xs) ys = handle_all-append h (h x.event x.payload w) xs ys

module _ {W : Type 0} (a : QueueAdapter ServiceEvent) (h : ℕ → ℕ → W → W) (w : W) where
  -- An event that a queue with room took waits behind the others.
  queued-IsDelivered :
      (s : System a.Handle W) (x : ServiceEvent) (q : a.Handle) (d : IsDelivered a h w s)
      → length d.waiting < service_queue_size
      → a.Holds service_queue_size q (d.waiting ++ x ∷ [])
      → IsDelivered a h w (record s { queue = q; accepted = s.accepted ++ x ∷ [] })
  queued-IsDelivered s x q d k held = record {
    waiting = d.waiting ++ x ∷ [];
    fits = omega (arith, length-append {0} d.waiting (x ∷ []));
    holds = held;
    conserved =
        ap (λ l. l ++ x ∷ []) d.conserved ∙ append_assoc (received s.turns) d.waiting (x ∷ []);
    handled = d.handled;
  }

  is_full :
      (s : System a.Handle W) (d : IsDelivered a h w s)
      → ¬ (length d.waiting < service_queue_size)
      → length d.waiting ≡ service_queue_size
  is_full s d k = omega (arith, d.fits)

  sent-IsDelivered :
      (s : System a.Handle W) (x : ServiceEvent) (q : a.Handle)
      → IsDelivered a h w s
      → a.send s.queue x ≡ ok (ErrorCode.success, q)
      → IsDelivered a h w (record s { queue = q; accepted = s.accepted ++ x ∷ [] })
  sent-IsDelivered s x q d came = elim (dec_lt (length d.waiting) service_queue_size) [
    | yes k ↦
        let (q', e, held) = a.send_room service_queue_size s.queue x d.waiting d.holds k in
        let same : q' ≡ q = cc in
        queued-IsDelivered s x q d k
          (subst (λ p. a.Holds service_queue_size p (d.waiting ++ x ∷ [])) same held)
    | no k ↦
        let (e, refused, n) =
          a.send_full service_queue_size s.queue x d.waiting d.holds (is_full s d k) in
        absurd (n (cc))
  ]

  notified-IsDelivered :
      (s : System a.Handle W) (event payload : ℕ) (q : a.Handle)
      → IsDelivered a h w s
      → s.service.state ≢ ServiceState.stopped
      → notify a s.service s.queue event payload ≡ ok (Notified.queued q)
      → IsDelivered a h w (record s {
        queue = q;
        accepted = s.accepted ++ record { event = event; payload = payload } ∷ [];
      })
  notified-IsDelivered s event payload q d live came =
      let x : ServiceEvent = record { event = event; payload = payload } in
      let (room, full) = notify_lem a s.service s.queue event payload d.waiting live d.holds in
      elim (dec_lt (length d.waiting) service_queue_size) [
        | yes k ↦
            let (q', e, held) = room k in
            let same : q' ≡ q = cc in
            queued-IsDelivered s x q d k
              (subst (λ p. a.Holds service_queue_size p (d.waiting ++ x ∷ [])) same held)
        | no k ↦ let e = full (is_full s d k) in absurd (cc)
      ]

  turned-IsDelivered :
      (m : Methods W) (s : System a.Handle W) (e : ErrorCode) (x : Option ServiceEvent)
      (q : a.Handle) (service : Service) (w' : W)
      → m.handler ≡ some (λ s e p w. ok (s, h e p w))
      → IsDelivered a h w s
      → a.receive s.queue ≡ ok (e, x, q)
      → loop m s.service s.world (record { stops = false; received = stored e x } ∷ [])
        ≡ ok (Progress.busy service w')
      → IsDelivered a h w (record {
        service = service;
        queue = q;
        world = w';
        accepted = s.accepted;
        turns = s.turns ++ stored e x ∷ [];
      })
  turned-IsDelivered m s e x q service w' by_h d came looped =
      let (rest, held, split) = receive-Left a d.waiting s.queue (e, x, q) d.holds came in
      let turn = turn_lem h m s.service s.world (stored e x) by_h looped in
      record {
        waiting = rest;
        fits =
            omega
              (arith, d.fits, ap length split, length-append {0} (received (stored e x ∷ [])) rest);
        holds = held;
        conserved =
            d.conserved
            ∙ ap (λ l. received s.turns ++ l) split
            ∙ sym (append_assoc (received s.turns) (received (stored e x ∷ [])) rest)
            ∙ ap (λ l. l ++ rest) (sym (received-append s.turns (stored e x ∷ [])));
        handled =
            turn.1
            ∙ ap (λ v. handle_all h v (received_or_timeout (stored e x) ∷ [])) d.handled
            ∙ sym (
                handle_all-append h w (map received_or_timeout s.turns)
                  (received_or_timeout (stored e x) ∷ []))
            ∙ ap (handle_all h w) (sym (map-append received_or_timeout s.turns (stored e x ∷ [])));
      }

-- Between a service's queue and its handler no event is lost, doubled or overtaken: however calls of
-- `Service_Notify`, events that drivers put into the queue, stops and turns of the loop interleave, from an empty queue on, the events accepted so
-- far are those that the turns received, in order, and behind them those that wait in the queue,
-- which are at most 20; and the program is in the state to which the handler took it over what the
-- turns received, a timeout for each turn that received nothing. The handler is a function of the
-- event that leaves the service alone.
pub Reach-IsDelivered :
    {W : Type 0} (a : QueueAdapter ServiceEvent) (h : ℕ → ℕ → W → W) (m : Methods W)
    (service : Service) (q : a.Handle) (w : W) {s : System a.Handle W}
    → m.handler ≡ some (λ s e p w. ok (s, h e p w))
    → a.Holds service_queue_size q []
    → Reach a m (record { service = service; queue = q; world = w; accepted = []; turns = [] }) s
    → IsDelivered a h w s
unfolding handle_all
Reach-IsDelivered a h m service q w by_h empty start = record {
  waiting = [];
  fits = omega arith;
  holds = empty;
  conserved = refl;
  handled = refl;
}
Reach-IsDelivered a h m service q w by_h empty
      (later {t = t} r (notifies event payload {q = q'} live came)) =
    notified-IsDelivered a h w t event payload q' (Reach-IsDelivered a h m service q w by_h empty r)
      live came
Reach-IsDelivered a h m service q w by_h empty
      (later {t = t} r (sends event payload {q = q'} came)) =
    sent-IsDelivered a h w t (record { event = event; payload = payload }) q'
      (Reach-IsDelivered a h m service q w by_h empty r) came
Reach-IsDelivered a h m service q w by_h empty (later {t = t} r stops) =
    let d = Reach-IsDelivered a h m service q w by_h empty r in
    record {
      waiting = d.waiting;
      fits = d.fits;
      holds = d.holds;
      conserved = d.conserved;
      handled = d.handled;
    }
Reach-IsDelivered a h m service q w by_h empty
      (later {t = t} r (turns {e = e} {x = x} {q = q'} {service = s'} {w = w'} came looped)) =
    turned-IsDelivered a h w m t e x q' s' w' by_h
      (Reach-IsDelivered a h m service q w by_h empty r) came looped
