-- ===== src/Service/Notify.antt =====
-- `Service_Notify`: an event for a service that is not stopped is queued, or the program reboots.
use univr_info_workshop.Common.{
  ℕ, zero, suc, ◌+◌, ◌<◌, ◌≡◌, ◌≢◌, refl, some, false, List, [], ◌∷◌, ◌++◌, arith, length, ok,
}
use univr_info_workshop.Error.{is_success-eq_false}
use univr_info_workshop.Adapter.{QueueAdapter}
use univr_info_workshop.Service.{
  Service, ServiceState, ServiceEvent, Notified, drain, notify, service_queue_size, is_stopped,
}

not_stopped : (st : ServiceState) → st ≢ ServiceState.stopped → is_stopped st ≡ false
not_stopped ServiceState.stopped h = absurd (h refl)
not_stopped _ h = refl

module _ (a : QueueAdapter ServiceEvent) where
  -- The drain ends within one round more than the messages, and reads them all in order.
  drain_lem :
      (size fuel : ℕ) (q : a.Handle) (xs : List ServiceEvent)
      → a.Holds size q xs
      → length xs < fuel
      → drain a fuel q ≡ ok (some xs)
  unfolding drain
  drain_lem size zero q xs h k = absurd (omega arith)
  drain_lem size (suc fuel) q [] h k =
      let (e, r, n) = a.receive_none size q h in rw (r, is_success-eq_false e n)
  drain_lem size (suc fuel) q (x ∷ xs) h k =
      let (q', r, h') = a.receive_first size q x xs h in
      rw (r, drain_lem size fuel q' xs h' (omega arith))

  -- On a stopped service an event changes nothing.
  pub notify-ignored :
      (s : Service) (q : a.Handle) (event payload : ℕ)
      → s.state ≡ ServiceState.stopped
      → notify a s q event payload ≡ ok Notified.ignored
  unfolding notify
  notify-ignored s q event payload e = rw e

-- An event for a service that is not stopped is never lost in silence: if the queue of 20 places has
-- room the event is queued behind the others, and if the queue is full the program reboots, having
-- read out exactly the events that were waiting, in order.
pub notify_lem :
    (a : QueueAdapter ServiceEvent) (s : Service) (q : a.Handle) (event payload : ℕ)
    (xs : List ServiceEvent)
    → s.state ≢ ServiceState.stopped
    → a.Holds service_queue_size q xs
    → let sent : ServiceEvent = record { event = event; payload = payload } in
      (length xs < service_queue_size
        → (q' : a.Handle) × (notify a s q event payload ≡ ok (Notified.queued q'))
          × a.Holds service_queue_size q' (xs ++ sent ∷ []))
      × (length xs ≡ service_queue_size → notify a s q event payload ≡ ok (Notified.rebooted xs))
unfolding notify
notify_lem a s q event payload xs live h = (room, full)
  where
    sent : ServiceEvent
    sent = record { event = event; payload = payload }

    going : is_stopped s.state ≡ false
    going = not_stopped s.state live

    room :
        length xs < service_queue_size
        → (q' : a.Handle) × (notify a s q event payload ≡ ok (Notified.queued q'))
          × a.Holds service_queue_size q' (xs ++ sent ∷ [])
    room k =
        let (q', e, h') = a.send_room service_queue_size q sent xs h k in (q', rw (going, e), h')

    full : length xs ≡ service_queue_size → notify a s q event payload ≡ ok (Notified.rebooted xs)
    full k =
        let (code, e, n) = a.send_full service_queue_size q sent xs h k in
        rw (
          going,
          e,
          is_success-eq_false code n,
          drain_lem a service_queue_size (service_queue_size + 1) q xs h (omega arith),
        )
