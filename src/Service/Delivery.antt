-- ===== src/Service/Delivery.antt =====
-- Service_Notify and the event loop of Service_Main on the two ends of one queue, whatever adapter
-- the queue is of. A step is a call of `Service_Notify` or `Service_Stop` by another task, an event that
-- a driver puts into the queue as `Queue_Send` does, or a turn of the service's own loop. A receive
-- that waits is a turn that comes after the send that ends the wait; a stop that comes during the
-- wait takes effect after the turn, as the state is tested at its head only.
pub mod Receipt
pub mod Kept
pub mod Handled
use univr_info_workshop.Common.{
  ℕ, zero, suc, ◌+◌, ◌<◌, ◌≤◌, ◌≡◌, ◌≢◌, refl, ap, sym, subst, ◌∙◌, Bool, true, false, Option, none,
  some, List, [], ◌∷◌, ◌++◌, append_assoc, append-nil, map, length, length-append, arith,
  if◌then◌else◌, ok, Bool-cases, inl, inr,
}
use univr_info_workshop.Error.{ErrorCode, is_success, is_success-eq_false}
use univr_info_workshop.Adapter.{QueueAdapter}
use univr_info_workshop.Service.{
  Service, ServiceState, ServiceEvent, Notified, notify, stop, is_running, service_queue_size,
}
use univr_info_workshop.Service.Main.{Methods, Round, Progress, loop, event_of}
use univr_info_workshop.Service.Loop.{received_or_timeout, handle_all, loop_lem}
use univr_info_workshop.Service.Notify.{notify_lem}
use native.Mathlib.Decide.{dec_lt}

-- The event that `Queue_Receive` stores, if it succeeds.
abbrev pub stored : ErrorCode → Option ServiceEvent → Option ServiceEvent
stored e m = if is_success e then m else none

-- The service with its queue and the state of the program; `accepted` are the events that were
-- queued since the start, and `turns` what the turns of the loop received, both oldest first.
pub record System (H W : Type 0) : Type 0 where
  pub service : Service
  pub queue : H
  pub world : W
  pub accepted : List ServiceEvent
  pub turns : List (Option ServiceEvent)

pub data Step {W : Type 0} (a : QueueAdapter ServiceEvent) (m : Methods W) (s : System a.Handle W)
    : System a.Handle W → Type 0 where
  notifies :
      (event payload : ℕ) {q : a.Handle}
      → s.service.state ≢ ServiceState.stopped
      → notify a s.service s.queue event payload ≡ ok (Notified.queued q)
      → Step a m s (record s {
        queue = q;
        accepted = s.accepted ++ record { event = event; payload = payload } ∷ [];
      })
  sends :
      (event payload : ℕ) {q : a.Handle}
      → a.send s.queue (record { event = event; payload = payload }) ≡ ok (ErrorCode.success, q)
      → Step a m s (record s {
        queue = q;
        accepted = s.accepted ++ record { event = event; payload = payload } ∷ [];
      })
  stops : Step a m s (record s { service = stop s.service })
  turns :
      {e : ErrorCode} {x : Option ServiceEvent} {q : a.Handle} {service : Service} {w : W}
      → a.receive s.queue ≡ ok (e, x, q)
      → loop m s.service s.world (record { stops = false; received = stored e x } ∷ [])
        ≡ ok (Progress.busy service w)
      → Step a m s (record {
        service = service;
        queue = q;
        world = w;
        accepted = s.accepted;
        turns = s.turns ++ stored e x ∷ [];
      })

pub data Reach {W : Type 0} (a : QueueAdapter ServiceEvent) (m : Methods W) (s : System a.Handle W)
    : System a.Handle W → Type 0 where
  start : Reach a m s s
  later : {t u : System a.Handle W} → Reach a m s t → Step a m t u → Reach a m s u

-- The events among what the turns received.
abbrev pub received : List (Option ServiceEvent) → List ServiceEvent
received [] = []
received (none ∷ xs) = received xs
received (some e ∷ xs) = e ∷ received xs

-- Every accepted event was received or waits in the queue, in order and once; the program is in the
-- state to which the handler took it over what the turns received, a timeout for each empty turn.
pub record IsDelivered {W : Type 0} (a : QueueAdapter ServiceEvent) (h : ℕ → ℕ → W → W) (w : W)
    (s : System a.Handle W) : Type 0 where
  pub waiting : List ServiceEvent
  pub fits : length waiting ≤ service_queue_size
  pub holds : a.Holds service_queue_size s.queue waiting
  pub conserved : s.accepted ≡ received s.turns ++ waiting
  pub handled : s.world ≡ handle_all h w (map received_or_timeout s.turns)
