-- ===== src/Service/Tests.antt =====
-- The services of core/service.c at concrete inputs.
use univr_info_workshop.Common.{
  map, ◌++◌, ℕ, ◌<◌, ◌≡◌, refl, true, false, none, some, List, [], ◌∷◌, arith, if◌then◌else◌,
  length, ok,
}
use univr_info_workshop.Adapter.{QueueAdapter}
use univr_info_workshop.Posix.Time.{Timeval}
use univr_info_workshop.Posix.Queue.{Queue, enqueue, send}
use univr_info_workshop.Posix.Queue.Adapter.{adapter, adapter_send}
use univr_info_workshop.Service.{Service, ServiceState, ServiceEvent, Notified, stop, notify}
use univr_info_workshop.Service.Notify.{notify_lem}
use univr_info_workshop.Service.Main.{Methods, Round, Progress, loop, body}
use univr_info_workshop.Service.Loop.{events_before_stop, any_stops, handle_all, loop_lem}
use univr_info_workshop.Service.Delivery.{
  System, notifies, Reach, start as here, later, IsDelivered, received,
}
use univr_info_workshop.Service.Delivery.Kept.{Reach-IsDelivered}
use univr_info_workshop.Service.Delivery.Handled.{Reach-handled}
use univr_info_workshop.Service.Termination.{Ends}

abbrev idle : Service
idle = record {
  task_priority = 0;
  task_stack_size = 0;
  queue = none;
  task = none;
  timeout_ms = 500;
  state = ServiceState.stopped;
  termination_semaphore = none;
}

abbrev started : Service
started = record idle {
  task_priority = 1;
  task_stack_size = 4096;
  queue = some 8;
  task = some 9;
  state = ServiceState.running;
}

-- A service that keeps the payload of its last event.
abbrev keeping : Methods ℕ
keeping = record {
  setup_hook = none;
  teardown_hook = none;
  main = none;
  handler = some (λ s e p w. ok (s, p));
}

abbrev rounds : List Round
rounds =
    record { stops = false; received = some (record { event = 1; payload = 5 }) }
    ∷ record { stops = true; received = none }
    ∷ []

abbrev now : Timeval
now = record { tv_sec = 1; tv_usec = 2 }

abbrev posix : QueueAdapter ServiceEvent
posix = adapter now 10

abbrev empty : Queue ServiceEvent
empty = record {
  size = 20;
  head = 0;
  tail = 0;
  n_elements = 0;
  messages =
      none ∷ none ∷ none ∷ none ∷ none ∷ none ∷ none ∷ none ∷ none ∷ none ∷ none ∷ none ∷ none
      ∷ none ∷ none ∷ none ∷ none ∷ none ∷ none ∷ none ∷ [];
  blocks = [];
}

empty-Holds : posix.Holds 20 empty []
empty-Holds = (
  record {
    size_pos = omega arith;
    size_small = omega arith;
    slots = refl;
    tail_in = omega arith;
    count = refl;
    room = omega arith;
    head_at = refl;
    view = λ i h. absurd (omega arith);
  },
  refl,
)

notify_lem_example :
    (length {A = ServiceEvent} [] < 20
      → (q' : Queue ServiceEvent) × (notify posix started empty 3 4 ≡ ok (Notified.queued q'))
        × posix.Holds 20 q' (record { event = 3; payload = 4 } ∷ []))
    × (length {A = ServiceEvent} [] ≡ 20
        → notify posix started empty 3 4 ≡ ok (Notified.rebooted []))
notify_lem_example = notify_lem posix started empty 3 4 [] (λ e. cc) empty-Holds

loop_lem_example :
    loop keeping started 0 rounds
    ≡ ok (
        if any_stops rounds
        then Progress.returned
            (stop started)
            (handle_all (λ e p w. p) 0 (events_before_stop rounds))
        else Progress.busy started (handle_all (λ e p w. p) 0 (events_before_stop rounds)))
loop_lem_example = loop_lem (λ e p w. p) keeping started 0 rounds refl refl

abbrev finished : Service
finished = record started { state = ServiceState.stopped }

keeping-Ends : (s : Service) → s.state ≡ ServiceState.running → Ends keeping s 0 rounds (stop s) 5
unfolding body handle_all events_before_stop any_stops
keeping-Ends s e = record {
  ready = s;
  world = 0;
  set_up = refl;
  ended = loop_lem (λ e p w. p) keeping s 0 rounds refl e;
}

abbrev with_semaphore : Service
with_semaphore = record started { termination_semaphore = some 3 }

-- The queue of the service with one event in it.
abbrev one_event : Queue ServiceEvent
one_event = enqueue empty (record { event = 3; payload = 4 })

queued : notify posix started empty 3 4 ≡ ok (Notified.queued one_event)
unfolding notify adapter_send send
queued = refl

abbrev at_start : System (Queue ServiceEvent) ℕ
at_start = record { service = started; queue = empty; world = 0; accepted = []; turns = [] }

abbrev notified : System (Queue ServiceEvent) ℕ
notified = record at_start { queue = one_event; accepted = record { event = 3; payload = 4 } ∷ [] }

notified-Reach : Reach posix keeping at_start notified
notified-Reach = later here (notifies 3 4 (λ e. cc) queued)

Reach-IsDelivered_example : IsDelivered posix (λ e p w. p) 0 notified
Reach-IsDelivered_example =
    Reach-IsDelivered posix (λ e p w. p) keeping started empty 0 refl empty-Holds notified-Reach

Reach-handled_example :
    (xs : List ServiceEvent) × (q' : Queue ServiceEvent) × Reach posix keeping notified
      (record notified {
        queue = q';
        world = handle_all (λ e p w. p) 0 xs;
        turns = [] ++ map some xs;
      })
    × posix.Holds 20 q' []
    × (received ([] ++ map some xs) ≡ record { event = 3; payload = 4 } ∷ [])
Reach-handled_example =
    Reach-handled posix (λ e p w. p) keeping started empty 0 notified refl empty-Holds
      notified-Reach refl
