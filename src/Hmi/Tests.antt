-- ===== src/Hmi/Tests.antt =====
-- The HMI service at concrete inputs.
use univr_info_workshop.Common.{
  map, ◌+◌, ◌≤◌, replicate, length, arith, ◌≡◌, refl, true, false, Option, none, some, List, [],
  ◌∷◌, ◌++◌, ok, abort,
}
use univr_info_workshop.Error.{ErrorCode}
use univr_info_workshop.Service.{Service, ServiceState, ServiceEvent}
use univr_info_workshop.Service.Main.{Progress, Round, service_main}
use univr_info_workshop.Service.Loop.{events_before_stop, any_stops}
use univr_info_workshop.Hmi.{Rgbw, rgbw, Drivers, Context, initial, methods, service_hmi}
use univr_info_workshop.Hmi.Presses.{color_of, presses, show}
use univr_info_workshop.Adapter.{QueueAdapter}
use univr_info_workshop.Posix.Queue.{Queue, new, send, enqueue}
use univr_info_workshop.Posix.Queue.Refine.{new-Represents}
use univr_info_workshop.Posix.Queue.Adapter.{adapter, adapter_send}
use univr_info_workshop.Service.Delivery.{System, sends, Reach, start as here, later, received}
use univr_info_workshop.Hmi.Delivered.{unpressed, Reach-shown}
use univr_info_workshop.Hmi.Task.{service_main-presses}

-- Drivers that keep the colours shown, the last one last.
abbrev recording : Drivers (List Rgbw)
recording = record {
  btn_init = λ q d. (ErrorCode.success, d);
  led_init = λ d. (ErrorCode.success, d);
  set_led_color = λ c d. (ErrorCode.success, d ++ c ∷ []);
}

abbrev pressed : ServiceEvent
pressed = record { event = 0; payload = 0 }

abbrev other : ServiceEvent
other = record { event = 3; payload = 9 }

abbrev gets : Option ServiceEvent → Round
gets e = record { stops = false; received = e }

abbrev last : Round
last = record { stops = true; received = some pressed }

abbrev session : List Round
session = gets (some pressed) ∷ gets none ∷ gets (some pressed) ∷ gets (some other) ∷ []

abbrev started : Service
started = record service_hmi { state = ServiceState.running; queue = some 64; task = some 65 }

-- Five presses go round the four colours.
five_presses :
    show recording 0 (presses (pressed ∷ pressed ∷ other ∷ pressed ∷ pressed ∷ pressed ∷ [])) []
    ≡ rgbw 0 0 0 ∷ rgbw 255 0 0 ∷ rgbw 0 255 0 ∷ rgbw 0 0 255 ∷ rgbw 0 0 0 ∷ []
unfolding show presses color_of
five_presses = refl

service_main-presses_example :
    (any_stops session ≡ false
      → (ctx : Context) × (service_main
            (methods recording)
            ErrorCode.success
            true
            started
            (initial, [])
            session
          ≡ ok (
              Progress.busy started
                (ctx, show recording 0 (presses (events_before_stop session)) []))))
    × (any_stops session ≡ true
        → service_main (methods recording) ErrorCode.success true started (initial, []) session
          ≡ abort)
service_main-presses_example =
    service_main-presses recording ErrorCode.success true started [] session refl refl

abbrev posix : QueueAdapter ServiceEvent
posix = adapter (record { tv_sec = 1; tv_usec = 2 }) 1000

-- The queue of a service as it is made.
abbrev empty : Queue ServiceEvent
empty = record {
  size = 20;
  head = 0;
  tail = 0;
  n_elements = 0;
  messages = replicate 20 none;
  blocks = [];
}

made : new 20 true 0 0 ≡ ok (some empty)
unfolding new
made = refl

empty-Holds : posix.Holds 20 empty []
empty-Holds = new-Represents 20 true 0 0 (omega arith) (omega arith) made

-- One press is in the queue.
abbrev one_press : System (Queue ServiceEvent) (Context × List Rgbw)
one_press = record (unpressed posix started empty []) {
  queue = enqueue empty pressed;
  accepted = pressed ∷ [];
}

took : posix.send empty pressed ≡ ok (ErrorCode.success, enqueue empty pressed)
unfolding adapter_send send
took = refl

one_press-Reach : Reach posix (methods recording) (unpressed posix started empty []) one_press
one_press-Reach = later here (sends 0 0 took)

Reach-shown_example :
    ([] ≡ show recording 0 (presses (received [])) [])
    × ((waiting : List ServiceEvent) × posix.Holds 20 (enqueue empty pressed) waiting
        × (length waiting ≤ 20)
        × (presses (pressed ∷ []) ≡ presses (received []) + presses waiting))
    × (ServiceState.running ≡ ServiceState.running
        → (xs : List ServiceEvent) × (q' : Queue ServiceEvent) × (w : Context × List Rgbw) × Reach
            posix
            (methods recording)
            one_press
            (record one_press { queue = q'; world = w; turns = map some xs })
          × (received (map some xs) ≡ pressed ∷ [])
          × (w.1 ≡ show recording 0 (presses (pressed ∷ [])) [])
          × posix.Holds 20 q' [])
Reach-shown_example =
    Reach-shown recording posix started empty [] one_press empty-Holds one_press-Reach
