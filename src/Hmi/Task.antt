-- ===== src/Hmi/Task.antt =====
-- The HMI service as a task: hmi.c run by the event loop of core/service.c.
use univr_info_workshop.Common.{
  ◌≡◌, refl, ap, ◌∙◌, Bool, true, false, none, List, if◌then◌else◌, ok, abort,
}
use univr_info_workshop.Error.{ErrorCode}
use univr_info_workshop.Service.{Service, ServiceState, stop}
use univr_info_workshop.Service.Lifecycle.{stop_lem}
use univr_info_workshop.Service.Main.{Round, Progress, give_semaphore, loop, service_main}
use univr_info_workshop.Service.Loop.{events_before_stop, any_stops, handle_all, loop_lem}
use univr_info_workshop.Hmi.{Drivers, Context, initial, init, handle_event, methods}
use univr_info_workshop.Hmi.Presses.{presses, show, handle_all-presses}

-- The drivers after `Hmi_Init`.
abbrev pub ready : {D : Type 0} → Drivers D → Service → D → D
ready drivers s d = (drivers.led_init (drivers.btn_init s.queue d).1).1

-- From the button to the LED: a running HMI service, on any drivers, shows the colours off, red,
-- green and blue in turn, one for each press that reaches it before it is stopped, whatever other
-- events and timeouts come between. It works on until it is stopped; and when it is stopped while
-- it has no termination semaphore, as `SERVICE_HMI` never has, the whole program reboots.
pub service_main-presses :
    {D : Type 0} (drivers : Drivers D) (give : ErrorCode) (delete_returns : Bool) (s : Service)
    (d : D) (rounds : List Round)
    → s.state ≡ ServiceState.running
    → s.termination_semaphore ≡ none
    → let shown = show drivers 0 (presses (events_before_stop rounds)) (ready drivers s d) in
      (any_stops rounds ≡ false
        → (ctx : Context) × (service_main
              (methods drivers)
              give
              delete_returns
              s
              (initial, d)
              rounds
            ≡ ok (Progress.busy s (ctx, shown))))
      × (any_stops rounds ≡ true
          → service_main (methods drivers) give delete_returns s (initial, d) rounds ≡ abort)
unfolding service_main methods init
service_main-presses {D} drivers give delete_returns s d rounds running none_there = (
  λ goes. (handled.0, rw (looped, goes) (ap (λ x. ok (Progress.busy s (handled.0, x))) shown)),
  λ stops. rw (looped, stops, ap (λ o. give_semaphore o give) unset),
)
  where
    handled : Context × D
    handled =
        handle_all (handle_event drivers) (initial, ready drivers s d) (events_before_stop rounds)

    looped :
        loop (methods drivers) s (initial, ready drivers s d) rounds
        ≡ ok (
            if any_stops rounds
            then Progress.returned (stop s) handled
            else Progress.busy s handled)
    looped =
        loop_lem (handle_event drivers) (methods drivers) s (initial, ready drivers s d) rounds refl
          running

    unset : (stop s).termination_semaphore ≡ none
    unset = (stop_lem s).1.semaphore ∙ none_there

    shown : handled.1 ≡ show drivers 0 (presses (events_before_stop rounds)) (ready drivers s d)
    shown =
        (handle_all-presses drivers (events_before_stop rounds) initial 0 (ready drivers s d)
          refl).1
