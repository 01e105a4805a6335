-- ===== src/Hmi.antt =====
-- main/src/hmi/hmi.c with the interfaces main/src/adapter/btn.h and led.h: the service that changes
-- the colour of the LED at each press of the button.
pub mod Presses
pub mod Delivered
pub mod Task
mod Tests
use univr_info_workshop.Common.{
  ℕ, zero, suc, ◌+◌, ◌%◌, Bool, Option, none, some, ◌==◌, if◌then◌else◌, Outcome, ok,
}
use univr_info_workshop.Error.{ErrorCode}
use univr_info_workshop.Service.{Service, ServiceState}
use univr_info_workshop.Service.Main.{Methods}

-- `RGBW` of led.h.
pub record Rgbw : Type 0 where
  pub r : ℕ
  pub g : ℕ
  pub b : ℕ
  pub w : ℕ

-- `HmiEvent`.
abbrev pub hmi_event_btn_press : ℕ
hmi_event_btn_press = 0

-- `Btn_Init`, `Led_Init` and `Led_SetLedColor` over the state `D` of the drivers.
pub record Drivers (D : Type 0) : Type 0 where
  pub btn_init : Option ℕ → D → ErrorCode × D
  pub led_init : D → ErrorCode × D
  pub set_led_color : Rgbw → D → ErrorCode × D

-- The static `ctx` of hmi.c; `count` starts at 0 and never gets negative.
pub record Context : Type 0 where
  pub color : Rgbw
  pub count : ℕ

abbrev pub rgbw : ℕ → ℕ → ℕ → Rgbw
rgbw r g b = record { r = r; g = g; b = b; w = 0 }

-- The colour and the count after a press, lines 26 to 45.
pub press : Context → Context
press ctx =
    if ctx.count == 0
    then record { color = rgbw 0 0 0; count = ctx.count + 1 }
    else if ctx.count == 1
    then record { color = rgbw 255 0 0; count = ctx.count + 1 }
    else if ctx.count == 2
    then record { color = rgbw 0 255 0; count = ctx.count + 1 }
    else record { color = rgbw 0 0 255; count = 0 }

-- The zeroed `ctx`.
abbrev pub initial : Context
initial = record { color = rgbw 0 0 0; count = 0 }

module _ {D : Type 0} (drivers : Drivers D) where
  -- `Hmi_HandleEvent`; the result of `Led_SetLedColor` is not looked at.
  pub handle_event : (event payload : ℕ) → Context × D → Context × D
  unfolding press
  handle_event event payload (ctx, d) =
      if event == hmi_event_btn_press
      then (press ctx, (drivers.set_led_color (press ctx).color d).1)
      else (ctx, d)

  -- `Hmi_Init`; neither result is looked at.
  pub init : Service → Context × D → Outcome (Service × (Context × D))
  init s (ctx, d) =
      let (e, d₁) = drivers.btn_init s.queue d in
      let (e', d₂) = drivers.led_init d₁ in ok (s, (ctx, d₂))

  pub methods : Methods (Context × D)
  unfolding handle_event init
  methods = record {
    setup_hook = some init;
    teardown_hook = none;
    main = none;
    handler = some (λ s event payload w. ok (s, handle_event event payload w));
  }

-- `SERVICE_HMI`.
abbrev pub service_hmi : Service
service_hmi = record {
  task_priority = 0;
  task_stack_size = 4096;
  queue = none;
  task = none;
  timeout_ms = 1000;
  state = ServiceState.stopped;
  termination_semaphore = none;
}
