-- ===== src/Esp32/Board.antt =====
-- main/src/adapter/esp32/led.c and btn.c: the LED and the button of the device, as drivers of the HMI.
-- An esp_err_t becomes an ErrorCode, as in CHECK_ERROR. The led_strip component and the GPIO driver are
-- parameters.
pub mod Shown
mod Tests
use univr_info_workshop.Common.{ℕ, Bool, Option, none, some, if◌then◌else◌, Outcome, ok, abort, ◌≡◌}
use univr_info_workshop.Error.{ErrorCode, is_success}
use univr_info_workshop.Service.{ServiceEvent}
use univr_info_workshop.Hmi.{Rgbw, Drivers, hmi_event_btn_press}

-- The colour of a pixel, which has no white.
pub record Rgb : Type 0 where
  pub red : ℕ
  pub green : ℕ
  pub blue : ℕ

-- The led_strip component over its state `S`. `new_rmt_device` gives its result and
-- the handle that is left in `ctx`. The
-- laws are those of a strip whose calls succeed once it is made: `set_pixel` writes the buffer and
-- `refresh` shows it.
pub record LedStrip (S : Type 0) : Type 1 where
  pub new_rmt_device : S → ErrorCode × Option ℕ × S
  pub clear : (strip : Option ℕ) → S → ErrorCode × S
  pub set_pixel : (strip index red green blue : ℕ) → S → ErrorCode × S
  pub refresh : (strip : ℕ) → S → ErrorCode × S
  pub buffer : S → Rgb
  pub shown : S → Rgb
  pub IsMade : ℕ → S → Type 0
  pub made :
      (s : S)
      → (h : ℕ) × ((s' : S) × (new_rmt_device s ≡ (ErrorCode.success, some h, s')) × IsMade h s')
  pub cleared :
      (h : ℕ) (s : S)
      → IsMade h s
      → (s' : S) × (clear (some h) s ≡ (ErrorCode.success, s')) × IsMade h s'
  pub written :
      (h red green blue : ℕ) (s : S)
      → IsMade h s
      → (s' : S) × (set_pixel h 0 red green blue s ≡ (ErrorCode.success, s'))
        × IsMade h s'
        × (buffer s' ≡ record { red = red; green = green; blue = blue })
  pub refreshed :
      (h : ℕ) (s : S)
      → IsMade h s
      → (s' : S) × (refresh h s ≡ (ErrorCode.success, s')) × IsMade h s' × (shown s' ≡ buffer s)

-- The two static `ctx`, with the state of the led_strip component.
pub record Board (S : Type 0) : Type 0 where
  pub led_strip : Option ℕ
  pub gpio_event_queue : Option ℕ
  pub strip : S

module _ {S : Type 0} where
  -- `CHECK_ERROR` of a call of the led_strip component: an error is returned, else the code goes on.
  abbrev pub check_error : ErrorCode × S → (S → ErrorCode × S) → ErrorCode × S
  check_error (e, s) next = if is_success e then next s else (e, s)

  -- The board with a new state of the component.
  abbrev pub on_board : Board S → ErrorCode × S → ErrorCode × Board S
  on_board b (e, s) = (e, record b { strip = s })

  -- `Btn_Init`, where the three calls of the GPIO driver give `config`, `isr_service` and `isr_add`.
  unfoldable pub btn_init :
      (config isr_service isr_add : ErrorCode) → Option ℕ → Board S → ErrorCode × Board S
  btn_init config isr_service isr_add event_queue b =
      let b' : Board S = record b { gpio_event_queue = event_queue } in
      if is_success config
      then (if is_success isr_service then (isr_add, b') else (isr_service, b'))
      else (config, b')

module _ {S : Type 0} (d : LedStrip S) where
  -- `Led_Init`.
  unfoldable pub led_init : Board S → ErrorCode × Board S
  led_init b =
      let (e, h, s) = d.new_rmt_device b.strip in
      let b' : Board S = record b { led_strip = h; strip = s } in
      if is_success e then on_board b' (d.clear h s) else (e, b')

  -- `Led_SetLedColor`; the white of the colour is not used.
  unfoldable pub set_led_color : Rgbw → Board S → ErrorCode × Board S
  set_led_color color b = elim b.led_strip [
    | none ↦ (ErrorCode.error_resource_not_available, b)
    | some strip ↦
        on_board b
          (check_error (d.set_pixel strip 0 color.r color.g color.b b.strip) (d.refresh strip))
  ]

  -- led.c and btn.c as the drivers of the HMI.
  abbrev pub board_drivers : (config isr_service isr_add : ErrorCode) → Drivers (Board S)
  board_drivers config isr_service isr_add = record {
    btn_init = btn_init config isr_service isr_add;
    led_init = led_init;
    set_led_color = set_led_color;
  }

-- `Btn_GpioIsrHandler`: the event that a press puts into the queue; `sent` says whether the queue
-- took it, else the device reboots.
pub gpio_isr_handler : (sent : Bool) → Outcome ServiceEvent
gpio_isr_handler sent =
    if sent then ok (record { event = hmi_event_btn_press; payload = 0 }) else abort
