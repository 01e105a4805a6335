-- ===== src/Esp32/Board/Tests.antt =====
-- The LED of the device at concrete inputs.
use univr_info_workshop.Common.{◌≡◌, refl, true, false, none, some, List, [], ◌∷◌, ok}
use univr_info_workshop.Error.{ErrorCode}
use univr_info_workshop.Service.{Service, ServiceState}
use univr_info_workshop.Service.Main.{Round, Progress, service_main}
use univr_info_workshop.Service.Loop.{events_before_stop, any_stops}
use univr_info_workshop.Hmi.{Context, initial, methods, service_hmi}
use univr_info_workshop.Hmi.Presses.{color_of, presses}
use univr_info_workshop.Esp32.Board.{
  Rgb, LedStrip, Board, board_drivers, set_led_color, gpio_isr_handler,
}
use univr_info_workshop.Esp32.Board.Shown.{rgb_of, service_main-shown}

-- A strip of one pixel: the buffer, and what it shows.
abbrev Pixel : Type 0
Pixel = Rgb × Rgb

abbrev dark : Rgb
dark = record { red = 0; green = 0; blue = 0 }

abbrev one_pixel : LedStrip Pixel
one_pixel = record {
  new_rmt_device = λ s. (ErrorCode.success, some 7, s);
  clear = λ h s. (ErrorCode.success, (dark, dark));
  set_pixel = λ h i r g b s. (ErrorCode.success, (record { red = r; green = g; blue = b }, s.1));
  refresh = λ h s. (ErrorCode.success, (s.0, s.0));
  buffer = λ s. s.0;
  shown = λ s. s.1;
  IsMade = λ h s. Unit {0};
  made = λ s. (7, (s, refl, tt));
  cleared = λ h s p. (_, refl, tt);
  written = λ h r g b s p. (_, refl, tt, refl);
  refreshed = λ h s p. (_, refl, tt, refl);
}

abbrev unlit : Board Pixel
unlit = record { led_strip = none; gpio_event_queue = none; strip = (dark, dark) }

-- Without `Led_Init` the LED is refused.
refused :
    set_led_color one_pixel (record { r = 1; g = 2; b = 3; w = 4 }) unlit
    ≡ (ErrorCode.error_resource_not_available, unlit)
unfolding set_led_color
refused = refl

button : gpio_isr_handler true ≡ ok (record { event = 0; payload = 0 })
unfolding gpio_isr_handler
button = refl

abbrev running_hmi : Service
running_hmi = record service_hmi { state = ServiceState.running }

-- A press, a timeout and a press.
abbrev pressed_twice : List Round
pressed_twice =
    record { stops = false; received = some (record { event = 0; payload = 0 }) }
    ∷ record { stops = false; received = none }
    ∷ record { stops = false; received = some (record { event = 0; payload = 0 }) }
    ∷ []

service_main-shown_example :
    (ctx : Context) × ((b' : Board Pixel) × (service_main
          (methods (board_drivers one_pixel ErrorCode.success ErrorCode.success ErrorCode.success))
          ErrorCode.success
          true
          running_hmi
          (initial, unlit)
          pressed_twice
        ≡ ok (Progress.busy running_hmi (ctx, b')))
      × (one_pixel.shown b'.strip ≡ rgb_of (color_of 1)))
unfolding any_stops presses events_before_stop
service_main-shown_example =
    service_main-shown one_pixel ErrorCode.success ErrorCode.success ErrorCode.success
      ErrorCode.success true running_hmi unlit pressed_twice 1 refl refl refl refl
