-- ===== src/Posix/Board.antt =====
-- main/src/adapter/posix/led.c, btn.c and wifi.c: a PC has no LED, no button and no station. Their
-- functions do nothing and report success.
use univr_info_workshop.Common.{ℕ, zero, suc, ◌≡◌, refl, Bool, false, Option, none, List, ok}
use univr_info_workshop.Error.{ErrorCode}
use univr_info_workshop.Wifi.{WifiNetwork}
use univr_info_workshop.Service.{Service, ServiceState}
use univr_info_workshop.Service.Main.{Round, Progress, service_main}
use univr_info_workshop.Service.Loop.{any_stops}
use univr_info_workshop.Hmi.{Rgbw, Drivers, Context, initial, methods}
use univr_info_workshop.Hmi.Presses.{show}
use univr_info_workshop.Hmi.Task.{service_main-presses}

module _ {D : Type 0} where
  -- `Btn_Init`.
  pub pc_btn_init : (event_queue : Option ℕ) → D → ErrorCode × D
  pc_btn_init event_queue d = (ErrorCode.success, d)

  -- `Led_Init` and `Led_SetLedColor`.
  pub pc_led_init : D → ErrorCode × D
  pc_led_init d = (ErrorCode.success, d)

  pub pc_set_led_color : Rgbw → D → ErrorCode × D
  pc_set_led_color color d = (ErrorCode.success, d)

  -- `WiFi_Init`, `WiFi_StartSta` and `WiFi_StopSta`.
  pub pc_wifi_init : (event_queue : Option ℕ) → D → ErrorCode × D
  pc_wifi_init event_queue d = (ErrorCode.success, d)

  pub pc_start_sta : WifiNetwork → D → ErrorCode × D
  pc_start_sta network d = (ErrorCode.success, d)

  pub pc_stop_sta : D → ErrorCode × D
  pc_stop_sta d = (ErrorCode.success, d)

  -- led.c and btn.c as the drivers of the HMI.
  abbrev pub pc_drivers : Drivers D
  pc_drivers = record {
    btn_init = pc_btn_init;
    led_init = pc_led_init;
    set_led_color = pc_set_led_color;
  }

  show-pc : (k n : ℕ) (d : D) → show pc_drivers k n d ≡ d
  unfolding show pc_set_led_color
  show-pc k zero d = refl
  show-pc k (suc n) d = show-pc (suc k) n d

-- On a PC the HMI service runs for as long as nobody stops it, and nothing that it does changes the
-- state of the drivers.
pub service_main-unseen :
    {D : Type 0} (give : ErrorCode) (delete_returns : Bool) (s : Service) (d : D)
    (rounds : List Round)
    → s.state ≡ ServiceState.running
    → s.termination_semaphore ≡ none
    → any_stops rounds ≡ false
    → (ctx : Context) × (service_main (methods pc_drivers) give delete_returns s (initial, d) rounds
        ≡ ok (Progress.busy s (ctx, d)))
unfolding pc_led_init pc_btn_init
service_main-unseen give delete_returns s d rounds running unset goes =
    let (ctx, e) =
      (service_main-presses pc_drivers give delete_returns s d rounds running unset).0 goes in
    (ctx, rw (e, show-pc) refl)
