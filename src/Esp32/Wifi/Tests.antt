-- ===== src/Esp32/Wifi/Tests.antt =====
-- The Wi-Fi handler at concrete inputs.
use Prim.Native.Nat.{min}
use univr_info_workshop.Common.{true, some, ◌-◌, ◌≡◌, refl, List, [], ◌∷◌, replicate, ok}
use univr_info_workshop.Error.{ErrorCode}
use univr_info_workshop.Esp32.Wifi.{
  Context, Incoming, Action, initial, handle_all, connect_maximum_retry,
}
use univr_info_workshop.Esp32.Wifi.Station.{wifi_init, core_init}
use univr_info_workshop.Esp32.Wifi.Retries.{handle_all-disconnects}

abbrev session : List Incoming
session =
    Incoming.sta_start ∷ Incoming.sta_disconnected ∷ Incoming.sta_connected ∷ Incoming.sta_got_ip
    ∷ Incoming.sta_disconnected ∷ []

handle_all-disconnects_example :
    (ctx' : Context) × (handle_all initial (replicate 8 Incoming.sta_disconnected)
      ≡ ok (ctx', replicate (min 8 (connect_maximum_retry - 0)) Action.connects))
handle_all-disconnects_example = handle_all-disconnects 8 initial

-- A Wi-Fi driver that could not be initialised is started all the same.
started_anyway :
    core_init
      (wifi_init ErrorCode.error_os ErrorCode.success ErrorCode.success ErrorCode.success true true)
      ErrorCode.success
      ErrorCode.success
      ErrorCode.success
      (97 ∷ [])
      (98 ∷ [])
    ≡ ok (some (record { ssid = 97 ∷ replicate 31 0; password = 98 ∷ replicate 63 0 }))
unfolding core_init wifi_init
started_anyway = refl
