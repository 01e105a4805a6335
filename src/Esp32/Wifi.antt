-- ===== src/Esp32/Wifi.antt =====
-- main/src/adapter/esp32/wifi.c: the connection to an access point. The calls of ESP-IDF are
-- actions, and what they answer is an argument.
pub mod Retries
pub mod Station
mod Tests
use univr_info_workshop.Common.{
  ℕ, ◌+◌, Bool, true, false, List, [], ◌∷◌, ◌++◌, ltb, ◌==◌, if◌then◌else◌, Outcome, ok, abort,
  ◌>>=◌,
}
use univr_info_workshop.Error.{ErrorCode, is_success}
use univr_info_workshop.Wifi.{WifiEvent, event_code}

abbrev pub connect_maximum_retry : ℕ
connect_maximum_retry = 5

-- The static `ctx`, but for its queue, which never changes after `WiFi_Init`.
pub record Context : Type 0 where
  pub is_connected : Bool
  pub connection_retry_count : ℕ

-- The zeroed `ctx`.
abbrev pub initial : Context
initial = record { is_connected = false; connection_retry_count = 0 }

-- What the handler is called with: the base and the number of an event of ESP-IDF.
pub data Incoming : Type 0 where
  sta_start sta_disconnected sta_connected wifi_other : Incoming
  sta_got_ip sta_lost_ip ap_sta_ip_assigned ip_other : Incoming

-- esp_wifi_connect, and the event that `WiFi_SendEvent` puts into the queue.
pub data Action : Type 0 where
  connects : Action
  sends : (event payload : ℕ) → Action

-- `WiFi_SendEvent`: an event that the queue refuses reboots the device; `sent` is the result of
-- `Queue_Send`.
pub send_event : (sent : ErrorCode) → (event payload : ℕ) → Outcome (List Action)
send_event sent event payload =
    if is_success sent then ok (Action.sends event payload ∷ []) else abort

-- `Wifi_EventHandler`: the context after, and the actions. `connect` says whether esp_wifi_connect
-- succeeds, which ESP_ERROR_CHECK wants at the start only.
unfoldable pub handle :
    (connect : Bool) (sent : ErrorCode) → Context → Incoming → Outcome (Context × List Action)
unfolding send_event
handle connect sent ctx Incoming.sta_start =
    if connect then ok (ctx, Action.connects ∷ []) else abort
handle connect sent ctx Incoming.sta_disconnected =
    if ltb ctx.connection_retry_count connect_maximum_retry
    then ok (
      record { is_connected = false; connection_retry_count = ctx.connection_retry_count + 1 },
      Action.connects ∷ [],
    )
    else ok (record ctx { is_connected = false }, [])
handle connect sent ctx Incoming.sta_connected =
    ok (record { is_connected = true; connection_retry_count = 0 }, [])
handle connect sent ctx Incoming.wifi_other = ok (ctx, [])
handle connect sent ctx Incoming.sta_got_ip = do
  acts ← send_event sent (event_code WifiEvent.sta_got_ip) 0
  ok (ctx, acts)
handle connect sent ctx Incoming.sta_lost_ip = do
  acts ← send_event sent (event_code WifiEvent.sta_lost_ip) 0
  ok (ctx, acts)
handle connect sent ctx Incoming.ap_sta_ip_assigned = do
  acts ← send_event sent (event_code WifiEvent.ap_ip_assigned) 0
  ok (ctx, acts)
handle connect sent ctx Incoming.ip_other = ok (ctx, [])

-- The handler called with one event after the other, while the calls it makes succeed.
unfoldable pub handle_all : Context → List Incoming → Outcome (Context × List Action)
unfolding handle
handle_all ctx [] = ok (ctx, [])
handle_all ctx (e ∷ es) = do
  (ctx', acts) ← handle true ErrorCode.success ctx e
  (ctx'', rest) ← handle_all ctx' es
  ok (ctx'', acts ++ rest)

-- `WiFi_StopSta`: the two results are those of esp_wifi_disconnect and esp_wifi_stop; the first
-- call is made only while connected.
pub stop_sta : (disconnected stopped : ErrorCode) → Context → ErrorCode
stop_sta disconnected stopped ctx =
    if ctx.is_connected
    then (if is_success disconnected then stopped else disconnected)
    else stopped
