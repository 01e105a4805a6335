-- ===== src/Esp32/Wifi/Station.antt =====
-- main/src/adapter/esp32/wifi.c: WiFi_Init and WiFi_StartSta, and Core_Init of
-- main/src/core/service_core.c, which calls them. What ESP-IDF answers is an argument; an esp_err_t
-- becomes an ErrorCode, as in CHECK_ERROR.
use univr_info_workshop.Common.{
  ap, ℕ, ◌+◌, ◌≡◌, true, Bool-cases, inl, inr, Bool, Option, none, some, List, ◌++◌, if◌then◌else◌,
  take, replicate, Outcome, ok, abort, ◌>>=◌, length, ◌-◌,
}
use univr_info_workshop.Error.{ErrorCode, is_success}
use univr_info_workshop.Wifi.{
  wifi_ssid_max_length, wifi_password_max_length, WifiNetwork, WifiRegulatorDomain,
  WifiSecurityType, Ipv4Address, Ipv4Config,
}

-- The two arrays of ESP-IDF's wifi_config_t that the driver fills.
pub record StaConfig : Type 0 where
  pub ssid : List ℕ
  pub password : List ℕ

-- An array of `n` bytes with a text in front, as an initialiser fills it.
abbrev pub zero_filled : (n : ℕ) → List ℕ → List ℕ
zero_filled n text = text ++ replicate (n - length text) 0

-- `WiFi_Init`, but for the queue that it keeps: `netif` and `wifi` say whether the two calls under
-- ESP_ERROR_CHECK succeed, the others are the results of the calls under CHECK_ERROR.
unfoldable pub wifi_init :
    (nvs event_loop wifi_handler ip_handler : ErrorCode) (netif wifi : Bool) → Outcome ErrorCode
wifi_init nvs event_loop wifi_handler ip_handler netif wifi =
    if is_success nvs
    then (if is_success event_loop
        then (if is_success wifi_handler
            then (if is_success ip_handler
                then (if netif then (if wifi then ok ErrorCode.success else abort) else abort)
                else ok ip_handler)
            else ok wifi_handler)
        else ok event_loop)
    else ok nvs

-- `WiFi_StartSta`: its result, and the configuration that ESP-IDF is given, if it comes to that.
pub start_sta : (set_mode set_config start : ErrorCode) → WifiNetwork → ErrorCode × Option StaConfig
start_sta set_mode set_config start network =
    let config : StaConfig = record {
      ssid = take wifi_ssid_max_length network.ssid;
      password = take wifi_password_max_length network.passphrase;
    } in
    if is_success set_mode
    then (if is_success set_config then (start, some config) else (set_config, some config))
    else (set_mode, none)

-- The zeroed `IPv4Config`.
abbrev pub no_address : Ipv4Config
no_address =
    let zero : Ipv4Address = record { value = 0 } in
    record { address = zero; netmask = zero; gateway = zero; dns = zero }

-- `Core_Init`: neither result is looked at. `init` is what `WiFi_Init` does, and the names are
-- CONFIG_WIFI_SSID and CONFIG_WIFI_PASSWORD.
unfoldable pub core_init :
    (init : Outcome ErrorCode) (set_mode set_config start : ErrorCode) (ssid password : List ℕ)
    → Outcome (Option StaConfig)
unfolding start_sta
core_init init set_mode set_config start ssid password = do
  e ← init
  let (e', config) = start_sta set_mode set_config start (record {
    regulator_domain = WifiRegulatorDomain.undefined;
    security_type = WifiSecurityType.open_network;
    ssid = zero_filled (wifi_ssid_max_length + 1) ssid;
    passphrase = zero_filled (wifi_password_max_length + 1) password;
    ipv4 = no_address;
  })
  ok config

-- Whatever the other calls answer, `WiFi_Init` comes back if the two under ESP_ERROR_CHECK succeed.
wifi_init_returns :
    (nvs event_loop wifi_handler ip_handler : ErrorCode) {netif wifi : Bool}
    → netif ≡ true
    → wifi ≡ true
    → (e : ErrorCode) × (wifi_init nvs event_loop wifi_handler ip_handler netif wifi ≡ ok e)
unfolding wifi_init
wifi_init_returns nvs event_loop wifi_handler ip_handler up on =
    elim (Bool-cases (is_success nvs)) [
      | inr failed ↦ (nvs, rw failed)
      | inl n ↦ elim (Bool-cases (is_success event_loop)) [
        | inr failed ↦ (event_loop, rw (n, failed))
        | inl l ↦ elim (Bool-cases (is_success wifi_handler)) [
          | inr failed ↦ (wifi_handler, rw (n, l, failed))
          | inl w ↦ elim (Bool-cases (is_success ip_handler)) [
            | inr failed ↦ (ip_handler, rw (n, l, w, failed))
            | inl i ↦ (ErrorCode.success, rw (n, l, w, i, up, on))
          ]
        ]
      ]
    ]

-- `Core_Init` comes back whatever error the driver reports.
pub core_init_returns :
    (nvs event_loop wifi_handler ip_handler : ErrorCode) {netif wifi : Bool}
    (set_mode set_config start : ErrorCode) (ssid password : List ℕ)
    → netif ≡ true
    → wifi ≡ true
    → (config : Option StaConfig) × (core_init
          (wifi_init nvs event_loop wifi_handler ip_handler netif wifi)
          set_mode
          set_config
          start
          ssid
          password
        ≡ ok config)
unfolding core_init
core_init_returns nvs event_loop wifi_handler ip_handler set_mode set_config start ssid password up
      on =
    let (e, came) = wifi_init_returns nvs event_loop wifi_handler ip_handler up on in
    (_, ap (λ o. core_init o set_mode set_config start ssid password) came)
