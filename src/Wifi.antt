-- ===== src/Wifi.antt =====
-- main/src/adapter/wifi.h: addresses, the enumerations, and the events that a Wi-Fi driver sends to
-- its queue.
pub mod Addresses
mod Tests
use univr_info_workshop.Common.{ℕ, ◌+◌, ◌*◌, ◌/◌, ◌%◌, ◌^◌, Bool, List, [], ◌∷◌, ◌==◌}

-- `IPv4Address`: the union is kept as its `value`; `bytes` is its other view, on a little-endian
-- machine.
pub record Ipv4Address : Type 0 where
  pub value : ℕ

abbrev pub address_bytes : Ipv4Address → List ℕ
address_bytes a =
    a.value % 256 ∷ a.value / 2 ^ 8 % 256 ∷ a.value / 2 ^ 16 % 256 ∷ a.value / 2 ^ 24 % 256 ∷ []

-- `IPV4_EQ`.
abbrev pub ipv4_eq : Ipv4Address → Ipv4Address → Bool
ipv4_eq a b = a.value == b.value

-- `mkIPv4`, whose arguments are converted to bytes.
pub make_ipv4 : (a b c d : ℕ) → Ipv4Address
make_ipv4 a b c d = record {
  value = a % 256 + b % 256 * 2 ^ 8 + c % 256 * 2 ^ 16 + d % 256 * 2 ^ 24;
}

-- `WiFiRegulatorDomain`.
pub data WifiRegulatorDomain : Type 0 where
  undefined fcc etsi telec kcc srrc : WifiRegulatorDomain

abbrev pub domain_code : WifiRegulatorDomain → ℕ
domain_code WifiRegulatorDomain.undefined = 0
domain_code WifiRegulatorDomain.fcc = 1
domain_code WifiRegulatorDomain.etsi = 2
domain_code WifiRegulatorDomain.telec = 3
domain_code WifiRegulatorDomain.kcc = 4
domain_code WifiRegulatorDomain.srrc = 5

-- `WiFiSecurityType`.
pub data WifiSecurityType : Type 0 where
  open_network wep wpa_psk wpa2_psk wpa_wpa2_psk : WifiSecurityType
  wpa3_psk wpa2_wpa3_psk wpa2_enterprise unsupported : WifiSecurityType

abbrev pub security_code : WifiSecurityType → ℕ
security_code WifiSecurityType.open_network = 0
security_code WifiSecurityType.wep = 1
security_code WifiSecurityType.wpa_psk = 2
security_code WifiSecurityType.wpa2_psk = 3
security_code WifiSecurityType.wpa_wpa2_psk = 4
security_code WifiSecurityType.wpa3_psk = 5
security_code WifiSecurityType.wpa2_wpa3_psk = 6
security_code WifiSecurityType.wpa2_enterprise = 7
security_code WifiSecurityType.unsupported = 0xff

-- `IPv4Config`; 0 asks for DHCP.
pub record Ipv4Config : Type 0 where
  pub address : Ipv4Address
  pub netmask : Ipv4Address
  pub gateway : Ipv4Address
  pub dns : Ipv4Address

abbrev pub wifi_ssid_max_length : ℕ
wifi_ssid_max_length = 32

abbrev pub wifi_password_max_length : ℕ
wifi_password_max_length = 64

-- `WiFiNetwork`; the two texts are arrays one byte longer than the longest text.
pub record WifiNetwork : Type 0 where
  pub regulator_domain : WifiRegulatorDomain
  pub security_type : WifiSecurityType
  pub ssid : List ℕ
  pub passphrase : List ℕ
  pub ipv4 : Ipv4Config

-- `WiFiEvent`.
pub data WifiEvent : Type 0 where
  sta_connected sta_disconnected sta_got_ip sta_lost_ip ap_ip_assigned : WifiEvent

-- The number of an event.
unfoldable pub event_code : WifiEvent → ℕ
event_code WifiEvent.sta_connected = 0xff
event_code WifiEvent.sta_disconnected = 0x100
event_code WifiEvent.sta_got_ip = 0x101
event_code WifiEvent.sta_lost_ip = 0x102
event_code WifiEvent.ap_ip_assigned = 0x103
