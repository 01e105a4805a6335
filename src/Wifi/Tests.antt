-- ===== src/Wifi/Tests.antt =====
-- Addresses at concrete inputs.
use univr_info_workshop.Common.{◌≡◌, refl}
use univr_info_workshop.Wifi.{make_ipv4}

-- 192.168.4.1.
home : (make_ipv4 192 168 4 1).value ≡ 0x0104a8c0
unfolding make_ipv4
home = refl
