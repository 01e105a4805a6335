-- ===== src/Error/Tests.antt =====
-- The names of error codes at concrete inputs.
use univr_info_workshop.Common.{◌≡◌, refl}
use univr_info_workshop.Error.{error_to_string}

-- A number that is no code.
no_code : error_to_string 11 ≡ "UNKNOWN"
unfolding error_to_string
no_code = refl
