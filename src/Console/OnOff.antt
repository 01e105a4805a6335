-- ===== src/Console/OnOff.antt =====
-- The helpers of console.c for commands that switch something or report an outcome.
use univr_info_workshop.Common.{
  ◌≡◌, refl, Bool, true, false, Option, none, some, codes, if◌then◌else◌,
}
use univr_info_workshop.Console.{Bytes, strcasecmp}

-- `Console_RespondOnOff`: the text copied into the response.
pub respond_on_off : Bool → Bytes
respond_on_off value = if value then codes "ON" else codes "OFF"

-- `Console_ParseOnOff`; a missing request is `none`.
pub parse_on_off : Option Bytes → Bool
parse_on_off none = false
parse_on_off (some request) = strcasecmp request (codes "ON")

-- `Console_Respond`.
pub respond : Bool → Bytes
respond is_success = if is_success then codes "SUCCESS" else codes "FAIL"

-- `Console_RespondWithMessage`.
pub respond_with_message : Bytes → Bytes
respond_with_message message = message

-- A switch that is reported is read back; no other response of the helpers reads as ON.
pub parse_on_off-responses :
    (value : Bool)
    → (parse_on_off (some (respond_on_off value)) ≡ value)
      × (parse_on_off (some (respond value)) ≡ false)
      × (parse_on_off none ≡ false)
unfolding parse_on_off respond_on_off respond strcasecmp
parse_on_off-responses true = (refl, refl, refl)
parse_on_off-responses false = (refl, refl, refl)
