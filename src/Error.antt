-- ===== src/Error.antt =====
-- main/src/core/error.h: the error codes, their numbers and their names.
pub mod Names
mod Tests
use univr_info_workshop.Common.{
  ℕ, ◌-◌, ◌^◌, ◌≡◌, ◌≢◌, refl, Bool, true, false, String, ◌==◌, if◌then◌else◌,
}

-- `enum ErrorCode`.
pub data ErrorCode : Type 0 where
  success : ErrorCode
  failure : ErrorCode
  ignored : ErrorCode
  error_invalid_state : ErrorCode
  error_invalid_arguments : ErrorCode
  error_no_memory : ErrorCode
  error_assertion_failed : ErrorCode
  error_unreachable_code : ErrorCode
  error_resource_not_available : ErrorCode
  error_crc : ErrorCode
  error_timeout : ErrorCode
  error_not_implemented : ErrorCode
  error_not_found : ErrorCode
  error_os : ErrorCode
  error_network : ErrorCode
  error_ble : ErrorCode
  error_mqtt : ErrorCode

-- The test `error == SUCCESS`.
abbrev pub is_success : ErrorCode → Bool
is_success ErrorCode.success = true
is_success _ = false

pub is_success-eq_false : (e : ErrorCode) → e ≢ ErrorCode.success → is_success e ≡ false
is_success-eq_false ErrorCode.success h = absurd (h refl)
is_success-eq_false _ h = refl

-- The number of a code, as the bit pattern of a 32-bit `int`: -1 is `2 ^ 32 - 1`.
unfoldable pub value : ErrorCode → ℕ
value ErrorCode.success = 0
value ErrorCode.failure = 2 ^ 32 - 1
value ErrorCode.ignored = 2 ^ 32 - 2
value ErrorCode.error_invalid_state = 1
value ErrorCode.error_invalid_arguments = 2
value ErrorCode.error_no_memory = 3
value ErrorCode.error_assertion_failed = 4
value ErrorCode.error_unreachable_code = 5
value ErrorCode.error_resource_not_available = 6
value ErrorCode.error_crc = 7
value ErrorCode.error_timeout = 8
value ErrorCode.error_not_implemented = 9
value ErrorCode.error_not_found = 10
value ErrorCode.error_os = 0x1000
value ErrorCode.error_network = 0x2000
value ErrorCode.error_ble = 0x3000
value ErrorCode.error_mqtt = 0x4000

-- `ErrorToString`, on the bit pattern of its argument: the `switch` with its default.
unfoldable pub error_to_string : ℕ → String
unfolding value
error_to_string n =
    if n == value ErrorCode.success
    then "SUCCESS"
    else if n == value ErrorCode.failure
    then "FAILURE"
    else if n == value ErrorCode.ignored
    then "IGNORED"
    else if n == value ErrorCode.error_invalid_state
    then "ERROR_INVALID_STATE"
    else if n == value ErrorCode.error_invalid_arguments
    then "ERROR_INVALID_ARGUMENTS"
    else if n == value ErrorCode.error_no_memory
    then "ERROR_NO_MEMORY"
    else if n == value ErrorCode.error_assertion_failed
    then "ERROR_ASSERTION_FAILED"
    else if n == value ErrorCode.error_unreachable_code
    then "ERROR_UNREACHABLE_CODE"
    else if n == value ErrorCode.error_resource_not_available
    then "ERROR_RESOURCE_NOT_AVAILABLE"
    else if n == value ErrorCode.error_crc
    then "ERROR_CRC"
    else if n == value ErrorCode.error_timeout
    then "ERROR_TIMEOUT"
    else if n == value ErrorCode.error_not_implemented
    then "ERROR_NOT_IMPLEMENTED"
    else if n == value ErrorCode.error_not_found
    then "ERROR_NOT_FOUND"
    else if n == value ErrorCode.error_os
    then "ERROR_OS"
    else if n == value ErrorCode.error_ble
    then "ERROR_BLE"
    else if n == value ErrorCode.error_network
    then "ERROR_NETWORK"
    else if n == value ErrorCode.error_mqtt
    then "ERROR_MQTT"
    else "UNKNOWN"
