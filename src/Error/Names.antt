-- ===== src/Error/Names.antt =====
-- Each error code has a number and a printed name of its own.
use text.Mathlib.Text.{◌==◌ as str_eq}
use univr_info_workshop.Common.{◌≡◌, refl, String, Option, none, some, if◌then◌else◌}
use univr_info_workshop.Error.{ErrorCode, value, error_to_string}

pub ErrorCode-discrete : Discrete ErrorCode
ErrorCode-discrete = hlevel

-- The code that a name stands for, an independent reading of the table.
pub of_name : String → Option ErrorCode
of_name s =
    if str_eq s "SUCCESS"
    then some ErrorCode.success
    else if str_eq s "FAILURE"
    then some ErrorCode.failure
    else if str_eq s "IGNORED"
    then some ErrorCode.ignored
    else if str_eq s "ERROR_INVALID_STATE"
    then some ErrorCode.error_invalid_state
    else if str_eq s "ERROR_INVALID_ARGUMENTS"
    then some ErrorCode.error_invalid_arguments
    else if str_eq s "ERROR_NO_MEMORY"
    then some ErrorCode.error_no_memory
    else if str_eq s "ERROR_ASSERTION_FAILED"
    then some ErrorCode.error_assertion_failed
    else if str_eq s "ERROR_UNREACHABLE_CODE"
    then some ErrorCode.error_unreachable_code
    else if str_eq s "ERROR_RESOURCE_NOT_AVAILABLE"
    then some ErrorCode.error_resource_not_available
    else if str_eq s "ERROR_CRC"
    then some ErrorCode.error_crc
    else if str_eq s "ERROR_TIMEOUT"
    then some ErrorCode.error_timeout
    else if str_eq s "ERROR_NOT_IMPLEMENTED"
    then some ErrorCode.error_not_implemented
    else if str_eq s "ERROR_NOT_FOUND"
    then some ErrorCode.error_not_found
    else if str_eq s "ERROR_OS"
    then some ErrorCode.error_os
    else if str_eq s "ERROR_NETWORK"
    then some ErrorCode.error_network
    else if str_eq s "ERROR_BLE"
    then some ErrorCode.error_ble
    else if str_eq s "ERROR_MQTT"
    then some ErrorCode.error_mqtt
    else none

-- Printing a code and reading the name back gives the code.
pub of_name-error_to_string : (e : ErrorCode) → of_name (error_to_string (value e)) ≡ some e
unfolding error_to_string of_name
of_name-error_to_string ErrorCode.success = refl
of_name-error_to_string _ = refl
