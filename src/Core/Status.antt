-- ===== src/Core/Status.antt =====
-- CTAP2 status codes: crates/fidoh-core/src/status.rs.
pub mod Codes
use fidoh.Base.{ℕ, ◌==◌, if◌then◌else◌, Bool, true, false}

pub data StatusCode : Type 0 where
  ok invalid_command invalid_parameter invalid_length invalid_seq timeout channel_busy : StatusCode
  lock_required invalid_channel cbor_unexpected_type invalid_cbor missing_parameter : StatusCode
  limit_exceeded fp_database_full large_blob_storage_full credential_excluded processing :
      StatusCode
  invalid_credential user_action_pending operation_pending no_operations : StatusCode
  unsupported_algorithm operation_denied key_store_full unsupported_option invalid_option :
      StatusCode
  keepalive_cancel no_credentials user_action_timeout not_allowed pin_invalid pin_blocked :
      StatusCode
  pin_auth_invalid pin_auth_blocked pin_not_set puat_required pin_policy_violation : StatusCode
  reserved_for_future_use request_too_large action_timeout up_required uv_blocked : StatusCode
  integrity_failure invalid_subcommand uv_invalid unauthorized_permission other spec_last :
      StatusCode
  extension_first extension_last vendor_first vendor_last : StatusCode
  unknown : ℕ → StatusCode

-- `StatusCode::from_u8`, its match arms tested in the order of the source.
unfoldable pub from_u8 : ℕ → StatusCode
from_u8 b =
    if b == 0x00
    then ok
    else if b == 0x01
    then invalid_command
    else if b == 0x02
    then invalid_parameter
    else if b == 0x03
    then invalid_length
    else if b == 0x04
    then invalid_seq
    else if b == 0x05
    then timeout
    else if b == 0x06
    then channel_busy
    else if b == 0x0a
    then lock_required
    else if b == 0x0b
    then invalid_channel
    else if b == 0x11
    then cbor_unexpected_type
    else if b == 0x12
    then invalid_cbor
    else if b == 0x14
    then missing_parameter
    else if b == 0x15
    then limit_exceeded
    else if b == 0x17
    then fp_database_full
    else if b == 0x18
    then large_blob_storage_full
    else if b == 0x19
    then credential_excluded
    else if b == 0x21
    then processing
    else if b == 0x22
    then invalid_credential
    else if b == 0x23
    then user_action_pending
    else if b == 0x24
    then operation_pending
    else if b == 0x25
    then no_operations
    else if b == 0x26
    then unsupported_algorithm
    else if b == 0x27
    then operation_denied
    else if b == 0x28
    then key_store_full
    else if b == 0x2b
    then unsupported_option
    else if b == 0x2c
    then invalid_option
    else if b == 0x2d
    then keepalive_cancel
    else if b == 0x2e
    then no_credentials
    else if b == 0x2f
    then user_action_timeout
    else if b == 0x30
    then not_allowed
    else if b == 0x31
    then pin_invalid
    else if b == 0x32
    then pin_blocked
    else if b == 0x33
    then pin_auth_invalid
    else if b == 0x34
    then pin_auth_blocked
    else if b == 0x35
    then pin_not_set
    else if b == 0x36
    then puat_required
    else if b == 0x37
    then pin_policy_violation
    else if b == 0x38
    then reserved_for_future_use
    else if b == 0x39
    then request_too_large
    else if b == 0x3a
    then action_timeout
    else if b == 0x3b
    then up_required
    else if b == 0x3c
    then uv_blocked
    else if b == 0x3d
    then integrity_failure
    else if b == 0x3e
    then invalid_subcommand
    else if b == 0x3f
    then uv_invalid
    else if b == 0x40
    then unauthorized_permission
    else if b == 0x7f
    then other
    else if b == 0xdf
    then spec_last
    else if b == 0xe0
    then extension_first
    else if b == 0xef
    then extension_last
    else if b == 0xf0
    then vendor_first
    else if b == 0xff
    then vendor_last
    else unknown b

-- `StatusCode::to_u8`.
pub to_u8 : StatusCode → ℕ
to_u8 ok = 0x00
to_u8 invalid_command = 0x01
to_u8 invalid_parameter = 0x02
to_u8 invalid_length = 0x03
to_u8 invalid_seq = 0x04
to_u8 timeout = 0x05
to_u8 channel_busy = 0x06
to_u8 lock_required = 0x0a
to_u8 invalid_channel = 0x0b
to_u8 cbor_unexpected_type = 0x11
to_u8 invalid_cbor = 0x12
to_u8 missing_parameter = 0x14
to_u8 limit_exceeded = 0x15
to_u8 fp_database_full = 0x17
to_u8 large_blob_storage_full = 0x18
to_u8 credential_excluded = 0x19
to_u8 processing = 0x21
to_u8 invalid_credential = 0x22
to_u8 user_action_pending = 0x23
to_u8 operation_pending = 0x24
to_u8 no_operations = 0x25
to_u8 unsupported_algorithm = 0x26
to_u8 operation_denied = 0x27
to_u8 key_store_full = 0x28
to_u8 unsupported_option = 0x2b
to_u8 invalid_option = 0x2c
to_u8 keepalive_cancel = 0x2d
to_u8 no_credentials = 0x2e
to_u8 user_action_timeout = 0x2f
to_u8 not_allowed = 0x30
to_u8 pin_invalid = 0x31
to_u8 pin_blocked = 0x32
to_u8 pin_auth_invalid = 0x33
to_u8 pin_auth_blocked = 0x34
to_u8 pin_not_set = 0x35
to_u8 puat_required = 0x36
to_u8 pin_policy_violation = 0x37
to_u8 reserved_for_future_use = 0x38
to_u8 request_too_large = 0x39
to_u8 action_timeout = 0x3a
to_u8 up_required = 0x3b
to_u8 uv_blocked = 0x3c
to_u8 integrity_failure = 0x3d
to_u8 invalid_subcommand = 0x3e
to_u8 uv_invalid = 0x3f
to_u8 unauthorized_permission = 0x40
to_u8 other = 0x7f
to_u8 spec_last = 0xdf
to_u8 extension_first = 0xe0
to_u8 extension_last = 0xef
to_u8 vendor_first = 0xf0
to_u8 vendor_last = 0xff
to_u8 (unknown b) = b

-- `StatusCode::is_success`.
pub is_success : StatusCode → Bool
is_success ok = true
is_success _ = false
