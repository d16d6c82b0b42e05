-- ===== src/Core/Ceremony.antt =====
-- crates/fidoh-core/src/error.rs: the ceremony's errors, and what of the transports they carry
-- (transport.rs). The children hold ceremony.rs.
pub mod Run
pub mod Hops
pub mod Input
pub mod Acquire
pub mod Exchange
pub mod Entry
pub mod Wire
pub mod Loop
pub mod Bound
pub mod Safety
pub mod Refusals
pub mod Owner
mod Examples
use Prim.Native.String.{String}
use fidoh.Base.{ℕ, List, Option, none, some}
use fidoh.Core.Status.{StatusCode}
use fidoh.Core.Time.{Phase}
use fidoh.Core.Errors.{CandidateDescriptor, Error}

-- `TransportError`; what its detail formats of other values is left out.
pub record TransportError : Type 0 where
  pub layer : String
  pub detail : String

pub data TransportKind : Type 0 where
  hid pcsc soft : TransportKind

pub record DiscoveryDiagnostic : Type 0 where
  pub kind : TransportKind
  pub cause : Error TransportError

pub data CeremonyError : Type 0 where
  no_device : List DiscoveryDiagnostic → CeremonyError
  ambiguous_device : List CandidateDescriptor → CeremonyError
  user_action_timeout user_cancelled no_credentials up_rejected : CeremonyError
  timeout : Phase → CeremonyError
  transport : TransportError → CeremonyError
  ctap : StatusCode → CeremonyError
  credential_mismatch : (returned : List ℕ) (allowed : List (List ℕ)) → CeremonyError
  incorrect_pin : (remaining_retries : Option ℕ) → CeremonyError
  pin_blocked pin_auth_blocked pin_not_set pin_required pin_provider_failed pin_too_long :
      CeremonyError

abbrev pub failure : String → String → CeremonyError
failure layer detail = CeremonyError.transport (record { layer = layer; detail = detail })

-- `CeremonyError::from_core`.
unfoldable pub from_core : Error TransportError → CeremonyError
from_core (Error.timeout phase) = CeremonyError.timeout phase
from_core (Error.ambiguous_device candidates) = CeremonyError.ambiguous_device candidates
from_core (Error.unknown_device id) = failure "device" "no device matches identifier"
from_core (Error.transport e) = CeremonyError.transport e
from_core Error.device_gone = failure "device" "device disappeared mid-operation"
from_core Error.channel_closed = failure "device" "device channel closed or no longer valid"
from_core Error.busy = failure "device" "device busy with another operation"

-- `CeremonyError::from_status`.
unfoldable pub from_status : StatusCode → Option CeremonyError
from_status StatusCode.ok = none
from_status StatusCode.no_credentials = some no_credentials
from_status StatusCode.invalid_credential = some no_credentials
from_status StatusCode.user_action_timeout = some user_action_timeout
from_status StatusCode.keepalive_cancel = some user_cancelled
from_status StatusCode.pin_invalid = some (incorrect_pin none)
from_status StatusCode.pin_blocked = some pin_blocked
from_status StatusCode.pin_auth_blocked = some pin_auth_blocked
from_status StatusCode.pin_not_set = some pin_not_set
from_status StatusCode.operation_denied = some up_rejected
from_status StatusCode.up_required = some up_rejected
from_status StatusCode.pin_auth_invalid = some up_rejected
from_status StatusCode.puat_required = some up_rejected
from_status StatusCode.pin_policy_violation = some up_rejected
from_status StatusCode.uv_blocked = some up_rejected
from_status status = some (ctap status)
