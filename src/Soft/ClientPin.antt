-- ===== src/Soft/ClientPin.antt =====
-- crates/fidoh-transport-soft/src/auth.rs: the clientPIN state machine of the soft token.
pub mod Agreement
pub mod Exchange
pub mod Ends
pub mod Lockout
mod Examples
use fidoh.Base.{
  ℕ, zero, suc, ◌+◌, ◌-◌, ◌==◌, leb, if◌then◌else◌, Bool, true, false, not, ◌||◌, List, [], ◌∷◌,
  ◌++◌, length, take, bytes_eq, Outcome, ok, err, Option, none, some,
}
use fidoh.Core.Status.{
  StatusCode, invalid_command, invalid_parameter, missing_parameter, key_store_full, pin_invalid,
  pin_blocked, pin_auth_invalid, pin_auth_blocked, pin_not_set,
}
use fidoh.Core.Cbor.{pos, negsuc, CborValue, int, bytes, map, Entries, end, entry}
use fidoh.Core.Messages.Cose.{int_eq}
use fidoh.Core.Messages.Pin.{
  PinUvAuthProtocol, one, two, other, is_supported_by, PinUvAuthParam, ClientPinSubCommand,
  get_pin_retries, get_key_agreement, get_pin_token,
  get_pin_uv_auth_token_using_pin_with_permissions, ClientPinRequest, ClientPinResponse,
}
use fidoh.Core.Crypto.{
  PinCryptoError, Primitives, SharedSecret, derive, authenticate, encrypt, decrypt,
}

-- `MAX_PIN_RETRIES` and `DEFAULT_PIN_PROTOCOLS`.
abbrev pub max_pin_retries : ℕ
max_pin_retries = 8

abbrev pub default_pin_protocols : List PinUvAuthProtocol
default_pin_protocols = two ∷ one ∷ []

pub record ClientPinKnobs : Type 0 where
  pub wrong_protocol_echo : Bool
  pub pin_echo_decrypt : Bool

-- A register, with its secret key in `K`.
pub record PinAgreement (K : Type 0) : Type 0 where
  pub protocol : Option PinUvAuthProtocol
  pub secret : Option K
  pub public_cose_key : Option CborValue
  pub pin_token : Option (List ℕ)

-- `PinAgreement::new`.
abbrev pub empty_agreement : {K : Type 0} → PinAgreement K
empty_agreement = record {
  protocol = none;
  secret = none;
  public_cose_key = none;
  pin_token = none;
}

-- `key_agreement` is an array of two registers.
pub record ClientPinState (K : Type 0) : Type 0 where
  pub pin_hash : Option (List ℕ)
  pub retries : ℕ
  pub consecutive_mismatches : ℕ
  pub key_agreement : PinAgreement K × PinAgreement K
  pub power_cycle_locked : Bool

-- The members of `SoftAuthenticator` that clientPIN works on.
pub record SoftPin (K : Type 0) : Type 0 where
  pub client_pin : Option (ClientPinState K)
  pub configured_pin_protocols : Option (List PinUvAuthProtocol)
  pub client_pin_knobs : ClientPinKnobs

-- `ClientPinResponse::default()`.
abbrev pub default_response : ClientPinResponse
default_response = record {
  key_agreement = none;
  pin_uv_auth_token = none;
  pin_retries = none;
  uv_retries = none;
}

-- `matches!(request.protocol, One | Two)`.
unfoldable pub is_implemented : PinUvAuthProtocol → Bool
is_implemented one = true
is_implemented two = true
is_implemented (other v) = false

-- The protocol that a key agreement is recorded under.
unfoldable pub record_protocol : ClientPinKnobs → PinUvAuthProtocol → PinUvAuthProtocol
record_protocol knobs one = if knobs.wrong_protocol_echo then two else one
record_protocol knobs p = p

unfoldable pub swapped : PinUvAuthProtocol → PinUvAuthProtocol
swapped one = two
swapped p = one

module _ {K : Type 0} where
  -- The register at `protocol_index`, read and replaced.
  unfoldable pub register : PinUvAuthProtocol → ClientPinState K → PinAgreement K
  register one s = s.key_agreement.0
  register p s = s.key_agreement.1

  unfoldable pub set_register :
      PinUvAuthProtocol → PinAgreement K → ClientPinState K → ClientPinState K
  set_register one agree s = record s { key_agreement = (agree, s.key_agreement.1) }
  set_register p agree s = record s { key_agreement = (s.key_agreement.0, agree) }

  -- The counters behind a decrement, behind a mismatch, and behind a match.
  unfoldable pub spent : ClientPinState K → ClientPinState K
  spent s = record s { retries = s.retries - 1 }

  unfoldable pub mismatched : ClientPinState K → ClientPinState K
  mismatched s = record s {
    consecutive_mismatches = s.consecutive_mismatches + 1;
    power_cycle_locked = s.power_cycle_locked || leb 3 (s.consecutive_mismatches + 1);
  }

  unfoldable pub restored : ClientPinState K → ClientPinState K
  restored s = record s { retries = max_pin_retries; consecutive_mismatches = 0 }

  -- `power_cycle`, `clear_pin` and `pin_retries`.
  on_client_pin : (ClientPinState K → ClientPinState K) → SoftPin K → SoftPin K
  on_client_pin f a = record a {
    client_pin = elim a.client_pin [ none ↦ none | some s ↦ some (f s) ];
  }

  unfoldable pub clear_pin : SoftPin K → SoftPin K
  unfolding on_client_pin
  clear_pin a = on_client_pin (λ s. record (restored s) { pin_hash = none }) a

  unfoldable pub power_cycle : SoftPin K → SoftPin K
  unfolding on_client_pin
  power_cycle a =
      on_client_pin (λ s. record s { power_cycle_locked = false; consecutive_mismatches = 0 }) a

  abbrev pub pin_retries : SoftPin K → Option ℕ
  pin_retries a = elim a.client_pin [ none ↦ none | some s ↦ some s.retries ]

  -- `advertised`.
  unfoldable pub advertised : SoftPin K → List PinUvAuthProtocol
  advertised a = elim a.configured_pin_protocols [
    | none ↦ default_pin_protocols
    | some protocols ↦ protocols
  ]

module _ {W K P : Type 0} (prim : Primitives W K P) where
  -- `pin_hash_of` and `set_pin`.
  unfoldable pub pin_hash_of : List ℕ → Option (List ℕ)
  pin_hash_of pin = some (take 16 (prim.sha256 pin))

  unfoldable pub with_pin : List ℕ → Option (ClientPinState K) → ClientPinState K
  with_pin pin (some s) = record (restored s) { pin_hash = pin_hash_of pin }
  with_pin pin none = record {
    pin_hash = pin_hash_of pin;
    retries = max_pin_retries;
    consecutive_mismatches = 0;
    key_agreement = (empty_agreement, empty_agreement);
    power_cycle_locked = false;
  }

  unfoldable pub set_pin : List ℕ → SoftPin K → SoftPin K
  set_pin pin a = record a { client_pin = some (with_pin pin a.client_pin) }
