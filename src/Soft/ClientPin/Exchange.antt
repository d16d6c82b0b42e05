-- ===== src/Soft/ClientPin/Exchange.antt =====
-- crates/fidoh-transport-soft/src/auth.rs: `client_pin_exchange`, by its branches.
use fidoh.Base.{
  ℕ, ◌==◌, if◌then◌else◌, Bool, false, not, ◌||◌, List, [], bytes_eq, Outcome, ok, err, Option,
  none, some,
}
use fidoh.Core.Status.{
  StatusCode, invalid_command, invalid_parameter, missing_parameter, key_store_full, pin_invalid,
  pin_blocked, pin_auth_invalid, pin_auth_blocked, pin_not_set,
}
use fidoh.Core.Cbor.{pos, CborValue, int}
use fidoh.Core.Messages.Pin.{
  PinUvAuthProtocol, is_supported_by, PinUvAuthParam, ClientPinSubCommand, get_pin_retries,
  get_key_agreement, ClientPinRequest, ClientPinResponse,
}
use fidoh.Core.Crypto.{
  PinCryptoError, Primitives, SharedSecret, derive, authenticate, encrypt, decrypt,
}
use fidoh.Soft.ClientPin.{
  ClientPinKnobs, ClientPinState, PinAgreement, SoftPin, advertised, default_response,
  is_implemented, mismatched, record_protocol, register, restored, set_register, spent, swapped,
}
use fidoh.Soft.ClientPin.Agreement.{agreement_generate, decapsulate}

module _ {W K P : Type 0} (prim : Primitives W K P) where
  abbrev pub Reply : Type 0
  Reply = Outcome StatusCode ClientPinResponse × ClientPinState K × W

  -- The arm GetKeyAgreement of `client_pin_exchange`.
  unfoldable pub agreement_reply :
      ClientPinKnobs
      → PinUvAuthProtocol
      → ClientPinState K
      → Outcome StatusCode (PinAgreement K) × W
      → Reply
  agreement_reply knobs protocol s (err e, w) = (err key_store_full, s, w)
  agreement_reply knobs protocol s (ok made, w) =
      let agree = record made { protocol = some (record_protocol knobs protocol) } in
      let cose : CborValue = elim made.public_cose_key [ some c ↦ c | none ↦ int (pos 0) ] in
      (ok (record default_response { key_agreement = some cose }), set_register protocol agree s, w)

  -- The part of `client_pin_exchange` behind a match.
  unfoldable pub minted :
      PinUvAuthProtocol
      → SharedSecret
      → ClientPinState K
      → Outcome PinCryptoError (List ℕ) × W
      → Reply
  minted protocol shared s (err e, w) = (err key_store_full, s, w)
  minted protocol shared s (ok token, w) =
      let s' = set_register protocol (record (register protocol s) { pin_token = some token }) s in
      let (encrypted, w') = encrypt prim shared token w in
      elim encrypted [
        | err e ↦ (err key_store_full, s', w')
        | ok c ↦ (ok (record default_response { pin_uv_auth_token = some c }), s', w')
      ]

  -- The comparison with the stored hash.
  unfoldable pub compared :
      PinUvAuthProtocol → SharedSecret → (decrypted stored : List ℕ) → ClientPinState K → W → Reply
  compared protocol shared decrypted stored s w =
      if bytes_eq decrypted stored
      then minted protocol shared (restored s) (prim.fill_random 32 w)
      else (err pin_invalid, mismatched s, w)

  -- The check of a pinUvAuthParam.
  unfoldable pub is_foreign : SharedSecret → Option PinUvAuthParam → Bool
  is_foreign shared none = false
  is_foreign shared (some param) = not (bytes_eq param.bytes (authenticate prim shared [] []))

  -- The part behind the decrement of the counter.
  unfoldable pub decrypted_reply :
      ClientPinKnobs
      → ClientPinRequest
      → SharedSecret
      → (stored : List ℕ) → ClientPinState K
      → W
      → Reply
  decrypted_reply knobs request shared stored s w = elim request.pin_hash_enc [
    | none ↦ (err missing_parameter, s, w)
    | some enc ↦
        if knobs.pin_echo_decrypt
        then (err pin_auth_invalid, s, w)
        else elim (decrypt prim shared enc) [
          | err e ↦ (err pin_auth_invalid, s, w)
          | ok decrypted ↦ compared request.protocol shared decrypted stored s w
        ]
  ]

  unfoldable pub derive_protocol :
      ClientPinKnobs → PinUvAuthProtocol → PinAgreement K → PinUvAuthProtocol
  derive_protocol knobs p agree =
      if knobs.pin_echo_decrypt then swapped p else elim agree.protocol [ none ↦ p | some q ↦ q ]

  -- The part of `client_pin_exchange` on a PIN that is set and not blocked.
  unfoldable pub secret_reply :
      ClientPinKnobs → ClientPinRequest → (stored : List ℕ) → ClientPinState K → W → Reply
  secret_reply knobs request stored s w = elim request.key_agreement [
    | none ↦ (err missing_parameter, s, w)
    | some peer_key ↦ elim (decapsulate prim (register request.protocol s) peer_key) [
      | err e ↦ (err e, s, w)
      | ok z ↦
          let agree = register request.protocol s in
          let shared = derive prim z (derive_protocol knobs request.protocol agree) in
          if is_foreign shared request.pin_uv_auth_param
          then (err pin_auth_invalid, s, w)
          else decrypted_reply knobs request shared stored (spent s) w
    ]
  ]

  unfoldable pub token_reply : ClientPinKnobs → ClientPinRequest → ClientPinState K → W → Reply
  token_reply knobs request s w = elim s.pin_hash [
    | none ↦ (err pin_not_set, s, w)
    | some stored ↦
        if s.retries == 0
        then (err pin_blocked, s, w)
        else if s.power_cycle_locked
        then (err pin_auth_blocked, s, w)
        else secret_reply knobs request stored s w
  ]

  unfoldable pub sub_command_reply :
      ClientPinSubCommand → ClientPinKnobs → ClientPinRequest → ClientPinState K → W → Reply
  sub_command_reply get_pin_retries knobs request s w =
      (ok (record default_response { pin_retries = some s.retries }), s, w)
  sub_command_reply get_key_agreement knobs request s w =
      agreement_reply knobs request.protocol s (agreement_generate prim 8 w)
  sub_command_reply c knobs request s w = token_reply knobs request s w

  unfoldable pub state_reply : SoftPin K → ClientPinRequest → ClientPinState K → W → Reply
  state_reply a request s w =
      if not (is_implemented request.protocol)
        || not (is_supported_by request.protocol (advertised a))
      then (err invalid_parameter, s, w)
      else sub_command_reply request.sub_command a.client_pin_knobs request s w

  -- `SoftAuthenticator::client_pin_exchange`.
  unfoldable pub client_pin_exchange :
      ClientPinRequest → SoftPin K → W → Outcome StatusCode ClientPinResponse × SoftPin K × W
  client_pin_exchange request a w = elim a.client_pin [
    | none ↦ (err invalid_command, a, w)
    | some s ↦
        let (reply, s', w') = state_reply a request s w in
        (reply, record a { client_pin = some s' }, w')
  ]
