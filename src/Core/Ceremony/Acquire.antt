-- ===== src/Core/Ceremony/Acquire.antt =====
-- crates/fidoh-core/src/ceremony.rs: `acquire_pin_uv_auth_token`. Zeroizing a secret leaves no trace
-- in the model.
use Prim.Native.String.{String}
use fidoh.Base.{
  ℕ, ltb, if◌then◌else◌, Bool, true, false, not, List, [], ◌∷◌, length, take, Outcome, ok, err,
  Option, none, some,
}
use fidoh.Core.Messages.Pin.{
  PinUvAuthParam, PinUvAuthProtocol, one, two, other, is_supported_by, ClientPinSubCommand,
  get_key_agreement, get_pin_token, get_pin_uv_auth_token_using_pin_with_permissions, permission_ga,
  max_pin_bytes,
}
use fidoh.Core.Messages.GetInfo.{GetInfoResponse}
use fidoh.Core.Messages.GetInfo.Options.{option, pin_uv_auth_token}
use fidoh.Core.Ceremony.{CeremonyError, pin_provider_failed, pin_too_long, failure}
use fidoh.Core.Ceremony.Run.{Outside, PinCrypto, Run, pure, settle, outside_of, ◌>>=◌}
use fidoh.Core.Ceremony.Hops.{client_pin_hop}

or_fail : {A : Type 0} → Option A → CeremonyError → Outcome CeremonyError A
or_fail none e = err e
or_fail (some a) e = ok a

abbrev pub pin_failure : String → CeremonyError
pin_failure = failure "clientPIN"

-- The first advertised protocol that the library implements.
unfoldable pub first_implemented : List PinUvAuthProtocol → Option PinUvAuthProtocol
first_implemented [] = none
first_implemented (one ∷ ps) = some one
first_implemented (two ∷ ps) = some two
first_implemented (other v ∷ ps) = first_implemented ps

abbrev advertised : Option (List PinUvAuthProtocol) → List PinUvAuthProtocol
advertised none = []
advertised (some ps) = ps

-- Step 1: the selection of the protocol.
unfoldable pub selected_protocol :
    Option PinUvAuthProtocol → List PinUvAuthProtocol → Outcome CeremonyError PinUvAuthProtocol
unfolding or_fail
selected_protocol (some pinned) supported =
    if not (is_supported_by pinned supported)
    then err
        (pin_failure "pinned pinUvAuthProtocol is not among the authenticator's pinUvAuthProtocols")
    else ok pinned
selected_protocol none supported =
    or_fail (first_implemented supported) (pin_failure "no mutually supported pinUvAuthProtocol")

-- `provider.provide_pin()` and the check of the length.
checked_pin : Option (List ℕ) → Outcome CeremonyError (List ℕ)
checked_pin none = err pin_provider_failed
checked_pin (some pin) = if ltb max_pin_bytes (length pin) then err pin_too_long else ok pin

-- The sub-command, the permissions and the relying party of the token request.
token_sub_command : Bool → ClientPinSubCommand
token_sub_command true = get_pin_uv_auth_token_using_pin_with_permissions
token_sub_command false = get_pin_token

then_some : {A : Type 0} → Bool → A → Option A
then_some true a = some a
then_some false a = none

module _ {W K S : Type 0} (env : Outside W) (crypto : PinCrypto W K S) where
  -- `acquire_pin_uv_auth_token`, of the relying party and the hash of the client data.
  unfoldable pub acquire_pin_uv_auth_token :
      GetInfoResponse
      → List ℕ
      → List ℕ
      → Option PinUvAuthProtocol
      → Run W (PinUvAuthParam × PinUvAuthProtocol)
  unfolding or_fail checked_pin token_sub_command then_some
  acquire_pin_uv_auth_token info rp_id client_data_hash pinned =
      settle (selected_protocol pinned (advertised info.pin_uv_auth_protocols)) >>= λ selected.
      outside_of crypto.generate >>= λ generated.
      settle (or_fail generated (pin_failure "clientPIN key generation")) >>= λ platform.
      client_pin_hop env (record {
        protocol = selected;
        sub_command = get_key_agreement;
        key_agreement = some (crypto.cose_key platform);
        pin_uv_auth_param = none;
        pin_hash_enc = none;
        permissions = none;
        rp_id = none;
      })
      >>= λ ka_response.
          settle (
            or_fail ka_response.key_agreement
              (pin_failure "getKeyAgreement response carries no keyAgreement member"))
          >>= λ peer_key.
              settle (
                or_fail (crypto.encapsulate platform peer_key selected)
                  (pin_failure "clientPIN key agreement"))
              >>= λ shared. outside_of env.provide_pin >>= λ provided.
                  settle (checked_pin provided) >>= λ pin.
                  outside_of (crypto.encrypt shared (take 16 (crypto.sha256 pin))) >>= λ encrypted.
                  settle (or_fail encrypted (pin_failure "pinHashEnc encryption"))
                  >>= λ pin_hash_enc.
                      let puat = option info pin_uv_auth_token in
                      client_pin_hop env (record {
                        protocol = selected;
                        sub_command = token_sub_command puat;
                        key_agreement = some (crypto.cose_key platform);
                        pin_uv_auth_param = none;
                        pin_hash_enc = some pin_hash_enc;
                        permissions = then_some puat permission_ga;
                        rp_id = then_some puat rp_id;
                      })
                      >>= λ token_response.
                          settle (
                            or_fail token_response.pin_uv_auth_token (
                              pin_failure
                                "token request succeeded without a pinUvAuthToken member"))
                          >>= λ encrypted_token.
                              settle (
                                or_fail (crypto.decrypt shared encrypted_token)
                                  (pin_failure "pinUvAuthToken decryption"))
                              >>= λ token.
                                  let param =
                                    crypto.authenticate shared token
                                      (crypto.param_message client_data_hash) in
                                  pure (record { bytes = param }, selected)
