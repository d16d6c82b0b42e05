-- ===== src/Core/Messages/GetInfo/Wire.antt =====
-- crates/fidoh-core/src/get_info.rs: `GetInfoResponse::to_wire_cbor`.
use fidoh.Base.{ℕ, List, [], ◌∷◌, Bool, Outcome}
use fidoh.Core.Cbor.{pos, CborValue, int, bytes, text, array, map, bool, Entries, end, entry}
use fidoh.Core.Cbor.Encode.{EncodeError, encode}
use fidoh.Core.Messages.{ascii, items_of, member}
use fidoh.Core.Messages.Pin.{to_u32}
use fidoh.Core.Messages.GetInfo.{
  GetInfoResponse, AuthenticatorOptions, PublicKeyCredentialParameter,
}

texts : List (List ℕ) → CborValue
texts ts = array (items_of text ts)

number : ℕ → CborValue
number n = int (pos n)

option_entries : List (List ℕ × Bool) → Entries
option_entries [] = end
option_entries (e ∷ es) = entry (text e.0) (bool e.1) (option_entries es)

parameter_to_cbor : PublicKeyCredentialParameter → CborValue
parameter_to_cbor p = map (
    entry (text (ascii "type")) (text (ascii "public-key"))
      (entry (text (ascii "alg")) (int p.alg) end))

-- The entries that `to_wire_cbor` pushes, in its order; the encoder sorts them.
unfoldable pub info_entries : GetInfoResponse → Entries
unfolding texts number option_entries parameter_to_cbor
info_entries r = entry (number 0x01) (texts r.versions) (
    member 0x02 texts r.extensions (
      entry (number 0x03) (bytes r.aaguid) (
        member 0x04 (λ (o : AuthenticatorOptions). map (option_entries o.entries)) r.options
          (member 0x05 number r.max_msg_size (
            member 0x07 number r.max_credential_count_in_list (
              member 0x08 number r.max_credential_id_length (
                member 0x0b number r.max_serialized_large_blob_array (
                  member 0x0d number r.min_pin_length (
                    member 0x0e number r.firmware_version (
                      member 0x0f number r.max_cred_blob_length (
                        member 0x10 number r.max_rpids_for_set_min_pin_length (
                          member 0x11 number r.preferred_platform_uv_attempts (
                            member 0x12 number r.uv_modality (
                              member 0x14 number r.remaining_discoverable_credentials (
                                member 0x06 (λ ps. array (items_of (λ p. number (to_u32 p)) ps))
                                  r.pin_uv_auth_protocols
                                  (member 0x09 texts r.transports (
                                    member 0x0a (λ ps. array (items_of parameter_to_cbor ps))
                                      r.algorithms
                                      (member 0x0c bool r.force_pin_change (
                                        member 0x13 (λ v. v) r.certifications
                                          (member 0x15 (λ cs. array (items_of number cs))
                                            r.vendor_prototype_config_commands
                                            (end)))))))))))))))))))))

-- `to_wire_cbor`.
pub to_wire_cbor : GetInfoResponse → Outcome EncodeError (List ℕ)
to_wire_cbor r = encode (map (info_entries r))
