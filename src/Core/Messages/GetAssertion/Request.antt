-- ===== src/Core/Messages/GetAssertion/Request.antt =====
-- crates/fidoh-core/src/get_assertion.rs: the request.
use fidoh.Base.{
  ℕ, ◌==◌, ◌^◌, if◌then◌else◌, Bool, true, false, ◌&&◌, List, [], ◌∷◌, Outcome, ok, err, ◌>>=◌,
  Option, none, some, bytes_eq,
}
use fidoh.Core.Cbor.{pos, CborValue, int, bytes, text, array, map, bool, Entries, end, entry}
use fidoh.Core.Cbor.Encode.{
  EncodeError, invalid_request, uv_option_with_pin_uv_auth_param, empty_allow_list, encode,
}
use fidoh.Core.Messages.{
  Reads, ascii, bytes_member, text_member, bool_member, uint_member, below, required, entries_of,
  read_entries, by_number, by_text, items_of, member, text_entry,
}
use fidoh.Core.Messages.Pin.{
  PinUvAuthParam, PinUvAuthProtocol, from_u32, to_u32, param_to_cbor, param_from_cbor,
}
use fidoh.Core.Messages.GetAssertion.{
  PublicKeyCredentialDescriptor, descriptor_to_cbor, descriptor_array,
}

pub record GetAssertionOptions : Type 0 where
  pub up : Option Bool
  pub uv : Option Bool

pub record GetAssertionRequest : Type 0 where
  pub rp_id : List ℕ
  pub client_data_hash : List ℕ
  pub allow_list : Option (List PublicKeyCredentialDescriptor)
  pub extensions : Option CborValue
  pub options : Option GetAssertionOptions
  pub pin_uv_auth_param : Option PinUvAuthParam
  pub pin_uv_auth_protocol : Option PinUvAuthProtocol

-- `GetAssertionRequest::new`, which returns no error.
unfoldable pub new : List ℕ → List ℕ → Outcome EncodeError GetAssertionRequest
new rp_id client_data_hash = ok (record {
  rp_id = rp_id;
  client_data_hash = client_data_hash;
  allow_list = none;
  extensions = none;
  options = none;
  pin_uv_auth_param = none;
  pin_uv_auth_protocol = none;
})

-- An allow list, with an empty one as none.
unfoldable pub unless_empty :
    List PublicKeyCredentialDescriptor → Option (List PublicKeyCredentialDescriptor)
unless_empty [] = none
unless_empty (d ∷ ds) = some (d ∷ ds)

-- `GetAssertionRequest::with_allow_list`.
pub with_allow_list : GetAssertionRequest → List PublicKeyCredentialDescriptor → GetAssertionRequest
with_allow_list r list = record r { allow_list = unless_empty list }

abbrev pub is_some {ℓ} : {A : Type ℓ} → Option A → Bool
is_some none = false
is_some (some a) = true

unfoldable pub uv_set : Option GetAssertionOptions → Bool
uv_set none = false
uv_set (some o) = is_some o.uv

-- `GetAssertionRequest::validate`.
unfoldable pub validate : GetAssertionRequest → Outcome EncodeError (Unit {0})
unfolding uv_set
validate r =
    if uv_set r.options && is_some r.pin_uv_auth_param
    then err (invalid_request uv_option_with_pin_uv_auth_param)
    else ok tt

unfoldable pub options_to_cbor : GetAssertionOptions → CborValue
options_to_cbor o = map (text_entry "up" bool o.up (text_entry "uv" bool o.uv end))

-- The entries that `encode` pushes.
unfoldable pub request_entries : GetAssertionRequest → Entries
request_entries r = entry (int (pos 0x01)) (text r.rp_id) (
    entry (int (pos 0x02)) (bytes r.client_data_hash) (
      member 0x03 (λ ds. array (items_of descriptor_to_cbor ds)) r.allow_list
        (member 0x04 (λ v. v) r.extensions
          (member 0x05 options_to_cbor r.options (
            member 0x06 param_to_cbor r.pin_uv_auth_param
              (member 0x07 (λ p. int (pos (to_u32 p))) r.pin_uv_auth_protocol end))))))

unfoldable pub empty_list : Option (List PublicKeyCredentialDescriptor) → Bool
empty_list none = false
empty_list (some []) = true
empty_list (some (d ∷ ds)) = false

-- `GetAssertionRequest::encode`.
unfoldable pub encode_request : GetAssertionRequest → Outcome EncodeError (List ℕ)
unfolding empty_list
encode_request r = validate r >>= λ u.
    if empty_list r.allow_list
    then err (invalid_request empty_allow_list)
    else encode (map (request_entries r))

-- The local variables of `from_cbor`: the members of a request, of which two are not required yet.
pub record RequestMembers : Type 0 where
  pub rp_id : Option (List ℕ)
  pub client_data_hash : Option (List ℕ)
  pub allow_list : Option (List PublicKeyCredentialDescriptor)
  pub extensions : Option CborValue
  pub options : Option GetAssertionOptions
  pub pin_uv_auth_param : Option PinUvAuthParam
  pub pin_uv_auth_protocol : Option PinUvAuthProtocol

-- The loop over the options.
unfoldable pub read_request_option :
    List ℕ → CborValue → GetAssertionOptions → Reads GetAssertionOptions
read_request_option key v o =
    if bytes_eq key (ascii "up")
    then (bool_member v "options[up]" >>= λ b. ok (record o { up = some b }))
    else if bytes_eq key (ascii "uv")
    then (bool_member v "options[uv]" >>= λ b. ok (record o { uv = some b }))
    else ok o

unfoldable pub options_from_cbor : CborValue → Reads GetAssertionOptions
options_from_cbor value = entries_of value "options" >>= λ entries.
    read_entries (by_text read_request_option) entries (record { up = none; uv = none })

-- The arms of the loop of `from_cbor`.
unfoldable pub read_request_member : ℕ → CborValue → RequestMembers → Reads RequestMembers
read_request_member key v m =
    if key == 0x01
    then (text_member v "rpId" >>= λ a. ok (record m { rp_id = some a }))
    else if key == 0x02
    then (bytes_member v "clientDataHash" >>= λ a. ok (record m { client_data_hash = some a }))
    else if key == 0x03
    then (descriptor_array v >>= λ a. ok (record m { allow_list = unless_empty a }))
    else if key == 0x04
    then ok (record m { extensions = some v })
    else if key == 0x05
    then (options_from_cbor v >>= λ a. ok (record m { options = some a }))
    else if key == 0x06
    then (param_from_cbor v >>= λ a. ok (record m { pin_uv_auth_param = some a }))
    else if key == 0x07
    then (uint_member v "pinUvAuthProtocol" >>= λ n. below (2 ^ 32) n "pinUvAuthProtocol" >>= λ a.
        ok (record m { pin_uv_auth_protocol = some (from_u32 a) }))
    else ok m

unfoldable pub checked_request : RequestMembers → Reads GetAssertionRequest
checked_request m = required m.rp_id "rpId" >>= λ rp_id.
    required m.client_data_hash "clientDataHash" >>= λ client_data_hash. ok (record {
      rp_id = rp_id;
      client_data_hash = client_data_hash;
      allow_list = m.allow_list;
      extensions = m.extensions;
      options = m.options;
      pin_uv_auth_param = m.pin_uv_auth_param;
      pin_uv_auth_protocol = m.pin_uv_auth_protocol;
    })

abbrev pub no_request_members : RequestMembers
no_request_members = record {
  rp_id = none;
  client_data_hash = none;
  allow_list = none;
  extensions = none;
  options = none;
  pin_uv_auth_param = none;
  pin_uv_auth_protocol = none;
}

-- `GetAssertionRequest::from_cbor`.
unfoldable pub request_from_cbor : CborValue → Reads GetAssertionRequest
request_from_cbor value = entries_of value "getAssertionRequest" >>= λ entries.
    read_entries (by_number read_request_member) entries no_request_members >>= checked_request
