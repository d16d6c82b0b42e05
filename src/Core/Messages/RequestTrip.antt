-- ===== src/Core/Messages/RequestTrip.antt =====
-- What `GetAssertionRequest::encode` of get_assertion.rs writes is what `from_cbor` reads.
use fidoh.Base.{
  ℕ, ◌<◌, ◌^◌, lt→ltb, ◌≡◌, refl, arith, Bool, List, [], ◌∷◌, ok, Option, none, some, bytes_eq,
}
use fidoh.Core.Cbor.{pos, CborValue, int, array, map, Entries, end}
use fidoh.Core.Messages.{
  Reads, bytes_member, text_member, bool_member, uint_member, below, required, entries_of,
  read_items, read_entries, by_number, by_text, items_of, member, text_entry,
}
use fidoh.Core.Messages.Pin.{
  PinUvAuthParam, PinUvAuthProtocol, from_u32, to_u32, param_to_cbor, param_from_cbor,
}
use fidoh.Core.Messages.GetAssertion.{
  PublicKeyCredentialDescriptor, descriptor_to_cbor, descriptor_from_cbor, descriptor_array,
}
use fidoh.Core.Messages.GetAssertion.Request.{
  GetAssertionOptions, GetAssertionRequest, RequestMembers, unless_empty, options_to_cbor,
  request_entries, read_request_option, options_from_cbor, read_request_member, checked_request,
  request_from_cbor,
}
use fidoh.Core.Messages.RoundTrip.{descriptor_round_trip}

descriptors_back :
    (ds : List PublicKeyCredentialDescriptor)
    → read_items descriptor_from_cbor (items_of descriptor_to_cbor ds) ≡ ok ds
unfolding read_items items_of
descriptors_back [] = refl
descriptors_back (d ∷ ds) = rw (descriptor_round_trip d, descriptors_back ds) refl

abbrev some_options : Option Bool → Option Bool → GetAssertionOptions
some_options up uv = record { up = up; uv = uv }

options_back :
    (up uv : Option Bool)
    → options_from_cbor (options_to_cbor (some_options up uv)) ≡ ok (some_options up uv)
unfolding options_from_cbor options_to_cbor read_entries by_text read_request_option entries_of
    bool_member text_entry bytes_eq
options_back none none = refl
options_back none (some v) = refl
options_back (some u) none = refl
options_back (some u) (some v) = refl

-- An allow list that is not empty.
abbrev pub IsWireList : Option (List PublicKeyCredentialDescriptor) → Type 0
IsWireList none = Unit {0}
IsWireList (some ds) = unless_empty ds ≡ some ds

-- A u32 that stands under its own name: `other` is not used for 1 and 2.
abbrev pub IsWireProtocol : Option PinUvAuthProtocol → Type 0
IsWireProtocol none = Unit {0}
IsWireProtocol (some p) = (to_u32 p < 2 ^ 32) × (from_u32 (to_u32 p) ≡ p)

module _ (rp_id client_data_hash : List ℕ) where
  -- The members that are read so far.
  abbrev so_far :
      Option (List PublicKeyCredentialDescriptor)
      → Option CborValue
      → Option GetAssertionOptions
      → Option PinUvAuthParam
      → Option PinUvAuthProtocol
      → RequestMembers
  so_far allow extensions options param protocol = record {
    rp_id = some rp_id;
    client_data_hash = some client_data_hash;
    allow_list = allow;
    extensions = extensions;
    options = options;
    pin_uv_auth_param = param;
    pin_uv_auth_protocol = protocol;
  }

  abbrev read_on : Entries → RequestMembers → Reads RequestMembers
  read_on = read_entries (by_number read_request_member)

  list_read :
      (allow : Option (List PublicKeyCredentialDescriptor)) (later : Entries)
      → IsWireList allow
      → read_on
          (member 0x03 (λ ds. array (items_of descriptor_to_cbor ds)) allow later)
          (so_far none none none none none)
        ≡ read_on later (so_far allow none none none none)
  unfolding read_entries by_number read_request_member member descriptor_array
  list_read none later h = refl
  list_read (some ds) later h = rw (descriptors_back ds, h) refl

  extensions_read :
      (allow : Option (List PublicKeyCredentialDescriptor)) (extensions : Option CborValue)
      (later : Entries)
      → read_on (member 0x04 (λ v. v) extensions later) (so_far allow none none none none)
        ≡ read_on later (so_far allow extensions none none none)
  unfolding read_entries by_number read_request_member member
  extensions_read allow none later = refl
  extensions_read allow (some v) later = refl

  options_read :
      (allow : Option (List PublicKeyCredentialDescriptor)) (extensions : Option CborValue)
      (options : Option GetAssertionOptions) (later : Entries)
      → read_on (member 0x05 options_to_cbor options later) (so_far allow extensions none none none)
        ≡ read_on later (so_far allow extensions options none none)
  unfolding read_entries by_number read_request_member member
  options_read allow extensions none later = refl
  options_read allow extensions (some o) later = rw (options_back o.up o.uv) refl

  param_read :
      (allow : Option (List PublicKeyCredentialDescriptor)) (extensions : Option CborValue)
      (options : Option GetAssertionOptions) (param : Option PinUvAuthParam) (later : Entries)
      → read_on (member 0x06 param_to_cbor param later) (so_far allow extensions options none none)
        ≡ read_on later (so_far allow extensions options param none)
  unfolding read_entries by_number read_request_member member param_to_cbor param_from_cbor
      bytes_member
  param_read allow extensions options none later = refl
  param_read allow extensions options (some p) later = refl

  protocol_read :
      (allow : Option (List PublicKeyCredentialDescriptor)) (extensions : Option CborValue)
      (options : Option GetAssertionOptions) (param : Option PinUvAuthParam)
      (protocol : Option PinUvAuthProtocol)
      → IsWireProtocol protocol
      → read_on
          (member 0x07 (λ p. int (pos (to_u32 p))) protocol end)
          (so_far allow extensions options param none)
        ≡ ok (so_far allow extensions options param protocol)
  unfolding read_entries by_number read_request_member member uint_member below
  protocol_read allow extensions options param none h = refl
  protocol_read allow extensions options param (some p) h =
      rw (lt→ltb (to_u32 p) (2 ^ 64) (omega (arith, h.0)), lt→ltb (to_u32 p) (2 ^ 32) h.0, h.1) refl

-- Every request whose allow list, if any, is not empty, and whose protocol, if any, is a u32 under its
-- own name, is read back from the map that `encode` writes.
pub request_round_trip :
    (r : GetAssertionRequest)
    → IsWireList r.allow_list
    → IsWireProtocol r.pin_uv_auth_protocol
    → request_from_cbor (map (request_entries r)) ≡ ok r
unfolding request_from_cbor request_entries read_entries by_number read_request_member entries_of
    bytes_member text_member checked_request required
request_round_trip r listed named =
    rw
      (
        list_read r.rp_id r.client_data_hash r.allow_list _ listed,
        extensions_read r.rp_id r.client_data_hash r.allow_list r.extensions _,
        options_read r.rp_id r.client_data_hash r.allow_list r.extensions r.options _,
        param_read r.rp_id r.client_data_hash r.allow_list r.extensions r.options
            r.pin_uv_auth_param _,
        protocol_read r.rp_id r.client_data_hash r.allow_list r.extensions r.options
            r.pin_uv_auth_param r.pin_uv_auth_protocol named,
      )
      refl
