-- ===== src/Core/Messages/Examples.antt =====
-- Concrete messages, and what the theorems on the message models say of them.
use fidoh.Base.{ℕ, ◌≡◌, ◌↔◌, refl, arith, true, false, List, [], ◌∷◌, none, some, ok, replicate}
use fidoh.Core.Cbor.{
  CborValue, pos, int, bytes, text, array, map, bool, null, nil, cons, Entries, end, entry,
}
use Prim.Native.Nat.{compare}
use fidoh.Core.Messages.{
  ascii, read_entries, read_items, by_number, entries_of, required, text_array, text_item,
  bytes_member, uint_array, uint_member, below,
}
use fidoh.Core.Messages.Pin.{two, from_u32, to_u32, client_pin_from_cbor}
use fidoh.Core.Messages.GetInfo.{GetInfoResponse}
use fidoh.Core.Messages.GetInfo.Options.{options_from_cbor, read_option, insert_option}
use fidoh.Core.Messages.GetInfo.Decode.{read_info_member, protocols_of}
use fidoh.Core.Messages.GetInfo.Validate.{
  info_from_cbor, validate, sixteen_bytes, non_empty, is_empty, no_duplicates, has_duplicate, sort,
  insert_sorted, has_equal_neighbours, is_equal, positive, at_least,
}
use fidoh.Core.Messages.GetAssertion.{PublicKeyCredentialDescriptor, public_key}
use fidoh.Core.Messages.GetAssertion.Request.{
  GetAssertionRequest, request_from_cbor, request_entries, unless_empty,
}
use fidoh.Core.Messages.GetAssertion.Response.{
  GetAssertionResponse, response_from_cbor, response_entries,
}
use fidoh.Core.Messages.Ignored.{from_cbor-skips, IsUnknown, joined}
use fidoh.Core.Messages.RoundTrip.{response_round_trip, IsWireResponse}
use fidoh.Core.Messages.RequestTrip.{request_round_trip}
use fidoh.Core.Messages.Distinct.{IsDistinct, compare-IsOrder, has_duplicate-IsDistinct}
use fidoh.Core.Messages.Accepted.{IsAccepted, info_from_cbor-IsAccepted}

-- A key with a PIN and PIN/UV protocol two.
abbrev pub sample_info : GetInfoResponse
sample_info = record {
  versions = ascii "FIDO_2_0" ∷ [];
  extensions = none;
  aaguid = replicate 16 0;
  options = some (record { entries = (ascii "clientPin", true) ∷ [] });
  max_msg_size = none;
  pin_uv_auth_protocols = some (two ∷ []);
  max_credential_count_in_list = none;
  max_credential_id_length = none;
  transports = none;
  algorithms = none;
  max_serialized_large_blob_array = none;
  force_pin_change = none;
  min_pin_length = none;
  firmware_version = none;
  max_cred_blob_length = none;
  max_rpids_for_set_min_pin_length = none;
  preferred_platform_uv_attempts = none;
  uv_modality = none;
  certifications = none;
  remaining_discoverable_credentials = none;
  vendor_prototype_config_commands = none;
}

abbrev pub sample_info_value : CborValue
sample_info_value = map (
    entry (int (pos 1)) (array (cons (text (ascii "FIDO_2_0")) nil)) (
      entry (int (pos 3)) (bytes (replicate 16 0)) (
        entry (int (pos 4)) (map (entry (text (ascii "clientPin")) (bool true) end))
          (entry (int (pos 6)) (array (cons (int (pos 2)) nil)) end))))

info_from_cbor-IsAccepted_example : IsAccepted sample_info
unfolding info_from_cbor entries_of read_entries by_number read_info_member text_array text_item
    read_items bytes_member options_from_cbor read_option insert_option uint_array uint_member below
    protocols_of from_u32 validate required sixteen_bytes non_empty is_empty no_duplicates
    has_duplicate sort insert_sorted has_equal_neighbours is_equal positive at_least
info_from_cbor-IsAccepted_example = info_from_cbor-IsAccepted sample_info_value sample_info refl

abbrev two_one : List ℕ
two_one = 2 ∷ 1 ∷ []

has_duplicate-IsDistinct_example : (has_duplicate compare two_one ≡ false) ↔ IsDistinct two_one
has_duplicate-IsDistinct_example = has_duplicate-IsDistinct compare compare-IsOrder two_one

abbrev pub sample_descriptor : PublicKeyCredentialDescriptor
sample_descriptor = record { type_field = public_key; id = 7 ∷ []; transports = none }

abbrev pub sample_response : GetAssertionResponse
sample_response = record {
  credential = sample_descriptor;
  auth_data = 1 ∷ 2 ∷ [];
  signature = 3 ∷ [];
  user = none;
  number_of_credentials = 1;
  user_selected = false;
  large_blob_key = none;
  number_of_credentials_present = false;
  user_selected_present = false;
}

sample_response-IsWireResponse : IsWireResponse sample_response
sample_response-IsWireResponse = record {
  counted = omega arith;
  count_default = λ h. refl;
  selected_default = λ h. refl;
  selected_alone = λ h. omega arith;
}

response_round_trip_example :
    response_from_cbor (map (response_entries sample_response)) ≡ ok sample_response
response_round_trip_example = response_round_trip sample_response sample_response-IsWireResponse

abbrev pub sample_request : GetAssertionRequest
sample_request = record {
  rp_id = ascii "rp.example";
  client_data_hash = 5 ∷ [];
  allow_list = some (sample_descriptor ∷ []);
  extensions = none;
  options = none;
  pin_uv_auth_param = some (record { bytes = 9 ∷ [] });
  pin_uv_auth_protocol = some two;
}

request_round_trip_example :
    request_from_cbor (map (request_entries sample_request)) ≡ ok sample_request
unfolding unless_empty from_u32 to_u32
request_round_trip_example = request_round_trip sample_request refl (omega arith, refl)

abbrev unknown_key : CborValue
unknown_key = int (pos 0x20)

abbrev pub members_behind : Entries
members_behind = entry (int (pos 1)) (array nil) end

from_cbor-skips_example :
    (IsUnknown 21 unknown_key
      → info_from_cbor (map (joined end (entry unknown_key null members_behind)))
        ≡ info_from_cbor (map (joined end members_behind)))
    × (IsUnknown 7 unknown_key
        → request_from_cbor (map (joined end (entry unknown_key null members_behind)))
          ≡ request_from_cbor (map (joined end members_behind)))
    × (IsUnknown 7 unknown_key
        → response_from_cbor (map (joined end (entry unknown_key null members_behind)))
          ≡ response_from_cbor (map (joined end members_behind)))
    × (IsUnknown 5 unknown_key
        → client_pin_from_cbor (map (joined end (entry unknown_key null members_behind)))
          ≡ client_pin_from_cbor (map (joined end members_behind)))
from_cbor-skips_example = from_cbor-skips unknown_key null end members_behind
