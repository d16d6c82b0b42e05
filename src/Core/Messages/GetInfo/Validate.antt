-- ===== src/Core/Messages/GetInfo/Validate.antt =====
-- crates/fidoh-core/src/get_info.rs: `GetInfoResponse::validate`.
use Prim.Native.Nat.{Ordering, compare}
use Prim.Native.String.{String}
use fidoh.Base.{
  ℕ, ◌==◌, ltb, if◌then◌else◌, Bool, true, false, ◌&&◌, ◌||◌, List, [], ◌∷◌, map, length, ok, err,
  ◌>>=◌, Option, none, some,
}
use fidoh.Core.Cbor.{ℤ, pos, negsuc, CborValue}
use fidoh.Core.Cbor.Encode.{slice_cmp}
use fidoh.Core.Cbor.Decode.{invalid_value}
use fidoh.Core.Messages.{Reads, required, entries_of, read_entries, by_number}
use fidoh.Core.Messages.Pin.{to_u32}
use fidoh.Core.Messages.GetInfo.{
  InfoMembers, no_info_members, GetInfoResponse, PublicKeyCredentialParameter,
}
use fidoh.Core.Messages.GetInfo.Decode.{read_info_member}

-- The order of i64.
unfoldable pub int_cmp : ℤ → ℤ → Ordering
int_cmp (pos m) (pos n) = compare m n
int_cmp (pos m) (negsuc n) = Ordering.gt
int_cmp (negsuc m) (pos n) = Ordering.lt
int_cmp (negsuc m) (negsuc n) = compare n m

unfoldable pub is_equal : Ordering → Bool
is_equal Ordering.eq = true
is_equal o = false

module _ {A : Type 0} where
  -- `sort` and `sort_unstable`.
  unfoldable pub insert_sorted : (A → A → Ordering) → A → List A → List A
  insert_sorted cmp a [] = a ∷ []
  insert_sorted cmp a (b ∷ bs) =
      let rest = insert_sorted cmp a bs in
      elim (cmp a b) [ Ordering.gt ↦ b ∷ rest | _ ↦ a ∷ b ∷ bs ]

  unfoldable pub sort : (A → A → Ordering) → List A → List A
  sort cmp [] = []
  sort cmp (a ∷ as') = insert_sorted cmp a (sort cmp as')

  -- `sorted.windows(2).any(|w| w[0] == w[1])`.
  unfoldable pub has_equal_neighbours : (A → A → Ordering) → List A → Bool
  unfolding is_equal
  has_equal_neighbours cmp [] = false
  has_equal_neighbours cmp (a ∷ []) = false
  has_equal_neighbours cmp (a ∷ b ∷ bs) = is_equal (cmp a b) || has_equal_neighbours cmp (b ∷ bs)

  -- The test for duplicates.
  unfoldable pub has_duplicate : (A → A → Ordering) → List A → Bool
  has_duplicate cmp as' =
      let sorted = sort cmp as' in ltb 1 (length sorted) && has_equal_neighbours cmp sorted

  unfoldable pub is_empty : List A → Bool
  is_empty [] = true
  is_empty (a ∷ as') = false

  -- `non_empty`.
  unfoldable pub non_empty : Option (List A) → String → Reads (Option (List A))
  unfolding is_empty
  non_empty none name = ok none
  non_empty (some as') name = if is_empty as' then err (invalid_value name) else ok (some as')

-- `positive`.
unfoldable pub positive : Option ℕ → String → Reads (Option ℕ)
positive none name = ok none
positive (some n) name = if n == 0 then err (invalid_value name) else ok (some n)

-- `if let Some(v) = member { if v < least { return Err(..) } }`.
unfoldable pub at_least : ℕ → Option ℕ → String → Reads (Unit {0})
at_least least none name = ok tt
at_least least (some v) name = if ltb v least then err (invalid_value name) else ok tt

-- `if let Some(list) = member { if <duplicates> { return Err(..) } }`.
unfoldable pub no_duplicates :
    {A B : Type 0} → (B → B → Ordering) → (A → B) → Option (List A) → String → Reads (Unit {0})
no_duplicates cmp f none name = ok tt
no_duplicates cmp f (some list) name =
    if has_duplicate cmp (map f list) then err (invalid_value name) else ok tt

-- `aaguid.try_into()`.
unfoldable pub sixteen_bytes : List ℕ → Reads (List ℕ)
sixteen_bytes raw = if length raw == 16 then ok raw else err (invalid_value "aaguid")

-- The construction at the end.
abbrev pub accepted_response : List (List ℕ) → List ℕ → InfoMembers → GetInfoResponse
accepted_response versions aaguid m = record {
  versions = versions;
  extensions = m.extensions;
  aaguid = aaguid;
  options = m.options;
  max_msg_size = m.max_msg_size;
  pin_uv_auth_protocols = m.pin_uv_auth_protocols;
  max_credential_count_in_list = m.max_credential_count_in_list;
  max_credential_id_length = m.max_credential_id_length;
  transports = m.transports;
  algorithms = m.algorithms;
  max_serialized_large_blob_array = m.max_serialized_large_blob_array;
  force_pin_change = m.force_pin_change;
  min_pin_length = m.min_pin_length;
  firmware_version = m.firmware_version;
  max_cred_blob_length = m.max_cred_blob_length;
  max_rpids_for_set_min_pin_length = m.max_rpids_for_set_min_pin_length;
  preferred_platform_uv_attempts = m.preferred_platform_uv_attempts;
  uv_modality = m.uv_modality;
  certifications = m.certifications;
  remaining_discoverable_credentials = m.remaining_discoverable_credentials;
  vendor_prototype_config_commands = m.vendor_prototype_config_commands;
}

-- `validate`.
unfoldable pub validate : InfoMembers → Reads GetInfoResponse
validate m = required m.versions "versions" >>= λ versions. required m.aaguid "aaguid" >>= λ raw.
    sixteen_bytes raw >>= λ aaguid.
    non_empty m.pin_uv_auth_protocols "pinUvAuthProtocols" >>= λ protocols.
    no_duplicates compare to_u32 protocols "pinUvAuthProtocols" >>= λ u1.
    positive m.max_credential_count_in_list "maxCredentialCountInList" >>= λ count.
    positive m.max_credential_id_length "maxCredentialIdLength" >>= λ id_length.
    non_empty m.transports "transports" >>= λ transports.
    no_duplicates slice_cmp (λ t. t) transports "transports" >>= λ u2.
    non_empty m.algorithms "algorithms" >>= λ algorithms.
    no_duplicates int_cmp (λ (p : PublicKeyCredentialParameter). p.alg) algorithms "algorithms"
    >>= λ u3.
        at_least 1024 m.max_serialized_large_blob_array "maxSerializedLargeBlobArray" >>= λ u4.
        at_least 32 m.max_cred_blob_length "maxCredBlobLength" >>= λ u5.
        at_least 1 m.preferred_platform_uv_attempts "preferredPlatformUvAttempts" >>= λ u6. ok (
          accepted_response versions aaguid (record m {
            pin_uv_auth_protocols = protocols;
            max_credential_count_in_list = count;
            max_credential_id_length = id_length;
            transports = transports;
            algorithms = algorithms;
          }))

-- `GetInfoResponse::from_cbor`.
unfoldable pub info_from_cbor : CborValue → Reads GetInfoResponse
info_from_cbor value = entries_of value "getInfoResponse" >>= λ entries.
    read_entries (by_number read_info_member) entries no_info_members >>= validate
