-- ===== src/Core/Messages/GetAssertion/Response.antt =====
-- crates/fidoh-core/src/get_assertion.rs: the response.
use fidoh.Base.{
  ℕ, ◌==◌, ltb, if◌then◌else◌, Bool, true, false, ◌&&◌, List, Outcome, ok, err, ◌>>=◌, Option, none,
  some,
}
use fidoh.Core.Cbor.{pos, CborValue, int, bytes, map, bool, Entries, end, entry}
use fidoh.Core.Cbor.Encode.{EncodeError, encode}
use fidoh.Core.Cbor.Decode.{invalid_value}
use fidoh.Core.Messages.{
  Reads, bytes_member, bool_member, uint_member, required, entries_of, read_entries, by_number,
  member,
}
use fidoh.Core.Messages.GetAssertion.{
  PublicKeyCredentialDescriptor, descriptor_to_cbor, descriptor_from_cbor,
  PublicKeyCredentialUserEntity, user_to_cbor, user_from_cbor,
}

pub record GetAssertionResponse : Type 0 where
  pub credential : PublicKeyCredentialDescriptor
  pub auth_data : List ℕ
  pub signature : List ℕ
  pub user : Option PublicKeyCredentialUserEntity
  pub number_of_credentials : ℕ
  pub user_selected : Bool
  pub large_blob_key : Option (List ℕ)
  pub number_of_credentials_present : Bool
  pub user_selected_present : Bool

-- The local variables of `from_cbor`.
pub record ResponseMembers : Type 0 where
  pub credential : Option PublicKeyCredentialDescriptor
  pub auth_data : Option (List ℕ)
  pub signature : Option (List ℕ)
  pub user : Option PublicKeyCredentialUserEntity
  pub number_of_credentials : Option ℕ
  pub user_selected : Option Bool
  pub large_blob_key : Option (List ℕ)

-- The arms of its loop.
unfoldable pub read_response_member : ℕ → CborValue → ResponseMembers → Reads ResponseMembers
read_response_member key v m =
    if key == 0x01
    then (descriptor_from_cbor v >>= λ a. ok (record m { credential = some a }))
    else if key == 0x02
    then (bytes_member v "authData" >>= λ a. ok (record m { auth_data = some a }))
    else if key == 0x03
    then (bytes_member v "signature" >>= λ a. ok (record m { signature = some a }))
    else if key == 0x04
    then (user_from_cbor v >>= λ a. ok (record m { user = some a }))
    else if key == 0x05
    then (uint_member v "numberOfCredentials" >>= λ a.
        ok (record m { number_of_credentials = some a }))
    else if key == 0x06
    then (bool_member v "userSelected" >>= λ a. ok (record m { user_selected = some a }))
    else if key == 0x07
    then (bytes_member v "largeBlobKey" >>= λ a. ok (record m { large_blob_key = some a }))
    else ok m

abbrev pub is_some {ℓ} : {A : Type ℓ} → Option A → Bool
is_some none = false
is_some (some a) = true

abbrev pub unwrap_or {ℓ} : {A : Type ℓ} → Option A → A → A
unwrap_or none d = d
unwrap_or (some a) d = a

-- What `from_cbor` does behind its loop.
unfoldable pub checked_response : ResponseMembers → Reads GetAssertionResponse
checked_response m = required m.credential "credential" >>= λ credential.
    required m.auth_data "authData" >>= λ auth_data.
    required m.signature "signature" >>= λ signature.
    if is_some m.user_selected && ltb 1 (unwrap_or m.number_of_credentials 1)
    then err (invalid_value "userSelected")
    else ok (record {
      credential = credential;
      auth_data = auth_data;
      signature = signature;
      user = m.user;
      number_of_credentials = unwrap_or m.number_of_credentials 1;
      user_selected = unwrap_or m.user_selected false;
      large_blob_key = m.large_blob_key;
      number_of_credentials_present = is_some m.number_of_credentials;
      user_selected_present = is_some m.user_selected;
    })

abbrev pub no_response_members : ResponseMembers
no_response_members = record {
  credential = none;
  auth_data = none;
  signature = none;
  user = none;
  number_of_credentials = none;
  user_selected = none;
  large_blob_key = none;
}

-- `GetAssertionResponse::from_cbor`.
unfoldable pub response_from_cbor : CborValue → Reads GetAssertionResponse
response_from_cbor value = entries_of value "getAssertionResponse" >>= λ entries.
    read_entries (by_number read_response_member) entries no_response_members >>= checked_response

-- A member that is pushed when its flag says that it was present.
unfoldable pub if_present {ℓ} : {A : Type ℓ} → Bool → A → Option A
if_present true a = some a
if_present false a = none

-- The entries that `encode` pushes.
unfoldable pub response_entries : GetAssertionResponse → Entries
response_entries r = entry (int (pos 0x01)) (descriptor_to_cbor r.credential) (
    entry (int (pos 0x02)) (bytes r.auth_data) (
      entry (int (pos 0x03)) (bytes r.signature) (
        member 0x04 user_to_cbor r.user (
          member 0x05 (λ n. int (pos n))
            (if_present r.number_of_credentials_present r.number_of_credentials)
            (member 0x06 bool (if_present r.user_selected_present r.user_selected)
              (member 0x07 bytes r.large_blob_key end))))))

-- `GetAssertionResponse::encode`.
pub encode_response : GetAssertionResponse → Outcome EncodeError (List ℕ)
encode_response r = encode (map (response_entries r))
