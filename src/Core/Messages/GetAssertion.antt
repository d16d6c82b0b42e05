-- ===== src/Core/Messages/GetAssertion.antt =====
-- crates/fidoh-core/src/get_assertion.rs: the entities that requests and responses carry.
pub mod Request
pub mod Response
use fidoh.Base.{
  ℕ, ◌==◌, if◌then◌else◌, Bool, List, [], ◌∷◌, Outcome, ok, err, ◌>>=◌, Option, none, some,
  bytes_eq,
}
use fidoh.Core.Cbor.{CborValue, bytes, text, array, map, Entries, end, entry}
use fidoh.Core.Cbor.Decode.{DecodeError, type_mismatch}
use fidoh.Core.Messages.{
  Reads, ascii, bytes_member, text_member, text_array, required, entries_of, read_items,
  read_entries, by_text, items_of, text_entry,
}

pub data CredentialType : Type 0 where
  public_key : CredentialType

pub record PublicKeyCredentialDescriptor : Type 0 where
  pub type_field : CredentialType
  pub id : List ℕ
  pub transports : Option (List (List ℕ))

-- The local variables of `PublicKeyCredentialDescriptor::from_cbor`.
pub record DescriptorMembers : Type 0 where
  pub type_field : Option CredentialType
  pub id : Option (List ℕ)
  pub transports : Option (List (List ℕ))

unfoldable pub credential_type : CborValue → Reads CredentialType
credential_type (text t) =
    if bytes_eq t (ascii "public-key")
    then ok public_key
    else err (type_mismatch "credentialDescriptor[type]" "\"public-key\"")
credential_type v = err (type_mismatch "credentialDescriptor[type]" "\"public-key\"")

-- The arms of its loop.
unfoldable pub read_descriptor_member :
    List ℕ → CborValue → DescriptorMembers → Reads DescriptorMembers
read_descriptor_member key v m =
    if bytes_eq key (ascii "type")
    then (credential_type v >>= λ t. ok (record m { type_field = some t }))
    else if bytes_eq key (ascii "id")
    then (bytes_member v "credentialDescriptor[id]" >>= λ b. ok (record m { id = some b }))
    else if bytes_eq key (ascii "transports")
    then (text_array v "transports" >>= λ ts. ok (record m { transports = some ts }))
    else ok m

unfoldable pub checked_descriptor : DescriptorMembers → Reads PublicKeyCredentialDescriptor
checked_descriptor m = required m.type_field "credentialDescriptor[type]" >>= λ t.
    required m.id "credentialDescriptor[id]" >>= λ id.
    ok (record { type_field = t; id = id; transports = m.transports })

-- `PublicKeyCredentialDescriptor::from_cbor`.
unfoldable pub descriptor_from_cbor : CborValue → Reads PublicKeyCredentialDescriptor
descriptor_from_cbor value = entries_of value "credentialDescriptor" >>= λ entries.
    read_entries (by_text read_descriptor_member) entries
      (record { type_field = none; id = none; transports = none })
    >>= checked_descriptor

-- `PublicKeyCredentialDescriptor::to_cbor`.
unfoldable pub descriptor_to_cbor : PublicKeyCredentialDescriptor → CborValue
descriptor_to_cbor d = map (
    entry (text (ascii "type")) (text (ascii "public-key")) (
      entry (text (ascii "id")) (bytes d.id)
        (text_entry "transports" (λ ts. array (items_of text ts)) d.transports end)))

-- `descriptor_array`.
unfoldable pub descriptor_array : CborValue → Reads (List PublicKeyCredentialDescriptor)
descriptor_array (array items) = read_items descriptor_from_cbor items
descriptor_array v = err (type_mismatch "allowList" "array of PublicKeyCredentialDescriptor")

pub record PublicKeyCredentialUserEntity : Type 0 where
  pub id : List ℕ
  pub name : Option (List ℕ)
  pub display_name : Option (List ℕ)

-- The local variables of `PublicKeyCredentialUserEntity::from_cbor`.
pub record UserMembers : Type 0 where
  pub id : Option (List ℕ)
  pub name : Option (List ℕ)
  pub display_name : Option (List ℕ)

-- The arms of its loop.
unfoldable pub read_user_member : List ℕ → CborValue → UserMembers → Reads UserMembers
read_user_member key v m =
    if bytes_eq key (ascii "id")
    then (bytes_member v "user[id]" >>= λ b. ok (record m { id = some b }))
    else if bytes_eq key (ascii "name")
    then (text_member v "user[name]" >>= λ s. ok (record m { name = some s }))
    else if bytes_eq key (ascii "displayName")
    then (text_member v "user[displayName]" >>= λ s. ok (record m { display_name = some s }))
    else ok m

unfoldable pub checked_user : UserMembers → Reads PublicKeyCredentialUserEntity
checked_user m = required m.id "user[id]" >>= λ id.
    ok (record { id = id; name = m.name; display_name = m.display_name })

-- `PublicKeyCredentialUserEntity::from_cbor`.
unfoldable pub user_from_cbor : CborValue → Reads PublicKeyCredentialUserEntity
user_from_cbor value = entries_of value "user" >>= λ entries.
    read_entries (by_text read_user_member) entries
      (record { id = none; name = none; display_name = none })
    >>= checked_user

-- `PublicKeyCredentialUserEntity::to_cbor`.
unfoldable pub user_to_cbor : PublicKeyCredentialUserEntity → CborValue
user_to_cbor u = map (
    entry (text (ascii "id")) (bytes u.id)
      (text_entry "name" text u.name (text_entry "displayName" text u.display_name end)))
