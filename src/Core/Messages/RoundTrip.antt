-- ===== src/Core/Messages/RoundTrip.antt =====
-- What the message models of get_assertion.rs write is what they read back.
use fidoh.Base.{
  ℕ, ◌<◌, ◌≤◌, ◌^◌, lt→ltb, ◌≡◌, refl, arith, Bool, true, false, List, [], ◌∷◌, ok, Option, none,
  some, bytes_eq,
}
use fidoh.Core.Cbor.{pos, int, bytes, text, map, bool, Entries, end}
use fidoh.Core.Messages.{
  Reads, bytes_member, text_member, bool_member, uint_member, below, text_array, text_item,
  required, entries_of, read_items, read_entries, by_number, by_text, items_of, member, text_entry,
}
use fidoh.Core.Messages.GetAssertion.{
  PublicKeyCredentialDescriptor, CredentialType, public_key, credential_type,
  read_descriptor_member, checked_descriptor, descriptor_to_cbor, descriptor_from_cbor,
  PublicKeyCredentialUserEntity, read_user_member, checked_user, user_to_cbor, user_from_cbor,
}
use fidoh.Core.Messages.GetAssertion.Response.{
  GetAssertionResponse, ResponseMembers, read_response_member, checked_response, response_from_cbor,
  if_present, response_entries,
}

texts_back :
    (ts : List (List ℕ)) (name : _) → read_items (text_item name) (items_of text ts) ≡ ok ts
unfolding read_items items_of text_item
texts_back [] name = refl
texts_back (t ∷ ts) name = rw (texts_back ts name) refl

abbrev a_descriptor :
    CredentialType → List ℕ → Option (List (List ℕ)) → PublicKeyCredentialDescriptor
a_descriptor t id transports = record { type_field = t; id = id; transports = transports }

descriptor_back :
    (t : CredentialType) (id : List ℕ) (transports : Option (List (List ℕ)))
    → descriptor_from_cbor (descriptor_to_cbor (a_descriptor t id transports))
      ≡ ok (a_descriptor t id transports)
unfolding descriptor_from_cbor descriptor_to_cbor read_entries by_text read_descriptor_member
    credential_type checked_descriptor entries_of required bytes_member text_array text_entry
    bytes_eq
descriptor_back public_key id none = refl
descriptor_back public_key id (some ts) = rw (texts_back ts "transports") refl

pub descriptor_round_trip :
    (d : PublicKeyCredentialDescriptor) → descriptor_from_cbor (descriptor_to_cbor d) ≡ ok d
descriptor_round_trip d = descriptor_back d.type_field d.id d.transports

abbrev a_user : List ℕ → Option (List ℕ) → Option (List ℕ) → PublicKeyCredentialUserEntity
a_user id name display_name = record { id = id; name = name; display_name = display_name }

user_back :
    (id : List ℕ) (name display_name : Option (List ℕ))
    → user_from_cbor (user_to_cbor (a_user id name display_name)) ≡ ok (a_user id name display_name)
unfolding user_from_cbor user_to_cbor read_entries by_text read_user_member checked_user entries_of
    required bytes_member text_member text_entry bytes_eq
user_back id none none = refl
user_back id none (some d) = refl
user_back id (some n) none = refl
user_back id (some n) (some d) = refl

pub user_round_trip : (u : PublicKeyCredentialUserEntity) → user_from_cbor (user_to_cbor u) ≡ ok u
user_round_trip u = user_back u.id u.name u.display_name

-- The responses that a map of members can stand for: a count below 2^64, the defaults where a member
-- is absent, and no userSelected next to a count above 1.
pub record IsWireResponse (r : GetAssertionResponse) : Type 0 where
  pub counted : r.number_of_credentials < 2 ^ 64
  pub count_default : r.number_of_credentials_present ≡ false → r.number_of_credentials ≡ 1
  pub selected_default : r.user_selected_present ≡ false → r.user_selected ≡ false
  pub selected_alone : r.user_selected_present ≡ true → r.number_of_credentials ≤ 1

module _ (credential : PublicKeyCredentialDescriptor) (auth_data signature : List ℕ) where
  -- The members that are read so far.
  abbrev so_far :
      Option PublicKeyCredentialUserEntity
      → Option ℕ
      → Option Bool
      → Option (List ℕ)
      → ResponseMembers
  so_far user count selected key = record {
    credential = some credential;
    auth_data = some auth_data;
    signature = some signature;
    user = user;
    number_of_credentials = count;
    user_selected = selected;
    large_blob_key = key;
  }

  abbrev read_on : Entries → ResponseMembers → Reads ResponseMembers
  read_on = read_entries (by_number read_response_member)

  user_read :
      (user : Option PublicKeyCredentialUserEntity) (later : Entries)
      → read_on (member 0x04 user_to_cbor user later) (so_far none none none none)
        ≡ read_on later (so_far user none none none)
  unfolding read_entries by_number read_response_member member
  user_read none later = refl
  user_read (some u) later = rw (user_round_trip u) refl

  count_read :
      (user : Option PublicKeyCredentialUserEntity) (present : Bool) (n : ℕ) (later : Entries)
      → n < 2 ^ 64
      → read_on
          (member 0x05 (λ n. int (pos n)) (if_present present n) later)
          (so_far user none none none)
        ≡ read_on later (so_far user (if_present present n) none none)
  unfolding read_entries by_number read_response_member member if_present uint_member below
  count_read user false n later h = refl
  count_read user true n later h = rw (lt→ltb n (2 ^ 64) h) refl

  selected_read :
      (user : Option PublicKeyCredentialUserEntity) (count : Option ℕ) (selected : Option Bool)
      (later : Entries)
      → read_on (member 0x06 bool selected later) (so_far user count none none)
        ≡ read_on later (so_far user count selected none)
  unfolding read_entries by_number read_response_member member bool_member
  selected_read user count none later = refl
  selected_read user count (some b) later = refl

  key_read :
      (user : Option PublicKeyCredentialUserEntity) (count : Option ℕ) (selected : Option Bool)
      (key : Option (List ℕ))
      → read_on (member 0x07 bytes key end) (so_far user count selected none)
        ≡ ok (so_far user count selected key)
  unfolding read_entries by_number read_response_member member bytes_member
  key_read user count selected none = refl
  key_read user count selected (some k) = refl

  abbrev a_response :
      Option PublicKeyCredentialUserEntity
      → ℕ
      → Bool
      → Option (List ℕ)
      → Bool
      → Bool
      → GetAssertionResponse
  a_response user n selected key counted chosen = record {
    credential = credential;
    auth_data = auth_data;
    signature = signature;
    user = user;
    number_of_credentials = n;
    user_selected = selected;
    large_blob_key = key;
    number_of_credentials_present = counted;
    user_selected_present = chosen;
  }

  checked_back :
      (user : Option PublicKeyCredentialUserEntity) (n : ℕ) (selected : Bool)
      (key : Option (List ℕ)) (counted chosen : Bool)
      → (counted ≡ false → n ≡ 1)
      → (chosen ≡ false → selected ≡ false)
      → (chosen ≡ true → n ≤ 1)
      → checked_response (so_far user (if_present counted n) (if_present chosen selected) key)
        ≡ ok (a_response user n selected key counted chosen)
  unfolding checked_response required if_present
  checked_back user n selected key false false hc hs ha = rw (hc refl, hs refl) refl
  checked_back user n selected key false true hc hs ha = rw (hc refl) refl
  checked_back user n selected key true false hc hs ha = rw (hs refl) refl
  checked_back user n selected key true true hc hs ha = let few = ha refl in ground arith

-- Every such response is read back from the map that `encode` writes.
pub response_round_trip :
    (r : GetAssertionResponse)
    → IsWireResponse r
    → response_from_cbor (map (response_entries r)) ≡ ok r
unfolding response_from_cbor response_entries read_entries by_number read_response_member entries_of
    bytes_member
response_round_trip r h =
    rw
      (
        descriptor_round_trip r.credential,
        user_read r.credential r.auth_data r.signature r.user _,
        count_read r.credential r.auth_data r.signature r.user r.number_of_credentials_present
            r.number_of_credentials _ h.counted,
        selected_read r.credential r.auth_data r.signature r.user _ _ _,
        key_read r.credential r.auth_data r.signature r.user _ _ r.large_blob_key,
      )
      (checked_back r.credential r.auth_data r.signature r.user r.number_of_credentials
        r.user_selected r.large_blob_key r.number_of_credentials_present r.user_selected_present
        h.count_default h.selected_default h.selected_alone)
