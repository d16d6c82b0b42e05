-- ===== src/Core/Messages/Accepted.antt =====
-- What get_info.rs accepts: the lengths, the minima and the lists without duplicates.
use Prim.Native.Nat.{Ordering, compare}
use Prim.Native.String.{String}
use fidoh.Base.{
  ℕ, ◌≤◌, ◌≡◌, ◌≢◌, subst, arith, ◌==◌, false, List, [], ◌∷◌, map, length, ok, from_ok, ok_inj,
  Option, none, some,
}
use fidoh.Core.Cbor.{CborValue}
use fidoh.Core.Cbor.Encode.{slice_cmp}
use fidoh.Core.Cbor.Minimal.{guard_ok}
use fidoh.Core.Messages.{required, entries_of, read_entries, by_number}
use fidoh.Core.Messages.Pin.{to_u32}
use fidoh.Core.Messages.GetInfo.{
  no_info_members, GetInfoResponse, PublicKeyCredentialParameter, InfoMembers,
}
use fidoh.Core.Messages.GetInfo.Decode.{read_info_member}
use fidoh.Core.Messages.GetInfo.Validate.{
  int_cmp, has_duplicate, is_empty, non_empty, positive, at_least, no_duplicates, sixteen_bytes,
  validate, info_from_cbor,
}
use fidoh.Core.Messages.Distinct.{
  IsDistinct, IsOrder, compare-IsOrder, int_cmp-IsOrder, slice_cmp-IsOrder,
  has_duplicate-IsDistinct,
}

-- A list that is absent, or has an element and names nothing twice.
abbrev pub IsListed : {A B : Type 0} → (A → B) → Option (List A) → Type 0
IsListed f none = Unit {0}
IsListed f (some list) = (list ≢ []) × IsDistinct (map f list)

-- A number that is absent or has a minimum.
abbrev pub IsAtLeast : ℕ → Option ℕ → Type 0
IsAtLeast least none = Unit {0}
IsAtLeast least (some v) = least ≤ v

pub record IsAccepted (r : GetInfoResponse) : Type 0 where
  pub aaguid : length r.aaguid ≡ 16
  pub protocols : IsListed to_u32 r.pin_uv_auth_protocols
  pub transports : IsListed (λ (t : List ℕ). t) r.transports
  pub algorithms : IsListed (λ (p : PublicKeyCredentialParameter). p.alg) r.algorithms
  pub credential_count : IsAtLeast 1 r.max_credential_count_in_list
  pub credential_length : IsAtLeast 1 r.max_credential_id_length
  pub large_blobs : IsAtLeast 1024 r.max_serialized_large_blob_array
  pub cred_blob : IsAtLeast 32 r.max_cred_blob_length
  pub uv_attempts : IsAtLeast 1 r.preferred_platform_uv_attempts

filled : {A : Type 0} (list : List A) → is_empty list ≡ false → list ≢ []
unfolding is_empty
filled [] h = absurd cc
filled (a ∷ as') h = cc

listed :
    {A B : Type 0} (cmp : B → B → Ordering) (order : IsOrder cmp) (f : A → B)
    (o o' : Option (List A)) (name name' : String) {u : Unit {0}}
    → non_empty o name ≡ ok o'
    → no_duplicates cmp f o' name' ≡ ok u
    → IsListed f o'
unfolding non_empty no_duplicates
listed cmp order f none none name name' h g = tt
listed cmp order f none (some list) name name' h g = absurd cc
listed cmp order f (some list) none name name' h g =
    absurd (cc (ok_inj (guard_ok (is_empty list) _ _ h).1))
listed cmp order f (some list) (some list') name name' h g =
    let kept = guard_ok (is_empty list) _ _ h in
    let distinct = guard_ok (has_duplicate cmp (map f list')) _ _ g in
    (
      subst (λ l. l ≢ []) (some_inj (ok_inj kept.1)) (filled list kept.0),
      (has_duplicate-IsDistinct cmp order (map f list')).0 distinct.0,
    )
  where
    some_inj : {A : Type 0} {a b : A} → ◌≡◌ {A = Option A} (some a) (some b) → a ≡ b
    some_inj h = cc

positive_kept : (o o' : Option ℕ) (name : String) → positive o name ≡ ok o' → IsAtLeast 1 o'
unfolding positive
positive_kept none none name h = tt
positive_kept none (some v) name h = absurd cc
positive_kept (some n) none name h = absurd (cc (ok_inj (guard_ok (n == 0) _ _ h).1))
positive_kept (some n) (some v) name h = ground (arith, h)

minimum_kept :
    (least : ℕ) (o : Option ℕ) (name : String) {u : Unit {0}}
    → at_least least o name ≡ ok u
    → IsAtLeast least o
unfolding at_least
minimum_kept least none name h = tt
minimum_kept least (some v) name h = ground (arith, h)

sixteen : (raw aaguid : List ℕ) → sixteen_bytes raw ≡ ok aaguid → length aaguid ≡ 16
unfolding sixteen_bytes
sixteen raw aaguid h = ground (arith, h)

validate-IsAccepted : (m : InfoMembers) (r : GetInfoResponse) → validate m ≡ ok r → IsAccepted r
unfolding validate
validate-IsAccepted m r h = from_ok (required m.versions "versions") _ h (λ versions e0 r0.
    from_ok (required m.aaguid "aaguid") _ r0 (λ raw e1 r1.
      from_ok (sixteen_bytes raw) _ r1 (λ aaguid e2 r2.
        from_ok (non_empty m.pin_uv_auth_protocols "pinUvAuthProtocols") _ r2 (λ protocols e3 r3.
          from_ok (no_duplicates compare to_u32 protocols "pinUvAuthProtocols") _ r3 (λ u1 e4 r4.
            from_ok (positive m.max_credential_count_in_list "maxCredentialCountInList") _ r4
              (λ count e5 r5.
                from_ok (positive m.max_credential_id_length "maxCredentialIdLength") _ r5
                  (λ id_length e6 r6.
                    from_ok (non_empty m.transports "transports") _ r6 (λ transports e7 r7.
                      from_ok (no_duplicates slice_cmp (λ t. t) transports "transports") _ r7
                        (λ u2 e8 r8.
                          from_ok (non_empty m.algorithms "algorithms") _ r8 (λ algorithms e9 r9.
                            from_ok
                              (no_duplicates int_cmp (λ (p : PublicKeyCredentialParameter). p.alg)
                                algorithms "algorithms")
                              _ r9
                              (λ u3 e10 r10.
                                from_ok
                                  (at_least 1024 m.max_serialized_large_blob_array
                                    "maxSerializedLargeBlobArray")
                                  _ r10
                                  (λ u4 e11 r11.
                                    from_ok (at_least 32 m.max_cred_blob_length "maxCredBlobLength")
                                      _ r11
                                      (λ u5 e12 r12.
                                        from_ok
                                          (at_least 1 m.preferred_platform_uv_attempts
                                            "preferredPlatformUvAttempts")
                                          _ r12
                                          (λ u6 e13 r13. subst IsAccepted (ok_inj r13) (record {
                                            aaguid = sixteen raw aaguid e2;
                                            protocols =
                                                listed compare compare-IsOrder to_u32 _ protocols _
                                                  _ e3 e4;
                                            transports =
                                                listed slice_cmp slice_cmp-IsOrder (λ t. t) _
                                                  transports _ _ e7 e8;
                                            algorithms =
                                                listed int_cmp int_cmp-IsOrder
                                                  (λ (p : PublicKeyCredentialParameter). p.alg) _
                                                  algorithms _ _ e9 e10;
                                            credential_count = positive_kept _ count _ e5;
                                            credential_length = positive_kept _ id_length _ e6;
                                            large_blobs = minimum_kept 1024 _ _ e11;
                                            cred_blob = minimum_kept 32 _ _ e12;
                                            uv_attempts = minimum_kept 1 _ _ e13;
                                          })))))))))))))))

-- A getInfo response that is accepted has an AAGUID of 16 bytes; its PIN/UV protocols, transports and
-- algorithms, where present, are not empty and without duplicates; and each number with a minimum,
-- where present, keeps it.
pub info_from_cbor-IsAccepted :
    (value : CborValue) (r : GetInfoResponse) → info_from_cbor value ≡ ok r → IsAccepted r
unfolding info_from_cbor
info_from_cbor-IsAccepted value r h =
    from_ok (entries_of value "getInfoResponse") _ h (λ entries e0 r0.
      from_ok (read_entries (by_number read_info_member) entries no_info_members) _ r0
        (λ m e1 r1. validate-IsAccepted m r r1))
