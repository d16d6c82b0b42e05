-- ===== src/Core/Messages/Ignored.antt =====
-- The message models skip the members they do not know: the rule that unknown keys are ignored.
use fidoh.Base.{ℕ, ◌<◌, ◌≡◌, refl, ap, arith, ◌⊎◌, ok, ◌>>=◌}
use fidoh.Core.Cbor.{
  pos, negsuc, CborValue, int, bytes, text, array, map, bool, null, Entries, end, entry,
}
use fidoh.Core.Messages.{Reads, entries_of, read_entries, by_number}
use fidoh.Core.Messages.Pin.{client_pin_from_cbor, read_client_pin_member}
use fidoh.Core.Messages.GetInfo.Decode.{read_info_member}
use fidoh.Core.Messages.GetInfo.Validate.{info_from_cbor}
use fidoh.Core.Messages.GetAssertion.Request.{request_from_cbor, read_request_member}
use fidoh.Core.Messages.GetAssertion.Response.{response_from_cbor, read_response_member}

-- A key that names no member of a message whose members are 1 to `last`.
abbrev pub IsUnknown : ℕ → CborValue → Type 0
IsUnknown last (int (pos n)) = (n ≡ 0) ⊎ (last < n)
IsUnknown last k = Unit {0}

-- One map in front of another.
unfoldable pub joined : Entries → Entries → Entries
joined end es = es
joined (entry k v before) es = entry k v (joined before es)

skipped :
    {S : Type 0} (f : CborValue → CborValue → S → Reads S) (k v : CborValue)
    (before behind : Entries) (s : S)
    → ((t : S) → f k v t ≡ ok t)
    → read_entries f (joined before (entry k v behind)) s ≡ read_entries f (joined before behind) s
unfolding read_entries joined
skipped f k v end behind s h = rw (h s) refl
skipped f k v (entry j x before) behind s h =
    ap (λ g. f j x s >>= g) (λ i t. skipped f k v before behind t h i)

passes :
    {S : Type 0} (f : ℕ → CborValue → S → Reads S) (last : ℕ) (k v : CborValue)
    → ((n : ℕ) (t : S) → (n ≡ 0) ⊎ (last < n) → f n v t ≡ ok t)
    → IsUnknown last k
    → (t : S) → by_number f k v t ≡ ok t
unfolding by_number
passes f last (int (pos n)) v h u t = h n t u
passes f last (int (negsuc n)) v h u t = refl
passes f last (bytes b) v h u t = refl
passes f last (text b) v h u t = refl
passes f last (array b) v h u t = refl
passes f last (map b) v h u t = refl
passes f last (bool b) v h u t = refl
passes f last null v h u t = refl

-- A map entry whose key names no member, wherever it stands, changes nothing: getInfo responses keep
-- to the keys 1 to 21, getAssertion requests and responses to 1 to 7, clientPIN responses to 1 to 5.
pub from_cbor-skips :
    (k v : CborValue) (before behind : Entries)
    → (IsUnknown 21 k
        → info_from_cbor (map (joined before (entry k v behind)))
          ≡ info_from_cbor (map (joined before behind)))
      × (IsUnknown 7 k
          → request_from_cbor (map (joined before (entry k v behind)))
            ≡ request_from_cbor (map (joined before behind)))
      × (IsUnknown 7 k
          → response_from_cbor (map (joined before (entry k v behind)))
            ≡ response_from_cbor (map (joined before behind)))
      × (IsUnknown 5 k
          → client_pin_from_cbor (map (joined before (entry k v behind)))
            ≡ client_pin_from_cbor (map (joined before behind)))
unfolding info_from_cbor request_from_cbor response_from_cbor client_pin_from_cbor entries_of
    read_info_member read_request_member read_response_member read_client_pin_member
from_cbor-skips k v before behind = (
  (λ u.
      rw
        (skipped (by_number read_info_member) k v before behind _
          (passes read_info_member 21 k v (λ n t o. ground arith) u))
        refl),
  (λ u.
      rw
        (skipped (by_number read_request_member) k v before behind _
          (passes read_request_member 7 k v (λ n t o. ground arith) u))
        refl),
  (λ u.
      rw
        (skipped (by_number read_response_member) k v before behind _
          (passes read_response_member 7 k v (λ n t o. ground arith) u))
        refl),
  (λ u.
      rw
        (skipped (by_number read_client_pin_member) k v before behind _
          (passes read_client_pin_member 5 k v (λ n t o. ground arith) u))
        refl),
)
