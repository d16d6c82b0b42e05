-- ===== src/Core/Ceremony/Refusals.antt =====
-- What a ceremony of ceremony.rs and error.rs refuses: the authenticator's statuses, and user
-- verification without a PIN provider.
use fidoh.Base.{ℕ, ◌≡◌, refl, ap, arith, ◌↔◌, Bool, true, false, not, ok, err, none}
use fidoh.Core.Status.{from_u8}
use fidoh.Core.Time.{Phase}
use fidoh.Core.Messages.GetInfo.{GetInfoResponse}
use fidoh.Core.Ceremony.{from_status, pin_required}
use fidoh.Core.Ceremony.Run.{
  get_info, DeviceEvent, Run, World, Outside, PinCrypto, and_then, settle, race, fails,
}
use fidoh.Core.Ceremony.Hops.{decode_info}
use fidoh.Core.Ceremony.Input.{CeremonyInput}
use fidoh.Core.Ceremony.Exchange.{PinUvAuth, exchange_pipeline, token_acquired, wants_token}

-- A status byte is no error of the ceremony exactly when it is 0.
pub from_status-from_u8 : (b : ℕ) → (from_status (from_u8 b) ≡ none) ↔ (b ≡ 0)
unfolding from_status from_u8
from_status-from_u8 b = ground arith

module _ {W K S : Type 0} (env : Outside W) (crypto : PinCrypto W K S) where
  refused :
      {A : Type 0} (f : PinUvAuth × Bool → Run W A) (input : CeremonyInput) (info : GetInfoResponse)
      (w : World W)
      → input.pin_uv_auth ≡ none
      → wants_token input info ≡ true
      → input.has_pin_provider ≡ false
      → and_then (token_acquired env crypto input info w) f ≡ (err (fails pin_required), w)
  unfolding token_acquired and_then wants_token
  refused f input info w no_auth wants no_provider =
      rw (no_auth, ap not wants, ap not no_provider) refl

  -- With preferred user verification, a key that has a PIN and names PIN/UV protocols, no pinUvAuth
  -- material and no PIN provider, the ceremony ends after the getInfo probe with PinRequired,
  -- whatever the key's uv option says.
  pub exchange_pipeline-needs_pin :
      (input : CeremonyInput) (has_drain : Bool) (info : GetInfoResponse) (event : DeviceEvent)
      (w w' : World W)
      → race Phase.get_info (env.send get_info) w ≡ (ok event, w')
      → decode_info event ≡ ok info
      → input.pin_uv_auth ≡ none
      → wants_token input info ≡ true
      → input.has_pin_provider ≡ false
      → exchange_pipeline env crypto input has_drain w ≡ (err (fails pin_required), w')
  unfolding exchange_pipeline and_then settle
  exchange_pipeline-needs_pin input has_drain info event w w' probe read no_auth wants no_provider =
      rw (probe, read) (refused _ input info w' no_auth wants no_provider)
