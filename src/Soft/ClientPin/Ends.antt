-- ===== src/Soft/ClientPin/Ends.antt =====
-- How an exchange of the soft token's clientPIN can end, and what a token takes.
use fidoh.Base.{
  ℕ, ◌==◌, ◌≡◌, refl, ap, ◌∙◌, Bool, true, false, not, ◌||◌, if◌then◌else◌, List, bytes_eq,
  bytes_eq_sound, Outcome, ok, err, Option, none, some,
}
use fidoh.Core.Status.{StatusCode, pin_invalid}
use fidoh.Core.Messages.Pin.{
  ClientPinRequest, ClientPinResponse, ClientPinSubCommand, get_pin_retries, get_key_agreement,
  is_supported_by, get_pin_token, get_pin_uv_auth_token_using_pin_with_permissions,
}
use fidoh.Core.Crypto.{PinCryptoError, Primitives, SharedSecret, encrypt, decrypt}
use fidoh.Soft.ClientPin.{
  ClientPinKnobs, ClientPinState, PinAgreement, SoftPin, set_register, register, spent, mismatched,
  restored, is_implemented, advertised,
}
use fidoh.Soft.ClientPin.Agreement.{agreement_generate, decapsulate}
use fidoh.Soft.ClientPin.Exchange.{
  Reply, agreement_reply, is_foreign, minted, compared, decrypted_reply, secret_reply, token_reply,
  sub_command_reply, state_reply,
}

abbrev pub token_of : Outcome StatusCode ClientPinResponse → Option (List ℕ)
token_of (ok r) = r.pin_uv_auth_token
token_of (err e) = none

-- The state lets a PIN be tried.
abbrev pub IsOpen : {K : Type 0} → ClientPinState K → Type 0
IsOpen s = ((s.retries == 0) ≡ false) × (s.power_cycle_locked ≡ false)

module _ {W K P : Type 0} (prim : Primitives W K P) where
  -- The request carries, under some secret, the hash of the PIN that is set.
  abbrev pub Matches : ClientPinRequest → ClientPinState K → Type 0
  Matches request s =
      (stored : List ℕ) × (shared : SharedSecret) × (enc : List ℕ) × (s.pin_hash ≡ some stored)
      × (request.pin_hash_enc ≡ some enc)
      × (decrypt prim shared enc ≡ ok stored)

  -- The ways in which an exchange ends, with the state behind it.
  pub data Ends (request : ClientPinRequest) (s : ClientPinState K)
      : Outcome StatusCode ClientPinResponse × ClientPinState K × W → Type 0 where
    kept :
        (r : Outcome StatusCode ClientPinResponse) (w : W)
        → token_of r ≡ none
        → Ends request s (r, s, w)
    registered :
        (r : Outcome StatusCode ClientPinResponse) (agree : PinAgreement K) (w : W)
        → token_of r ≡ none
        → Ends request s (r, set_register request.protocol agree s, w)
    attempted : (e : StatusCode) (w : W) → IsOpen s → Ends request s (err e, spent s, w)
    wrong : (w : W) → IsOpen s → Ends request s (err pin_invalid, mismatched (spent s), w)
    matched :
        (e : StatusCode) (w : W)
        → IsOpen s
        → Matches request s
        → Ends request s (err e, restored (spent s), w)
    issued :
        (r : Outcome StatusCode ClientPinResponse) (agree : PinAgreement K) (w : W)
        → IsOpen s
        → Matches request s
        → Ends request s (r, set_register request.protocol agree (restored (spent s)), w)

  module _ (request : ClientPinRequest) (s : ClientPinState K) where
    if-Ends :
        (c : Bool) {x y : Outcome StatusCode ClientPinResponse × ClientPinState K × W}
        → (c ≡ true → Ends request s x)
        → (c ≡ false → Ends request s y)
        → Ends request s (if c then x else y)
    if-Ends true f g = f refl
    if-Ends false f g = g refl

    option-Ends :
        {A : Type 0} (o : Option A) (x : Reply prim) (y : A → Reply prim)
        → (o ≡ none → Ends request s x)
        → ((a : A) → o ≡ some a → Ends request s (y a))
        → Ends request s (elim o [ none ↦ x | some a ↦ y a ])
    option-Ends none x y f g = f refl
    option-Ends (some a) x y f g = g a refl

    outcome-Ends :
        {E A : Type 0} (o : Outcome E A) (x : E → Reply prim) (y : A → Reply prim)
        → ((e : E) → o ≡ err e → Ends request s (x e))
        → ((a : A) → o ≡ ok a → Ends request s (y a))
        → Ends request s (elim o [ err e ↦ x e | ok a ↦ y a ])
    outcome-Ends (err e) x y f g = f e refl
    outcome-Ends (ok a) x y f g = g a refl

    minted-Ends :
        (shared : SharedSecret) (drawn : Outcome PinCryptoError (List ℕ) × W)
        → IsOpen s
        → Matches request s
        → Ends request s (minted prim request.protocol shared (restored (spent s)) drawn)
    unfolding minted
    minted-Ends shared (err e, w) o m = matched _ w o m
    minted-Ends shared (ok token, w) o m =
        outcome-Ends (encrypt prim shared token w).0 _ _ (λ e h. issued _ _ _ o m)
          (λ c h. issued _ _ _ o m)

    decrypted-Ends :
        (knobs : ClientPinKnobs) (shared : SharedSecret) (stored : List ℕ) (w : W)
        → IsOpen s
        → s.pin_hash ≡ some stored
        → Ends request s (decrypted_reply prim knobs request shared stored (spent s) w)
    unfolding decrypted_reply compared
    decrypted-Ends knobs shared stored w o p =
        option-Ends request.pin_hash_enc _ _ (λ h. attempted _ w o)
          (λ enc h.
            if-Ends knobs.pin_echo_decrypt (λ c. attempted _ w o)
              (λ c.
                outcome-Ends (decrypt prim shared enc) _ _ (λ e d. attempted _ w o)
                  (λ plain d.
                    if-Ends (bytes_eq plain stored)
                      (λ q.
                        minted-Ends shared (prim.fill_random 32 w) o
                          (stored, shared, enc, p, h, d ∙ ap ok (bytes_eq_sound plain stored q)))
                      (λ q. wrong w o))))

    secret-Ends :
        (knobs : ClientPinKnobs) (stored : List ℕ) (w : W)
        → IsOpen s
        → s.pin_hash ≡ some stored
        → Ends request s (secret_reply prim knobs request stored s w)
    unfolding secret_reply
    secret-Ends knobs stored w o p =
        option-Ends request.key_agreement _ _ (λ h. kept _ w refl)
          (λ peer h.
            outcome-Ends (decapsulate prim (register request.protocol s) peer) _ _
              (λ e d. kept _ w refl)
              (λ z d.
                if-Ends (is_foreign prim _ request.pin_uv_auth_param) (λ c. kept _ w refl)
                  (λ c. decrypted-Ends knobs _ stored w o p)))

    token-Ends :
        (knobs : ClientPinKnobs) (w : W) → Ends request s (token_reply prim knobs request s w)
    unfolding token_reply
    token-Ends knobs w =
        option-Ends s.pin_hash _ _ (λ h. kept _ w refl)
          (λ stored h.
            if-Ends (s.retries == 0) (λ c. kept _ w refl)
              (λ c.
                if-Ends s.power_cycle_locked (λ l. kept _ w refl)
                  (λ l. secret-Ends knobs stored w (c, l) h)))

    agreement-Ends :
        (knobs : ClientPinKnobs) (made : Outcome StatusCode (PinAgreement K) × W)
        → Ends request s (agreement_reply prim knobs request.protocol s made)
    unfolding agreement_reply
    agreement-Ends knobs (err e, w) = kept _ w refl
    agreement-Ends knobs (ok made, w) = registered _ _ w refl

    sub_command-Ends :
        (c : ClientPinSubCommand) (knobs : ClientPinKnobs) (w : W)
        → Ends request s (sub_command_reply prim c knobs request s w)
    unfolding sub_command_reply
    sub_command-Ends get_pin_retries knobs w = kept _ w refl
    sub_command-Ends get_key_agreement knobs w = agreement-Ends knobs (agreement_generate prim 8 w)
    sub_command-Ends get_pin_token knobs w = token-Ends knobs w
    sub_command-Ends get_pin_uv_auth_token_using_pin_with_permissions knobs w = token-Ends knobs w

    -- Every exchange on a state ends in one of these ways.
    pub state_reply-Ends : (a : SoftPin K) (w : W) → Ends request s (state_reply prim a request s w)
    unfolding state_reply
    state_reply-Ends a w =
        if-Ends
          (not (is_implemented request.protocol)
            || not (is_supported_by request.protocol (advertised a)))
          (λ c. kept _ w refl) (λ c. sub_command-Ends request.sub_command a.client_pin_knobs w)
