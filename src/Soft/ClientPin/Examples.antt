-- ===== src/Soft/ClientPin/Examples.antt =====
-- A soft token with a PIN, over concrete primitives, and what the theorems on its clientPIN say of it.
use fidoh.Base.{
  ℕ, ◌+◌, ◌≡◌, refl, arith, false, List, [], ◌∷◌, length, get_elem?, get_or, replicate, ok, none,
  some, bytes_eq,
}
use fidoh.Core.Cbor.{negsuc, CborValue, int, bytes, map, end, entry}
use fidoh.Core.Messages.Cose.{int_eq}
use fidoh.Core.Messages.Pin.{one, protocol_eq, is_supported_by, get_pin_token, ClientPinRequest}
use fidoh.Core.Crypto.{Primitives, aes_key, no_blocks, derive, authenticate, encrypt, decrypt}
use fidoh.Soft.ClientPin.{
  PinAgreement, ClientPinState, SoftPin, empty_agreement, is_implemented, register, set_register,
  spent, restored, advertised,
}
use fidoh.Soft.ClientPin.Agreement.{
  read_coordinate, read_coordinates, shared_coordinate, agreed, decapsulate,
}
use fidoh.Soft.ClientPin.Exchange.{
  minted, compared, is_foreign, decrypted_reply, derive_protocol, secret_reply, token_reply,
  sub_command_reply, state_reply, client_pin_exchange,
}
use fidoh.Soft.ClientPin.Ends.{IsOpen, Matches}
use fidoh.Soft.ClientPin.Lockout.{
  IsSafeState, Operation, exchange, pin_set, pin_cleared, power_cycled, performs,
  performs-IsSafeState, client_pin_exchange-Matches,
}

abbrev word : ℕ → List ℕ
word n = n ∷ replicate 31 0

abbrev toy : Primitives ℕ ℕ ℕ
toy = record {
  sha256 = λ b. word (length b);
  hmac_sha256 = λ key message. word (length message);
  hkdf_sha256 = λ salt ikm info. word (length info);
  aes_encrypt = λ key iv blocks. blocks;
  aes_decrypt = λ key iv blocks. blocks;
  secret_key = λ b. some (get_or b 0 0);
  public_key = λ k. k;
  x_of = λ p. word p;
  y_of = λ p. word 0;
  from_sec1 = λ b. get_elem? b 1;
  diffie_hellman = λ j p. word (j + p);
  fill_random = λ n w. (ok (replicate n w), w);
}

abbrev platform_key : CborValue
platform_key =
    map (entry (int (negsuc 1)) (bytes (word 4)) (entry (int (negsuc 2)) (bytes (word 0)) end))

abbrev token_request : ClientPinRequest
token_request = record {
  protocol = one;
  sub_command = get_pin_token;
  key_agreement = some platform_key;
  pin_uv_auth_param = none;
  pin_hash_enc = some (replicate 16 7);
  permissions = none;
  rp_id = none;
}

abbrev agreed_register : PinAgreement ℕ
agreed_register = record {
  protocol = some one;
  secret = some 3;
  public_cose_key = some platform_key;
  pin_token = none;
}

abbrev with_pin_set : ClientPinState ℕ
with_pin_set = record {
  pin_hash = some (replicate 16 7);
  retries = 2;
  consecutive_mismatches = 1;
  key_agreement = (agreed_register, empty_agreement);
  power_cycle_locked = false;
}

abbrev soft_token : SoftPin ℕ
soft_token = record {
  client_pin = some with_pin_set;
  configured_pin_protocols = none;
  client_pin_knobs = record { wrong_protocol_echo = false; pin_echo_decrypt = false };
}

client_pin_exchange-Matches_example :
    (s : ClientPinState ℕ) × (soft_token.client_pin ≡ some s)
    × IsOpen s
    × Matches toy token_request s
unfolding protocol_eq is_supported_by aes_key no_blocks derive authenticate encrypt decrypt int_eq
    is_implemented read_coordinate read_coordinates register set_register spent restored advertised
    shared_coordinate agreed decapsulate minted compared is_foreign decrypted_reply derive_protocol
    secret_reply token_reply sub_command_reply state_reply client_pin_exchange bytes_eq
client_pin_exchange-Matches_example =
    client_pin_exchange-Matches toy token_request soft_token 9 (replicate 32 9) refl

abbrev operations : List (Operation toy)
operations =
    exchange token_request
    ∷ pin_set (1 ∷ [])
    ∷ exchange token_request
    ∷ power_cycled
    ∷ pin_cleared
    ∷ []

performs-IsSafeState_example : IsSafeState (performs toy operations (soft_token, 9)).0.client_pin
performs-IsSafeState_example =
    performs-IsSafeState toy operations soft_token 9
      (omega arith, omega arith, λ q. absurd (omega arith))
