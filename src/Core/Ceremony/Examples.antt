-- ===== src/Core/Ceremony/Examples.antt =====
-- A concrete key and its ceremonies, and what the theorems on ceremony.rs say of them.
use fidoh.Base.{
  ℕ, zero, suc, ◌-◌, ◌≡◌, refl, arith, ◌==◌, if◌then◌else◌, false, List, [], ◌∷◌, ◌++◌, length,
  Outcome, ok, err, none, some, replicate, bytes_eq, get_elem?,
}
use fidoh.Core.Status.{from_u8}
use fidoh.Core.Time.{hop_first, timer_first, wait, raced}
use fidoh.Core.Errors.{Error}
use fidoh.Core.Selection.{first, apply_selection}
use fidoh.Core.Cbor.{null}
use fidoh.Core.Cbor.Encode.{canonical_key_cmp, slice_cmp}
use fidoh.Core.Cbor.Decode.{
  decode_map, only_map, decode, all_read, value, decode_item, decode_major, decode_entries,
  decode_items, decode_string, text_or_bytes, length_argument, argument_impl, wide_argument,
  take_bytes, check_key, seen_before, out_of_order, simple, valid_utf8,
}
use fidoh.Core.Messages.{ascii}
use fidoh.Core.Messages.{
  text_array, text_item, read_items, bytes_member, uint_array, uint_member, below, required,
  entries_of, read_entries, by_number, by_text,
}
use fidoh.Core.Messages.Pin.{from_u32}
use fidoh.Core.Messages.GetInfo.Options.{
  options_from_cbor, read_option, insert_option, option, get, get_option, as_str, default_value,
  get_from, unwrap_or,
}
use fidoh.Core.Messages.GetInfo.Decode.{read_info_member, protocols_of}
use fidoh.Core.Messages.GetInfo.Validate.{
  info_from_cbor, validate, sixteen_bytes, non_empty, is_empty, no_duplicates, has_duplicate, sort,
  insert_sorted, has_equal_neighbours, is_equal, positive, at_least,
}
use fidoh.Core.Messages.GetAssertion.{
  descriptor_from_cbor, read_descriptor_member, credential_type, checked_descriptor,
}
use fidoh.Core.Messages.GetAssertion.Request.{GetAssertionRequest, new, unless_empty}
use fidoh.Core.Messages.GetAssertion.Response.{
  GetAssertionResponse, response_from_cbor, read_response_member, checked_response,
}
use fidoh.Core.Messages.Examples.{sample_info, sample_descriptor, sample_response}
use fidoh.Core.Ceremony.{TransportError, hid, pcsc, from_status, from_core}
use fidoh.Core.Ceremony.Run.{
  CtapCommand, get_info, get_assertion, client_pin, DeviceEvent, keepalive, response, World,
  Outside, PinCrypto, Send, settle, and_then, race, flattened,
}
use fidoh.Core.Ceremony.Hops.{
  loop_hop, loop_event, loop_phase, response_of, succeeds, decode_as, decode_assertion, decode_info,
  keepalive_loop,
}
use fidoh.Core.Ceremony.Input.{
  CeremonyInput, discouraged, build_request, with_pin_uv_auth, uv_posture_without_token, shaped,
  allowed, uv_effective, not_requested, asks_uv,
}
use fidoh.Core.Ceremony.Exchange.{
  wants_token, wants_uv, protocols_advertised, wire_request, exchange_pipeline, exchanged,
  only_allowed, allows, all_assertions, effective, token_acquired, GetAssertionOutcome,
}
use fidoh.Core.Ceremony.Entry.{
  DeviceInfo, descriptor, Transport, Discovered, caught, discover, enumerated, found, cause_of,
  joined, selected_candidate, selected_from, picked, position, descriptors, owner_of,
}
use fidoh.Core.Ceremony.Wire.{Sendable, wire_request-encodes}
use fidoh.Core.Ceremony.Loop.{answer, progress, keepalive_loop-Answers}
use fidoh.Core.Ceremony.Bound.{Spends, Ended, keepalive_loop-Ended}
use fidoh.Core.Ceremony.Safety.{IsAllowed, exchange_pipeline-IsAllowed}
use fidoh.Core.Ceremony.Owner.{discover-owner_of}

abbrev info_bytes : List ℕ
info_bytes =
    0xa4 ∷ 0x01 ∷ 0x81 ∷ 0x68 ∷ ascii "FIDO_2_0"
    ++ (0x03 ∷ 0x50 ∷ replicate 16 0)
    ++ (0x04 ∷ 0xa1 ∷ 0x69 ∷ ascii "clientPin")
    ++ (0xf5 ∷ 0x06 ∷ 0x81 ∷ 0x02 ∷ [])

abbrev assertion_bytes : List ℕ
assertion_bytes =
    0xa3 ∷ 0x01 ∷ 0xa2 ∷ 0x62 ∷ ascii "id"
    ++ (0x41 ∷ 7 ∷ 0x64 ∷ ascii "type")
    ++ (0x6a ∷ ascii "public-key")
    ++ (0x02 ∷ 0x42 ∷ 1 ∷ 2 ∷ 0x03 ∷ 0x41 ∷ 3 ∷ [])

-- A key that reports one keepalive before its assertion.
abbrev replies : CtapCommand → ℕ → ℕ → Outcome (Error TransportError) DeviceEvent × World ℕ
replies get_info seen left =
    (ok (response 0 info_bytes), record { outside = seen; deadline = record { remaining = left } })
replies (client_pin r) seen left =
    (err Error.device_gone, record { outside = seen; deadline = record { remaining = left } })
replies (get_assertion r) zero left =
    (ok (keepalive 2), record { outside = 1; deadline = record { remaining = left - 1 } })
replies (get_assertion r) (suc seen) left = (
  ok (response 0 assertion_bytes),
  record { outside = seen; deadline = record { remaining = left } },
)

abbrev key_send : Send ℕ
key_send cmd w = if w.deadline.remaining == 0 then (timer_first, w) else (
  hop_first (replies cmd w.outside w.deadline.remaining).0,
  (replies cmd w.outside w.deadline.remaining).1,
)

abbrev key : Outside ℕ
key = record {
  send = key_send;
  provide_pin = λ w. (none, w);
  next = λ w. (err Error.device_gone, w);
}

abbrev no_crypto : PinCrypto ℕ ℕ ℕ
no_crypto = record {
  generate = λ w. (none, w);
  cose_key = λ k. null;
  encapsulate = λ k v p. none;
  encrypt = λ s b w. (none, w);
  decrypt = λ s b. none;
  authenticate = λ s t b. [];
  param_message = λ b. b;
  sha256 = λ b. b;
}

abbrev start : World ℕ
start = record { outside = 0; deadline = record { remaining = 10 } }

abbrev after_keepalive : World ℕ
after_keepalive = record { outside = 1; deadline = record { remaining = 9 } }

abbrev finished : World ℕ
finished = record { outside = 0; deadline = record { remaining = 9 } }

abbrev sample_input : CeremonyInput
sample_input = record {
  rp_id = ascii "rp.example";
  client_data_hash = 5 ∷ [];
  allow_credentials = some (sample_descriptor ∷ []);
  user_verification = discouraged;
  pin_uv_auth = none;
  has_pin_provider = false;
  pin_uv_auth_protocol = none;
  has_entropy = false;
}

abbrev sent_request : GetAssertionRequest
sent_request = record {
  rp_id = ascii "rp.example";
  client_data_hash = 5 ∷ [];
  allow_list = some (sample_descriptor ∷ []);
  extensions = none;
  options = none;
  pin_uv_auth_param = none;
  pin_uv_auth_protocol = none;
}

wire_request-encodes_example : Sendable sent_request
unfolding wire_request build_request new with_pin_uv_auth uv_posture_without_token shaped allowed
    unless_empty
wire_request-encodes_example = wire_request-encodes sample_input sample_info none sent_request refl

keepalive_loop-Answers_example :
    keepalive_loop key 10 false (get_assertion sent_request) start
    ≡ (ok (response 0 assertion_bytes), finished)
keepalive_loop-Answers_example =
    keepalive_loop-Answers key (get_assertion sent_request) 10 false
      (progress {w' = after_keepalive} 2 (omega arith) refl
        (answer 0 assertion_bytes (omega arith) refl))
      (omega arith)

-- A device that reports the progress staged in it, without spending budget, and then answers.
abbrev staged_send : Send ℕ
staged_send cmd w = elim w.outside [
  | zero ↦ (hop_first (ok (response 0 [])), w)
  | suc n ↦ (hop_first (ok (keepalive 2)), record w { outside = n })
]

abbrev staged : Outside ℕ
staged = record {
  send = staged_send;
  provide_pin = λ w. (none, w);
  next = λ w. (err Error.device_gone, w);
}

staged-Spends : Spends staged (get_assertion sent_request) (λ w. w.outside)
staged-Spends w w' status p h = ground (arith, h)

keepalive_loop-Ended_example :
    Ended
      (keepalive_loop staged 4 false
        (get_assertion sent_request)
        (record { outside = 3; deadline = record { remaining = 10 } })).0
keepalive_loop-Ended_example =
    keepalive_loop-Ended staged (get_assertion sent_request) (λ w. w.outside) staged-Spends 4 false
      _ (omega arith)

info_decoded : decode_info (response 0 info_bytes) ≡ ok sample_info
unfolding decode_info succeeds from_status from_u8 decode_as decode_map only_map decode all_read
    value decode_item decode_major decode_entries decode_items decode_string text_or_bytes
    length_argument argument_impl wide_argument take_bytes check_key seen_before out_of_order simple
    valid_utf8 canonical_key_cmp slice_cmp bytes_eq info_from_cbor entries_of read_entries by_number
    read_info_member text_array text_item read_items bytes_member options_from_cbor read_option
    insert_option uint_array uint_member below protocols_of from_u32 validate required sixteen_bytes
    non_empty is_empty no_duplicates has_duplicate sort insert_sorted has_equal_neighbours is_equal
    positive at_least
info_decoded = refl

assertion_decoded : decode_assertion assertion_bytes ≡ ok sample_response
unfolding decode_assertion decode_as decode_map only_map decode all_read value decode_item
    decode_major decode_entries decode_items decode_string text_or_bytes length_argument
    argument_impl wide_argument take_bytes check_key seen_before out_of_order simple valid_utf8
    canonical_key_cmp slice_cmp bytes_eq response_from_cbor entries_of read_entries by_number
    by_text read_response_member descriptor_from_cbor read_descriptor_member credential_type
    checked_descriptor bytes_member required checked_response
assertion_decoded = refl

abbrev sample_outcome : GetAssertionOutcome
sample_outcome = record {
  assertions = sample_response ∷ [];
  info = sample_info;
  uv_effective = not_requested;
  discovery_diagnostics = [];
}

exchange_pipeline-IsAllowed_example :
    (first : GetAssertionResponse) × (rest : List GetAssertionResponse) × (sample_outcome.assertions
      ≡ first ∷ rest)
    × (length rest ≡ first.number_of_credentials - 1)
    × IsAllowed sample_input.allow_credentials first.credential.id
unfolding exchange_pipeline race settle and_then flattened wait raced token_acquired wants_token
    wants_uv protocols_advertised option get_from get get_option unwrap_or as_str default_value
    bytes_eq wire_request build_request new with_pin_uv_auth uv_posture_without_token shaped allowed
    unless_empty exchanged keepalive_loop loop_hop loop_event loop_phase response_of succeeds
    from_status from_u8 only_allowed allows all_assertions effective uv_effective asks_uv
exchange_pipeline-IsAllowed_example =
    exchange_pipeline-IsAllowed key no_crypto sample_input false start finished sample_outcome
      (rw (info_decoded, assertion_decoded) refl)

abbrev reader : DeviceInfo
reader = record { id = "reader 0"; name = "key"; aaguid = none }

abbrev two_transports : List (Transport ℕ)
two_transports =
    record {
      kind = hid;
      enumerate = λ w. (hop_first (err Error.busy), w);
      connect = λ id w. (hop_first (err Error.device_gone), w);
    }
    ∷ record {
      kind = pcsc;
      enumerate = λ w. (hop_first (ok (reader ∷ [])), w);
      connect = λ id w. (hop_first (ok key_send), w);
    }
    ∷ []

abbrev one_reader : Discovered
one_reader = record {
  candidates = (reader, 1) ∷ [];
  diagnostics =
      record {
        kind = hid;
        cause =
            Error.transport
              (record { layer = "device"; detail = "device busy with another operation" });
      }
      ∷ [];
}

discover-owner_of_example :
    (i : ℕ) × (info : DeviceInfo) × (k : ℕ) × (t : Transport ℕ) × (get_elem? one_reader.candidates i
      ≡ some (info, k))
    × (descriptor info ≡ descriptor reader)
    × (get_elem? two_transports k ≡ some t)
    × (owner_of two_transports one_reader.candidates
          (position (descriptors one_reader) (descriptor reader))
          start
        ≡ (ok t, start))
unfolding discover enumerated found cause_of joined selected_candidate selected_from picked
    apply_selection race settle and_then flattened wait raced from_core caught
discover-owner_of_example =
    discover-owner_of two_transports first one_reader (descriptor reader) start start refl refl
