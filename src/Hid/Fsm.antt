-- ===== src/Hid/Fsm.antt =====
-- crates/fidoh-transport-hid/src/fsm.rs, `Fsm`: channel allocation, resynchronisation, the
-- transaction with its busy retries, and the cancel.
pub mod Transactions
pub mod Handshake
pub mod Allocation
use fidoh.Base.{
  ℕ, zero, suc, ◌+◌, ◌%◌, ◌^◌, List, [], ◌∷◌, length, take, drop, get_or, Option, none, some, Bool,
  true, false, ◌||◌, not, ltb, ◌==◌, if◌then◌else◌, to_be_bytes, from_be_bytes, bytes_eq, Outcome,
  ok, err,
}
use fidoh.Core.Time.{Deadline, Phase, consume_slice}
use fidoh.Core.Errors.{timeout}
use fidoh.Hid.Errors.{
  FramingError, no_cbor, nonce_mismatch, reserved_cid, init_response_short, unexpected_command,
  cbor,
}
use fidoh.Hid.Packet.{
  encode_message, InitHeader, parse_init_header, broadcast_cid, cmd_init, cmd_cbor, cmd_cancel,
}
use fidoh.Hid.Assembler.{TransactionOutcome}
use fidoh.Hid.Io.{
  Io, FsmError, hid, core, framed, Ran, returned, out_of_fuel, read_report_bounded, enough, Attempt,
  outcome, was_busy, fatal, Received, received, starved, receive_loop, write_all, write_report,
  busy_retry_delay,
}

pub record InitInfo : Type 0 where
  pub cid : ℕ
  pub protocol_version : ℕ
  pub device_version : List ℕ
  -- the raw byte; `Capability` wraps the same one
  pub capabilities : ℕ

-- `decode_init_response`.
unfoldable pub decode_init_response : List ℕ → Outcome FramingError InitInfo
decode_init_response p =
    if ltb (length p) 17
    then err (init_response_short (length p))
    else ok (record {
      cid = from_be_bytes (get_or p 8 0 ∷ get_or p 9 0 ∷ get_or p 10 0 ∷ get_or p 11 0 ∷ []);
      protocol_version = get_or p 12 0;
      device_version = get_or p 13 0 ∷ get_or p 14 0 ∷ get_or p 15 0 ∷ [];
      capabilities = get_or p 16 0;
    })

-- `Fsm<F>`, the fd being the `Io`.
pub record Fsm : Type 0 where
  pub io : Io
  pub cid : Option ℕ
  pub info : Option InitInfo
  pub counter : ℕ

-- `Fsm::new`, with `NonceSource::new`.
abbrev pub new : Io → Fsm
new io = record { io = io; cid = none; info = none; counter = 0 }

-- `NonceSource::next`: the nonce, and the counter behind it.
unfoldable pub next_nonce : ℕ → List ℕ × ℕ
next_nonce counter = (to_be_bytes 8 ((counter + 1) % 2 ^ 64), (counter + 1) % 2 ^ 64)

-- What one report means to the loop of `init_handshake`; `none` goes on.
pub init_reply : ℕ → List ℕ → List ℕ → Option (Outcome FsmError InitInfo)
init_reply on_cid nonce report = elim (parse_init_header report) [
  | err e ↦ some (err (framed e))
  | ok hdr ↦
      let payload = take hdr.bcnt (drop 7 report) in
      if not (hdr.cid == on_cid) || not (hdr.cmd == cmd_init)
      then none
      else if ltb (length payload) 8 || not (bytes_eq (take 8 payload) nonce)
      then some (err (framed nonce_mismatch))
      else some (elim (decode_init_response payload) [ err e ↦ err (framed e) | ok i ↦ ok i ])
]

-- The loop of `init_handshake`.
pub await_init : ℕ → ℕ → List ℕ → Io → Ran Io InitInfo
await_init zero on_cid nonce io = out_of_fuel
await_init (suc fuel) on_cid nonce io =
    elim (read_report_bounded (enough io) Phase.channel_open io) [
      | out_of_fuel ↦ out_of_fuel
      | returned (err e) io' ↦ returned (err e) io'
      | returned (ok report) io' ↦ elim (init_reply on_cid nonce report) [
        | some r ↦ returned r io'
        | none ↦ await_init fuel on_cid nonce io'
      ]
    ]

handshake_on : ℕ → List ℕ → Outcome FramingError (List (List ℕ)) → Io → Ran Io InitInfo
handshake_on on_cid nonce (err e) io = returned (err (framed e)) io
handshake_on on_cid nonce (ok packets) io =
    let (r, io') = write_all packets io in
    elim r [
      | err e ↦ returned (err e) io'
      | ok u ↦ await_init (suc (length io'.events)) on_cid nonce io'
    ]

-- `Fsm::init_handshake`.
pub init_handshake : ℕ → Fsm → Ran Fsm InitInfo
unfolding handshake_on next_nonce
init_handshake on_cid s =
    let (nonce, counter) = next_nonce s.counter in
    elim (handshake_on on_cid nonce (encode_message on_cid cmd_init nonce) s.io) [
      | out_of_fuel ↦ out_of_fuel
      | returned r io' ↦ returned r (record s { io = io'; counter = counter })
    ]

-- `Fsm::allocate`.
pub allocate : Fsm → Ran Fsm InitInfo
allocate s = elim (init_handshake broadcast_cid s) [
  | out_of_fuel ↦ out_of_fuel
  | returned (err e) s' ↦ returned (err e) s'
  | returned (ok info) s' ↦
      if info.cid == 0 || info.cid == broadcast_cid
      then returned (err (framed (reserved_cid info.cid))) s'
      else returned (ok info) (record s' { cid = some info.cid; info = some info })
]

resync_on : Option ℕ → Fsm → Ran Fsm InitInfo
resync_on none s = allocate s
resync_on (some cid) s = init_handshake cid s

-- `Fsm::resync`.
pub resync : Fsm → Ran Fsm InitInfo
unfolding resync_on
resync s = resync_on s.cid s

cancel_on : Option ℕ → Fsm → Outcome FsmError (Unit {0}) × Fsm
cancel_on none s = (ok tt, s)
cancel_on (some cid) s = elim (encode_message cid cmd_cancel []) [
  | err e ↦ (err (framed e), s)
  | ok [] ↦ (ok tt, s)
  | ok (p ∷ ps) ↦ (let (r, io') = write_report p s.io in (r, record s { io = io' }))
]

-- `Fsm::send_cancel`; an encoded message has a first packet.
pub send_cancel : Fsm → Outcome FsmError (Unit {0}) × Fsm
unfolding cancel_on
send_cancel s = cancel_on s.cid s

ready_with : Option InitInfo → Outcome FsmError (Unit {0})
ready_with none = err (hid no_cbor)
ready_with (some info) = if cbor info.capabilities then ok tt else err (hid no_cbor)

-- `Fsm::ensure_cbor_ready`.
pub ensure_cbor_ready : Fsm → Outcome FsmError (Unit {0})
unfolding ready_with
ensure_cbor_ready s = ready_with s.info

retry_slice : Option ℕ × Deadline → Io → Option Io
retry_slice (none, d) io = none
retry_slice (some granted, d) io = some (record io { deadline = d })

-- One attempt: write the request and receive.
pub attempt : ℕ → ℕ → List ℕ → Phase → Io → Received
attempt cid cmd payload phase io = elim (encode_message cid cmd payload) [
  | err e ↦ received (fatal (framed e)) io
  | ok packets ↦
      let (r, io') = write_all packets io in
      elim r [ err e ↦ received (fatal e) io' | ok u ↦ receive_loop cid cmd phase io' ]
]

-- The loop of `transaction`, on the channel `cid`.
pub attempts : ℕ → ℕ → ℕ → List ℕ → Phase → Io → Ran Io TransactionOutcome
unfolding retry_slice
attempts zero cid cmd payload phase io = out_of_fuel
attempts (suc fuel) cid cmd payload phase io = elim (attempt cid cmd payload phase io) [
  | starved ↦ out_of_fuel
  | received (outcome o) io' ↦ returned (ok o) io'
  | received (fatal e) io' ↦ returned (err e) io'
  | received was_busy io' ↦ elim (retry_slice (consume_slice busy_retry_delay io'.deadline) io') [
    | none ↦ returned (err (core (timeout phase))) io'
    | some io'' ↦ attempts fuel cid cmd payload phase io''
  ]
]

transact_on : Option ℕ → ℕ → List ℕ → Phase → Fsm → Ran Fsm TransactionOutcome
transact_on none cmd payload phase s = returned (err (framed (unexpected_command cmd cmd_cbor))) s
transact_on (some cid) cmd payload phase s =
    elim (attempts (enough s.io) cid cmd payload phase s.io) [
      | out_of_fuel ↦ out_of_fuel
      | returned r io' ↦ returned r (record s { io = io' })
    ]

-- `Fsm::transaction`. A retry spends a nanosecond of the budget at least, so the fuel is enough.
pub transaction : ℕ → List ℕ → Phase → Fsm → Ran Fsm TransactionOutcome
unfolding transact_on
transaction cmd payload phase s = transact_on s.cid cmd payload phase s
