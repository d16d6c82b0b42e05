-- ===== src/Hid/Fsm/Allocation.antt =====
-- `Fsm::init_handshake`, `allocate` and `resync` of fsm.rs: they end, and what they leave behind.
use fidoh.Base.{
  ℕ, zero, suc, ◌≤◌, ◌<◌, ◌≡◌, ◌≢◌, refl, arith, List, length, Option, none, some, ok, err, Outcome,
  ◌||◌, ◌==◌, if◌then◌else◌,
}
use fidoh.Core.Time.{Phase}
use fidoh.Hid.Errors.{FramingError, reserved_cid}
use fidoh.Hid.Packet.{broadcast_cid, encode_message}
use fidoh.Hid.Io.{
  Io, FsmError, framed, Ran, returned, out_of_fuel, read_report_bounded, enough, write_all,
}
use fidoh.Hid.Io.Waiting.{NoMore, breaks, ReadSpends, read_ends}
use fidoh.Hid.Io.Writing.{NoMore-refl, NoMore-trans, write_all-NoMore}
use fidoh.Hid.Fsm.{
  Fsm, InitInfo, init_reply, await_init, handshake_on, init_handshake, next_nonce, allocate,
}
use fidoh.Hid.Fsm.Transactions.{Ends}

await_init-Ends :
    (fuel on_cid : ℕ) (nonce : List ℕ) (io : Io)
    → length io.events < fuel
    → Ends io (await_init fuel on_cid nonce io)
unfolding await_init
await_init-Ends zero on_cid nonce io h = absurd (omega arith)
await_init-Ends (suc fuel) on_cid nonce io h =
    on_read (read_report_bounded (enough io) Phase.channel_open io)
      (read_ends (enough io) Phase.channel_open io (omega arith))
      (λ io' less. await_init-Ends fuel on_cid nonce io' less)
  where
    on_reply :
        (o : Option (Outcome FsmError InitInfo)) (io' : Io)
        → NoMore io io'
        → Ends io' (await_init fuel on_cid nonce io')
        → Ends io (elim o [ some r ↦ returned r io' | none ↦ await_init fuel on_cid nonce io' ])
    on_reply (some r) io' w rest = w
    on_reply none io' w rest = widen (await_init fuel on_cid nonce io') rest
      where
        widen : (r : Ran Io InitInfo) → Ends io' r → Ends io r
        widen (returned r io'') v = NoMore-trans w v
        widen out_of_fuel v = omega arith

    on_read :
        (r : Ran Io (List ℕ))
        → ReadSpends io r
        → ((io' : Io) → length io'.events < fuel → Ends io' (await_init fuel on_cid nonce io'))
        → Ends io (elim r [
          | out_of_fuel ↦ out_of_fuel
          | returned (err e) io' ↦ returned (err e) io'
          | returned (ok report) io' ↦ elim (init_reply on_cid nonce report) [
            | some r ↦ returned r io'
            | none ↦ await_init fuel on_cid nonce io'
          ]
        ])
    on_read out_of_fuel w ih = w
    on_read (returned (err e) io') w ih = w
    on_read (returned (ok report) io') w ih =
        on_reply (init_reply on_cid nonce report) io' w.0 (ih io' (omega arith))

handshake_on-Ends :
    (on_cid : ℕ) (nonce : List ℕ) (m : Outcome FramingError (List (List ℕ))) (io : Io)
    → Ends io (handshake_on on_cid nonce m io)
unfolding handshake_on
handshake_on-Ends on_cid nonce (err e) io = NoMore-refl io
handshake_on-Ends on_cid nonce (ok packets) io =
    wrote (write_all packets io).0 (write_all packets io).1 (write_all-NoMore packets io)
  where
    widen : {io' : Io} → NoMore io io' → (r : Ran Io InitInfo) → Ends io' r → Ends io r
    widen w (returned r io'') v = NoMore-trans w v
    widen w out_of_fuel v = omega arith

    wrote :
        (r : Outcome FsmError (Unit {0})) (io' : Io)
        → NoMore io io'
        → Ends io (elim r [
          | err e ↦ returned (err e) io'
          | ok u ↦ await_init (suc (length io'.events)) on_cid nonce io'
        ])
    wrote (err e) io' w = w
    wrote (ok u) io' w =
        widen w (await_init (suc (length io'.events)) on_cid nonce io')
          (await_init-Ends (suc (length io'.events)) on_cid nonce io' (omega arith))

-- A handshake: the channel is as before, and no budget was gained, unless it is broken off.
abbrev pub HandshakeEnds : Fsm → Ran Fsm InitInfo → Type 0
HandshakeEnds s (returned r s') =
    (s'.cid ≡ s.cid) × (s'.info ≡ s.info) × (s'.io.deadline.remaining ≤ s.io.deadline.remaining)
HandshakeEnds s out_of_fuel = 0 < breaks s.io.events

pub init_handshake_ends : (on_cid : ℕ) (s : Fsm) → HandshakeEnds s (init_handshake on_cid s)
unfolding init_handshake
init_handshake_ends on_cid s =
    go
      (handshake_on on_cid (next_nonce s.counter).0
        (encode_message on_cid 0x06 (next_nonce s.counter).0) s.io)
      (handshake_on-Ends on_cid (next_nonce s.counter).0
        (encode_message on_cid 0x06 (next_nonce s.counter).0) s.io)
  where
    go :
        (r : Ran Io InitInfo)
        → Ends s.io r
        → (let x : Ran Fsm InitInfo = elim r [
          | out_of_fuel ↦ out_of_fuel
          | returned r io' ↦ returned r (record s { io = io'; counter = (next_nonce s.counter).1 })
        ] in
            HandshakeEnds s x)
    go out_of_fuel w = w
    go (returned r io') w = (refl, refl, w.budget)

-- What `allocate` leaves: on success a usable channel, recorded with its answer; on an error the
-- channel as it was; in both cases no more budget than before. Only a list of reads that is broken off
-- leaves nothing.
abbrev pub Allocated : Fsm → Ran Fsm InitInfo → Type 0
Allocated s (returned (ok i) s') =
    (i.cid ≢ 0)
    × (i.cid ≢ 0xffff_ffff)
    × (s'.cid ≡ some i.cid)
    × (s'.info ≡ some i)
    × (s'.io.deadline.remaining ≤ s.io.deadline.remaining)
Allocated s (returned (err e) s') =
    (s'.cid ≡ s.cid) × (s'.info ≡ s.info) × (s'.io.deadline.remaining ≤ s.io.deadline.remaining)
Allocated s out_of_fuel = 0 < breaks s.io.events

-- When `Fsm::allocate` succeeds, the channel is neither 0 nor the broadcast one, and it is recorded
-- with the device's answer; when it fails, the channel and the answer recorded before are kept; both with no
-- more budget than before. It does one of both unless the reads of the fd are not followed to its silence.
pub allocate-Allocated : (s : Fsm) → Allocated s (allocate s)
unfolding allocate
allocate-Allocated s = go (init_handshake broadcast_cid s) (init_handshake_ends broadcast_cid s)
  where
    go :
        (r : Ran Fsm InitInfo)
        → HandshakeEnds s r
        → (let x : Ran Fsm InitInfo = elim r [
          | out_of_fuel ↦ out_of_fuel
          | returned (err e) s' ↦ returned (err e) s'
          | returned (ok info) s' ↦
              if info.cid == 0 || info.cid == broadcast_cid
              then returned (err (framed (reserved_cid info.cid))) s'
              else returned (ok info) (record s' { cid = some info.cid; info = some info })
        ] in
            Allocated s x)
    go out_of_fuel u = u
    go (returned (err e) s') u = u
    go (returned (ok i) s') u = ground arith
