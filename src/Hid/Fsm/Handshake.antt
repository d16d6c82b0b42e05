-- ===== src/Hid/Fsm/Handshake.antt =====
-- Channel allocation and the INIT reply of fsm.rs.
use fidoh.Base.{
  ℕ, zero, suc, ◌+◌, ◌%◌, ◌<◌, ◌^◌, ◌≡◌, ◌≢◌, refl, ap, ◌∙◌, arith, List, [], ◌∷◌, ◌++◌, length,
  length-append, length-map, map, All, to_be_bytes, from_be_bytes, get_or, none, some, ok, err,
  Outcome, ==_self, bytes_eq_refl, bit_and,
}
use fidoh.Hid.Errors.{FramingError}
use fidoh.Hid.Packet.{
  encode_message, init_packet, cont_packet, cont_packets, parse_init_header, cid_of,
}
use fidoh.Hid.Packet.Layout.{cont_packet-ReadsCont, init_packet-ReadsInit, cont_packet_layout}
use fidoh.Hid.Assembler
use fidoh.Hid.Assembler.Reports.{spurious_ignored}
use fidoh.Hid.Assembler.{step, continue}
use fidoh.Hid.Io.{ReadEvent, report, Io, FsmError, Ran, returned, out_of_fuel}
use fidoh.Hid.Io.Writing.{calm, write_all-calm}
use fidoh.Hid.Io.Ready.{read_ready}
use fidoh.Hid.Fsm.{
  await_init, handshake_on, Fsm, InitInfo, init_reply, decode_init_response, allocate,
  init_handshake, next_nonce,
}

-- The reply that a device lays out: the nonce, the channel, the versions, the capabilities.
abbrev pub reply_payload : List ℕ → InitInfo → List ℕ
reply_payload nonce i =
    nonce ++ to_be_bytes 4 i.cid ++ i.protocol_version ∷ i.device_version ++ i.capabilities ∷ []

abbrev eight : ℕ → ℕ → ℕ → ℕ → ℕ → ℕ → ℕ → ℕ → List ℕ
eight a b c d e f g h = a ∷ b ∷ c ∷ d ∷ e ∷ f ∷ g ∷ h ∷ []

abbrev pub device_info : ℕ → ℕ → ℕ → ℕ → ℕ → ℕ → InitInfo
device_info cid protocol major minor build caps = record {
  cid = cid;
  protocol_version = protocol;
  device_version = major ∷ minor ∷ build ∷ [];
  capabilities = caps;
}

-- A reply with the nonce that was sent is read as what the device laid out.
init_reply_reads :
    (on_cid cid pv ma mi bu caps a b c d e f g h : ℕ)
    → on_cid < 2 ^ 32
    → cid < 2 ^ 32
    → init_reply on_cid (eight a b c d e f g h) (
        init_packet on_cid 0x06
          (reply_payload (eight a b c d e f g h) (device_info cid pv ma mi bu caps)))
      ≡ some (ok (device_info cid pv ma mi bu caps))
unfolding init_reply decode_init_response
init_reply_reads on_cid cid pv ma mi bu caps a b c d e f g h fits small =
    let r =
      init_packet-ReadsInit on_cid 0x06
        (reply_payload (eight a b c d e f g h) (device_info cid pv ma mi bu caps)) fits
        (omega arith) (omega arith) in
    rw (r.header, init_reply)
      (rw (==_self on_cid) (rw r.body (rw (bytes_eq_refl (eight a b c d e f g h)) (ground arith))))

cont_as_init :
    (cid : ℕ) (rest : List ℕ)
    → cid < 2 ^ 32
    → (n : ℕ) × (parse_init_header (cont_packet cid 0x06 rest)
        ≡ ok (record { cid = cid; cmd = 0x06; bcnt = n }))
unfolding parse_init_header
cont_as_init cid rest h =
    let r = cont_packet-ReadsCont cid 0x06 rest h (omega arith) in
    let p : List ℕ = cont_packet cid 0x06 rest in
    (
      from_be_bytes (get_or p 5 0 ∷ get_or p 6 0 ∷ []),
      rw r.size (λ i. ok (record {
        cid = channel i;
        cmd = command i;
        bcnt = from_be_bytes (get_or p 5 0 ∷ get_or p 6 0 ∷ []);
      })),
    )
  where
    channel : cid_of (cont_packet cid 0x06 rest) ≡ cid
    channel = rw cont_packet_layout (omega arith)

    command : bit_and (get_or (cont_packet cid 0x06 rest) 4 0) 0x7f ≡ 0x06
    command = rw cont_packet_layout refl

-- On a channel of 32 bits, the INIT loop takes a continuation packet with SEQ 0x06 for an INIT reply
-- and ends, where the fold of a transaction ignores such a packet when no message is in progress.
pub init_reply_misreads :
    (cid : ℕ) (nonce rest : List ℕ)
    → cid < 2 ^ 32
    → (init_reply cid nonce (cont_packet cid 0x06 rest) ≢ none)
      × (step (Assembler.new cid) 0x06 (cont_packet cid 0x06 rest)
          ≡ ok (continue (Assembler.new cid) []))
unfolding init_reply
init_reply_misreads cid nonce rest h =
    let (n, e) = cont_as_init cid rest h in
    (λ x. ground (arith, e, x), spurious_ignored cid 0x06 0x06 rest h (omega arith))

-- Reports on other channels before the reply.
abbrev pub IsForeign : ℕ → List ℕ → Type 0
IsForeign cid r = (length r ≡ 64) × (cid_of r ≢ cid)

parse_init_header-report :
    (r : List ℕ)
    → length r ≡ 64
    → parse_init_header r
      ≡ ok (record {
        cid = cid_of r;
        cmd = bit_and (get_or r 4 0) 0x7f;
        bcnt = from_be_bytes (get_or r 5 0 ∷ get_or r 6 0 ∷ []);
      })
unfolding parse_init_header
parse_init_header-report r size = rw size refl

foreign_passed : (cid : ℕ) (nonce r : List ℕ) → IsForeign cid r → init_reply cid nonce r ≡ none
unfolding init_reply
foreign_passed cid nonce r (size, other) =
    rw (parse_init_header-report r size, init_reply) (ground arith)

await_init-reply :
    (rs : List (List ℕ)) (fuel cid : ℕ) (nonce r : List ℕ) (es : List ReadEvent) (io : Io)
    {i : InitInfo}
    → length rs < fuel
    → All (IsForeign cid) rs
    → init_reply cid nonce r ≡ some (ok i)
    → await_init fuel cid nonce (record io { events = map report rs ++ report r ∷ es })
      ≡ returned (ok i) (record io { events = es })
unfolding await_init
await_init-reply rs zero cid nonce r es io h f e = absurd (omega arith)
await_init-reply [] (suc fuel) cid nonce r es io h f e = rw (read_ready, await_init) (rw e refl)
await_init-reply (q ∷ rs) (suc fuel) cid nonce r es io h f e =
    rw (read_ready, await_init)
      (rw (foreign_passed cid nonce q f.0)
        (await_init-reply rs fuel cid nonce r es io (omega arith) f.1 e))

one_init_packet :
    (cid a b c d e f g h : ℕ)
    → encode_message cid 0x06 (eight a b c d e f g h)
      ≡ ok (init_packet cid 0x06 (eight a b c d e f g h) ∷ [])
unfolding encode_message cont_packets
one_init_packet cid a b c d e f g h = refl

-- What the device writes back to the nonce behind this counter.
abbrev pub init_answer : ℕ → ℕ → InitInfo → List ℕ
init_answer on_cid counter i =
    init_packet on_cid 0x06 (reply_payload (to_be_bytes 8 ((counter + 1) % 2 ^ 64)) i)

handshake-calm :
    (cid : ℕ) (nonce p : List ℕ) (w : List (List ℕ)) (io : Io)
    → handshake_on cid nonce (ok (p ∷ [])) (calm w io)
      ≡ await_init (suc (length io.events)) cid nonce (calm (w ++ p ∷ []) io)
unfolding handshake_on
handshake-calm cid nonce p w io = ap go (write_all-calm (p ∷ []) w io)
  where
    go : Outcome FsmError (Unit {0}) × Io → Ran Io InitInfo
    go (r, io') = elim r [
      | err e ↦ returned (err e) io'
      | ok u ↦ await_init (suc (length io'.events)) cid nonce io'
    ]

-- An INIT exchange on a channel, with the reply behind reports on other channels.
init_handshake_delivers :
    (s : Fsm) (on_cid cid pv ma mi bu caps : ℕ) (rs w : List (List ℕ)) (es : List ReadEvent)
    → on_cid < 2 ^ 32
    → cid < 2 ^ 32
    → All (IsForeign on_cid) rs
    → init_handshake on_cid (record s {
      io = calm w (record (s.io) {
        events =
            map report rs
            ++ report (init_answer on_cid s.counter (device_info cid pv ma mi bu caps)) ∷ es;
      });
    })
      ≡ returned (ok (device_info cid pv ma mi bu caps)) (record s {
        io =
            calm
              (w ++ init_packet on_cid 0x06 (to_be_bytes 8 ((s.counter + 1) % 2 ^ 64)) ∷ [])
              (record (s.io) { events = es });
        counter = (s.counter + 1) % 2 ^ 64;
      })
unfolding init_handshake next_nonce
init_handshake_delivers s on_cid cid pv ma mi bu caps rs w es fits small f =
    let n : ℕ = (s.counter + 1) % 2 ^ 64 in
    let answer : List ℕ = init_answer on_cid s.counter (device_info cid pv ma mi bu caps) in
    let io₀ : Io = record (s.io) { events = map report rs ++ report answer ∷ es } in
    let packet : List ℕ = init_packet on_cid 0x06 (to_be_bytes 8 n) in
    ap
      (λ (r : Ran Io InitInfo).
        let x : Ran Fsm InitInfo = elim r [
          | out_of_fuel ↦ out_of_fuel
          | returned r io' ↦ returned r (record s { io = io'; counter = n })
        ] in
        x)
      (ap
          (λ (m : Outcome FramingError (List (List ℕ))).
            handshake_on on_cid (to_be_bytes 8 n) m (calm w io₀))
          (one_init_packet on_cid _ _ _ _ _ _ _ _)
        ∙ handshake-calm on_cid (to_be_bytes 8 n) packet w io₀
        ∙ await_init-reply rs (suc (length io₀.events)) on_cid (to_be_bytes 8 n) answer es
            (calm (w ++ packet ∷ []) io₀)
            (omega
              (arith, length-append (map report rs) (report answer ∷ es), length-map rs report))
            f (init_reply_reads on_cid cid pv ma mi bu caps _ _ _ _ _ _ _ _ fits small))

-- With no write fault, allocation writes one INIT packet on the broadcast channel. From the reply
-- that carries its nonce, behind any full reports on other channels, it takes and records the
-- channel that the reply names, where that is neither 0 nor the broadcast one, and the answer.
pub allocate_delivers :
    (s : Fsm) (cid pv ma mi bu caps : ℕ) (rs w : List (List ℕ)) (es : List ReadEvent)
    → cid ≢ 0
    → cid < 0xffff_ffff
    → All (IsForeign 0xffff_ffff) rs
    → allocate (record s {
      io = calm w (record (s.io) {
        events =
            map report rs
            ++ report (init_answer 0xffff_ffff s.counter (device_info cid pv ma mi bu caps)) ∷ es;
      });
    })
      ≡ returned (ok (device_info cid pv ma mi bu caps)) (record {
        io =
            calm
              (w ++ init_packet 0xffff_ffff 0x06 (to_be_bytes 8 ((s.counter + 1) % 2 ^ 64)) ∷ [])
              (record (s.io) { events = es });
        cid = some cid;
        info = some (device_info cid pv ma mi bu caps);
        counter = (s.counter + 1) % 2 ^ 64;
      })
unfolding allocate
allocate_delivers s cid pv ma mi bu caps rs w es nz small f =
    rw
      (
        init_handshake_delivers s 0xffff_ffff cid pv ma mi bu caps rs w es (omega arith)
            (omega arith) f,
        allocate,
      )
      (ground arith)
