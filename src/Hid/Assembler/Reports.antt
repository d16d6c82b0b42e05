-- ===== src/Hid/Assembler/Reports.antt =====
-- What `Fsm::step` of fsm.rs does with one report of each kind.
use fidoh.Base.{
  ℕ, ◌+◌, ◌-◌, ◌^◌, ◌≤◌, ◌<◌, min, ◌≡◌, ◌≢◌, refl, arith, List, [], ◌∷◌, ◌++◌, length, drop,
  replicate, length-append, length-take, length-replicate, take-append-drop, take-append_front,
  take_all, append-nil, append_assoc, ok, true, ==_self,
}
use fidoh.Hid.Packet.{
  init_packet, cont_packet, cid_of, classify, parse_init_header, parse_cont_header, payload_of,
}
use fidoh.Hid.Packet.Layout.{init_packet-ReadsInit, cont_packet-ReadsCont, first_chunk, next_chunk}
use fidoh.Hid.Assembler.{
  Assembler, new, begin, push_continuation, complete, finish, frame_of, deliver, done, continue,
  finished, single_byte, step_init, step_continuation, step, step_of,
}

-- A full report on another channel is other clients' traffic: it changes nothing and surfaces
-- nothing.
pub foreign_ignored :
    (a : Assembler) (cmd : ℕ) (r : List ℕ)
    → length r ≡ 64
    → cid_of r ≢ a.cid
    → step a cmd r ≡ ok (continue a [])
unfolding step step_of step_init step_continuation classify parse_init_header parse_cont_header
foreign_ignored a cmd r size other = ground arith

-- A keepalive on the channel, one of 32 bits, surfaces its status and changes nothing else.
pub keepalive_surfaced :
    (a : Assembler) (cmd s : ℕ)
    → a.cid < 2 ^ 32
    → step a cmd (init_packet a.cid 0x3b (s ∷ [])) ≡ ok (continue a (s ∷ []))
unfolding step step_of step_init payload_of single_byte
keepalive_surfaced a cmd s h =
    let r = init_packet-ReadsInit a.cid 0x3b (s ∷ []) h (omega arith) (omega arith) in
    rw r.kind (rw r.header (rw (==_self a.cid) (rw (r.size, payload_of) (rw r.body refl))))

-- A continuation with no message in progress is ignored.
pub spurious_ignored :
    (cid cmd seq : ℕ) (rest : List ℕ)
    → cid < 2 ^ 32
    → seq < 128
    → step (new cid) cmd (cont_packet cid seq rest) ≡ ok (continue (new cid) [])
unfolding step step_of step_continuation push_continuation deliver complete
spurious_ignored cid cmd seq rest hc hs =
    let r = cont_packet-ReadsCont cid seq rest hc hs in
    rw r.kind (rw r.header (rw (==_self cid) refl))

-- The assembler inside a message: `got` of its `bcnt` bytes have come, in `seq` continuations.
abbrev pub inside : ℕ → ℕ → List ℕ → ℕ → Assembler
inside cid bcnt got seq = record {
  cid = cid;
  bcnt = bcnt;
  payload = got;
  next_seq = seq;
  active = true;
}

pub chunk_then_drop : (rest : List ℕ) → next_chunk rest ++ drop (min (length rest) 59) rest ≡ rest
chunk_then_drop rest = take-append-drop (min (length rest) 59) rest

-- A continuation that is not the last joins its whole 59 bytes.
pub cont_step_more :
    (cid cmd seq bcnt : ℕ) (got rest : List ℕ)
    → cid < 2 ^ 32
    → seq < 128
    → bcnt ≡ length got + length rest
    → bcnt ≤ 7609
    → 59 < length rest
    → step (inside cid bcnt got seq) cmd (cont_packet cid seq rest)
      ≡ ok (continue (inside cid bcnt (got ++ next_chunk rest) (seq + 1)) [])
unfolding step step_of step_continuation push_continuation deliver complete
cont_step_more cid cmd seq bcnt got rest hc hs hb hm hl =
    let r = cont_packet-ReadsCont cid seq rest hc hs in
    let size : length (next_chunk rest) ≡ 59 =
      omega (arith, length-take (min (length rest) 59) rest) in
    let whole : next_chunk rest ++ replicate (59 - length (next_chunk rest)) 0 ≡ next_chunk rest =
      rw size (append-nil (next_chunk rest)) in
    rw r.kind (
      rw r.header (
        rw (==_self cid) (
          rw (==_self seq)
            (rw r.body (rw whole (ground (arith, length-append got (next_chunk rest))))))))

-- The last continuation completes the message.
pub cont_step_last :
    (cid cmd seq bcnt : ℕ) (got rest : List ℕ)
    → cid < 2 ^ 32
    → seq < 128
    → bcnt ≡ length got + length rest
    → length got + 59 ≤ 7609
    → length rest ≤ 59
    → step (inside cid bcnt got seq) cmd (cont_packet cid seq rest)
      ≡ ok (finished (done (frame_of cmd (got ++ rest))))
unfolding step step_of step_continuation push_continuation deliver complete finish
cont_step_last cid cmd seq bcnt got rest hc hs hb hm hl =
    let r = cont_packet-ReadsCont cid seq rest hc hs in
    let size : length (next_chunk rest) ≡ length rest =
      omega (arith, length-take (min (length rest) 59) rest) in
    let zeros : List ℕ = replicate (59 - length (next_chunk rest)) 0 in
    let all : next_chunk rest ≡ rest = take_all (min (length rest) 59) rest (omega arith) in
    rw r.kind (
      rw r.header (
        rw (==_self cid) (
          rw (==_self seq) (
            rw r.body (
              ground (
                arith,
                all,
                size,
                length-append got (next_chunk rest ++ zeros),
                length-append (next_chunk rest) zeros,
                length-replicate {A = ℕ} (59 - length (next_chunk rest)) 0,
                append_assoc got (next_chunk rest) zeros,
                length-append got (next_chunk rest),
                take-append_front (got ++ next_chunk rest) zeros bcnt,
              ))))))

-- The initialization packet of a message that needs continuations, and of one that does not.
pub init_step_more :
    (cid cmd : ℕ) (payload : List ℕ)
    → cid < 2 ^ 32
    → cmd < 128
    → cmd ≢ 0x3b
    → cmd ≢ 0x3f
    → length payload ≤ 7609
    → 57 < length payload
    → step (new cid) cmd (init_packet cid cmd payload)
      ≡ ok (continue (inside cid (length payload) (first_chunk payload) 0) [])
unfolding step step_of step_init begin deliver complete
init_step_more cid cmd payload hc hm nk ne hl hx =
    let r = init_packet-ReadsInit cid cmd payload hc hm (omega arith) in
    let size : length (first_chunk payload) ≡ 57 =
      omega (arith, length-take (min (length payload) 57) payload) in
    let whole : first_chunk payload ++ replicate (57 - length (first_chunk payload)) 0
        ≡ first_chunk payload =
      rw size (append-nil (first_chunk payload)) in
    rw r.kind (rw r.header (rw (==_self cid) (rw r.body (rw whole (ground arith)))))

pub init_step_last :
    (cid cmd : ℕ) (payload : List ℕ)
    → cid < 2 ^ 32
    → cmd < 128
    → cmd ≢ 0x3b
    → cmd ≢ 0x3f
    → length payload ≤ 57
    → step (new cid) cmd (init_packet cid cmd payload) ≡ ok (finished (done (frame_of cmd payload)))
unfolding step step_of step_init begin deliver complete finish
init_step_last cid cmd payload hc hm nk ne hl =
    let r = init_packet-ReadsInit cid cmd payload hc hm (omega arith) in
    let zeros : List ℕ = replicate (57 - length (first_chunk payload)) 0 in
    let all : first_chunk payload ≡ payload =
      take_all (min (length payload) 57) payload (omega arith) in
    rw r.kind (
      rw r.header (
        rw (==_self cid) (
          rw r.body (
            ground (
              arith,
              all,
              length-append (first_chunk payload) zeros,
              take-append_front (first_chunk payload) zeros (length payload),
            )))))
