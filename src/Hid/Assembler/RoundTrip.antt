-- ===== src/Hid/Assembler/RoundTrip.antt =====
-- A message that packet.rs encodes, among other traffic, is the one that fsm.rs reassembles.
use fidoh.Base.{
  ℕ, zero, suc, ◌+◌, ◌-◌, ◌*◌, ◌/◌, ◌%◌, ◌^◌, ◌≤◌, ◌<◌, min, ◌≡◌, ◌≢◌, refl, ap, ◌∙◌, arith, List,
  [], ◌∷◌, ◌++◌, length, drop, length-append, length-take, length-drop, take-append-drop,
  append-nil, append_assoc, ok,
}
use fidoh.Hid.Packet.{init_packet, cont_packet, cont_packets, encode_message, cid_of}
use fidoh.Hid.Packet.Count.{length-cont_packets}
use fidoh.Hid.Packet.Layout.{first_chunk, next_chunk}
use fidoh.Hid.Assembler.Reports.{
  foreign_ignored, keepalive_surfaced, inside, chunk_then_drop, cont_step_more, cont_step_last,
  init_step_more, init_step_last,
}
use fidoh.Hid.Assembler.{Assembler, new, frame_of, done, continue, finished, step, resolved, steps}

-- `Weave cid packets reports statuses`: the reports hold the packets in order, with any number of
-- foreign reports and of keepalives on the channel before each; the statuses are those of the
-- keepalives. What follows the last packet is arbitrary.
pub data Weave (cid : ℕ) : List (List ℕ) → List (List ℕ) → List ℕ → Type 0 where
  last : (p : List ℕ) (behind : List (List ℕ)) → Weave cid (p ∷ []) (p ∷ behind) []
  next :
      {p q : List ℕ} {ps rs : List (List ℕ)} {ss : List ℕ}
      → Weave cid (q ∷ ps) rs ss
      → Weave cid (p ∷ q ∷ ps) (p ∷ rs) ss
  foreign :
      {ps rs : List (List ℕ)} {ss : List ℕ} (r : List ℕ)
      → length r ≡ 64
      → cid_of r ≢ cid
      → Weave cid ps rs ss
      → Weave cid ps (r ∷ rs) ss
  keepalive :
      {ps rs : List (List ℕ)} {ss : List ℕ} (s : ℕ)
      → Weave cid ps rs ss
      → Weave cid ps (init_packet cid 0x3b (s ∷ []) ∷ rs) (s ∷ ss)

steps-foreign :
    (a : Assembler) (cmd : ℕ) (r : List ℕ) (rs : List (List ℕ)) (seen : List ℕ)
    → length r ≡ 64
    → cid_of r ≢ a.cid
    → steps (r ∷ rs) cmd a seen ≡ steps rs cmd a seen
unfolding steps
steps-foreign a cmd r rs seen size other =
    rw (foreign_ignored a cmd r size other, steps) (rw append-nil refl)

steps-keepalive :
    (a : Assembler) (cmd s : ℕ) (rs : List (List ℕ)) (seen : List ℕ)
    → a.cid < 2 ^ 32
    → steps (init_packet a.cid 0x3b (s ∷ []) ∷ rs) cmd a seen ≡ steps rs cmd a (seen ++ (s ∷ []))
unfolding steps
steps-keepalive a cmd s rs seen h = rw (keepalive_surfaced a cmd s h, steps) refl

steps-continue :
    (a b : Assembler) (cmd : ℕ) (r : List ℕ) (rs : List (List ℕ)) (seen : List ℕ)
    → step a cmd r ≡ ok (continue b [])
    → steps (r ∷ rs) cmd a seen ≡ steps rs cmd b seen
unfolding steps
steps-continue a b cmd r rs seen e = rw (e, steps) (rw append-nil refl)

steps-finished :
    (a : Assembler) (cmd : ℕ) (r : List ℕ) (rs : List (List ℕ)) (seen payload : List ℕ)
    → step a cmd r ≡ ok (finished (done (frame_of cmd payload)))
    → steps (r ∷ rs) cmd a seen ≡ resolved (done (frame_of cmd payload)) seen
unfolding steps
steps-finished a cmd r rs seen payload e = rw (e, steps) refl

-- A loop of one packet has at most 59 bytes left, a longer one more.
one_packet :
    (fuel cid seq : ℕ) (rest p : List ℕ)
    → (p ∷ []) ≡ cont_packets fuel cid seq rest
    → length rest ≤ fuel
    → (p ≡ cont_packet cid seq rest) × (0 < length rest) × (length rest ≤ 59)
unfolding cont_packets
one_packet zero cid seq [] p e h = cc
one_packet (suc fuel) cid seq [] p e h = cc
one_packet zero cid seq (b ∷ bs) p e h = absurd (omega arith)
one_packet (suc fuel) cid seq (b ∷ bs) p e h =
    let more : List ℕ = drop (min (length (b ∷ bs)) 59) (b ∷ bs) in
    (
      cc,
      omega arith,
      omega (
        arith,
        ap length e,
        length-cont_packets fuel cid ((seq + 1) % 256) more
            (omega (arith, length-drop (min (length (b ∷ bs)) 59) (b ∷ bs))),
        length-drop (min (length (b ∷ bs)) 59) (b ∷ bs),
      ),
    )

more_packets :
    (fuel cid seq : ℕ) (rest p q : List ℕ) (ps : List (List ℕ))
    → (p ∷ q ∷ ps) ≡ cont_packets fuel cid seq rest
    → length rest ≤ fuel
    → (f : ℕ) × (p ≡ cont_packet cid seq rest)
      × (59 < length rest)
      × ((q ∷ ps) ≡ cont_packets f cid ((seq + 1) % 256) (drop (min (length rest) 59) rest))
      × (length (drop (min (length rest) 59) rest) ≤ f)
unfolding cont_packets
more_packets zero cid seq [] p q ps e h = cc
more_packets (suc fuel) cid seq [] p q ps e h = cc
more_packets zero cid seq (b ∷ bs) p q ps e h = absurd (omega arith)
more_packets (suc fuel) cid seq (b ∷ bs) p q ps e h =
    let more : List ℕ = drop (min (length (b ∷ bs)) 59) (b ∷ bs) in
    let small = length-drop (min (length (b ∷ bs)) 59) (b ∷ bs) in
    (
      fuel,
      cc,
      omega (
        arith,
        ap length e,
        length-cont_packets fuel cid ((seq + 1) % 256) more (omega (arith, small)),
        small,
      ),
      cc,
      omega (arith, small),
    )

-- After the initialization packet: `got` has come and `rest` is still to come.
steps-inside-Weave :
    (cid cmd bcnt fuel seq : ℕ) (rest got seen : List ℕ) {ps rs : List (List ℕ)} {ss : List ℕ}
    → Weave cid ps rs ss
    → ps ≡ cont_packets fuel cid seq rest
    → cid < 2 ^ 32
    → length got ≡ 57 + 59 * seq
    → bcnt ≡ length got + length rest
    → bcnt ≤ 7609
    → length rest ≤ fuel
    → steps rs cmd (inside cid bcnt got seq) seen
      ≡ resolved (done (frame_of cmd (got ++ rest))) (seen ++ ss)
unfolding cont_packets
steps-inside-Weave cid cmd bcnt fuel seq rest got seen (foreign r size other w) e hc hg hb hm hf =
    steps-foreign (inside cid bcnt got seq) cmd r _ seen size other
    ∙ steps-inside-Weave cid cmd bcnt fuel seq rest got seen w e hc hg hb hm hf
steps-inside-Weave cid cmd bcnt fuel seq rest got seen (keepalive {ss = ss} s w) e hc hg hb hm hf =
    steps-keepalive (inside cid bcnt got seq) cmd s _ seen hc
    ∙ steps-inside-Weave cid cmd bcnt fuel seq rest got (seen ++ (s ∷ [])) w e hc hg hb hm hf
    ∙ ap (resolved (done (frame_of cmd (got ++ rest)))) (append_assoc seen (s ∷ []) ss)
steps-inside-Weave cid cmd bcnt fuel seq rest got seen (last p behind) e hc hg hb hm hf =
    let (first, some_left, few) = one_packet fuel cid seq rest p e hf in
    rw (append-nil seen) (
      steps-finished (inside cid bcnt got seq) cmd p behind seen (got ++ rest)
        (rw first (cont_step_last cid cmd seq bcnt got rest hc (omega arith) hb (omega arith) few)))
steps-inside-Weave cid cmd bcnt fuel seq rest got seen
      (next {p = p} {q = q} {ps = ps} {rs = rs} {ss = ss} w) e hc hg hb hm hf =
    let (f, first, many, others, enough) = more_packets fuel cid seq rest p q ps e hf in
    let later : List ℕ = drop (min (length rest) 59) rest in
    let size : length later ≡ length rest - 59 =
      omega (arith, length-drop (min (length rest) 59) rest) in
    let got' : List ℕ = got ++ next_chunk rest in
    let size' : length got' ≡ length got + 59 =
      omega (arith, length-append got (next_chunk rest), length-take (min (length rest) 59) rest) in
    let wrap : (seq + 1) % 256 ≡ seq + 1 = omega arith in
    steps-continue (inside cid bcnt got seq) (inside cid bcnt got' (seq + 1)) cmd p rs seen
      (rw first (cont_step_more cid cmd seq bcnt got rest hc (omega arith) hb hm many))
    ∙ steps-inside-Weave cid cmd bcnt f (seq + 1) later got' seen w (rw wrap at others) hc
        (omega arith) (omega arith) hm enough
    ∙ ap (λ (t : List ℕ). resolved (done (frame_of cmd t)) (seen ++ ss))
        (append_assoc got (next_chunk rest) later
          ∙ ap (λ (t : List ℕ). got ++ t) (chunk_then_drop rest))

first_and_rest :
    (payload : List ℕ) → first_chunk payload ++ drop (min (length payload) 57) payload ≡ payload
first_and_rest payload = take-append-drop (min (length payload) 57) payload

after_first : List ℕ → List ℕ
after_first payload = drop (min (length payload) 57) payload

-- What an accepted message consists of, and how long the rest behind its first packet is.
encoded_parts :
    (cid cmd : ℕ) (payload p : List ℕ) (ps : List (List ℕ))
    → encode_message cid cmd payload ≡ ok (p ∷ ps)
    → (length payload ≤ 7609)
      × (p ≡ init_packet cid cmd payload)
      × (ps ≡ cont_packets (length (after_first payload)) cid 0 (after_first payload))
      × (length (after_first payload) ≡ length payload - 57)
      × (length ps ≡ (length payload - 57 + 58) / 59)
unfolding encode_message after_first
encoded_parts cid cmd payload p ps e =
    let size : length (after_first payload) ≡ length payload - 57 =
      omega (arith, length-drop (min (length payload) 57) payload) in
    let count =
      length-cont_packets (length (after_first payload)) cid 0 (after_first payload)
        (omega arith) in
    (ground arith, ground arith, ground arith, size, ground (arith, count, size))

-- The same from the first packet on.
pub steps-new-Weave :
    (cid cmd : ℕ) (payload seen : List ℕ) {ps rs : List (List ℕ)} {ss : List ℕ}
    → Weave cid ps rs ss
    → encode_message cid cmd payload ≡ ok ps
    → cid < 2 ^ 32
    → cmd < 128
    → cmd ≢ 0x3b
    → cmd ≢ 0x3f
    → steps rs cmd (new cid) seen ≡ resolved (done (frame_of cmd payload)) (seen ++ ss)
steps-new-Weave cid cmd payload seen (foreign r size other w) e hc hm nk ne =
    steps-foreign (new cid) cmd r _ seen size other
    ∙ steps-new-Weave cid cmd payload seen w e hc hm nk ne
steps-new-Weave cid cmd payload seen (keepalive {ss = ss} s w) e hc hm nk ne =
    steps-keepalive (new cid) cmd s _ seen hc
    ∙ steps-new-Weave cid cmd payload (seen ++ (s ∷ [])) w e hc hm nk ne
    ∙ ap (resolved (done (frame_of cmd payload))) (append_assoc seen (s ∷ []) ss)
steps-new-Weave cid cmd payload seen (last p behind) e hc hm nk ne =
    let (fits, first, _, _, count) = encoded_parts cid cmd payload p [] e in
    rw (append-nil seen) (
      steps-finished (new cid) cmd p behind seen payload
        (rw first (init_step_last cid cmd payload hc hm nk ne (omega (arith, count)))))
steps-new-Weave cid cmd payload seen (next {p = p} {q = q} {ps = ps} {rs = rs} {ss = ss} w) e hc hm
      nk ne =
    let (fits, first, others, size, count) = encoded_parts cid cmd payload p (q ∷ ps) e in
    let long : 57 < length payload = omega (arith, count) in
    let got : List ℕ = first_chunk payload in
    let got_size : length got ≡ 57 = omega (arith, length-take (min (length payload) 57) payload) in
    steps-continue (new cid) (inside cid (length payload) got 0) cmd p rs seen
      (rw first (init_step_more cid cmd payload hc hm nk ne fits long))
    ∙ steps-inside-Weave cid cmd (length payload) (length (after_first payload)) 0
        (after_first payload) got seen w others hc (omega arith) (omega arith) fits (omega arith)
    ∙ ap (λ (t : List ℕ). resolved (done (frame_of cmd t)) (seen ++ ss))
        (unfold after_first in first_and_rest payload)

-- The packets of an encoded message, on a channel of 32 bits and with a 7-bit command that is not a
-- keepalive or an error, woven with any full reports on other channels and any keepalives, resolve
-- to the message, and the keepalives before its end are surfaced in order.
pub transaction_round_trip :
    (cid cmd : ℕ) (payload : List ℕ) {ps rs : List (List ℕ)} {ss : List ℕ}
    → encode_message cid cmd payload ≡ ok ps
    → cid < 2 ^ 32
    → cmd < 128
    → cmd ≢ 0x3b
    → cmd ≢ 0x3f
    → Weave cid ps rs ss
    → steps rs cmd (new cid) [] ≡ resolved (done (frame_of cmd payload)) ss
transaction_round_trip cid cmd payload e hc hm nk ne w =
    steps-new-Weave cid cmd payload [] w e hc hm nk ne
