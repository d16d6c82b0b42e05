-- ===== src/Hid/Fsm/Transactions.antt =====
-- `Fsm::transaction` of fsm.rs: it ends, it pays from the budget, and it delivers the reply.
use fidoh.Base.{
  ℕ, zero, suc, ◌≤◌, ◌<◌, ◌^◌, ◌≡◌, ◌≢◌, refl, ap, ◌∙◌, arith, List, [], ◌++◌, map, Option, none,
  some, ok, err, Outcome,
}
use fidoh.Core.Time.{Deadline, Phase, consume_slice}
use fidoh.Core.Errors.{timeout}
use fidoh.Hid.Errors.{FramingError, unexpected_command}
use fidoh.Hid.Packet.{encode_message, cmd_cbor}
use fidoh.Hid.Assembler.{TransactionOutcome, frame_of, done}
use fidoh.Hid.Assembler.RoundTrip.{Weave, steps-new-Weave}
use fidoh.Hid.Io.{
  ReadEvent, report, Io, FsmError, Ran, returned, out_of_fuel, enough, Received, received, starved,
  outcome, was_busy, fatal, write_all, receive_loop, framed, core, busy_retry_delay,
}
use fidoh.Hid.Io.Waiting.{NoMore, breaks, ReceiveSpends, receive_loop_ends}
use fidoh.Hid.Io.Writing.{NoMore-refl, NoMore-trans, write_all-NoMore, write_all-calm, calm}
use fidoh.Hid.Io.Ready.{receive_loop-steps, reading}
use fidoh.Hid.Fsm.{Fsm, attempt, attempts, transaction, transact_on, retry_slice}

attempt-ReceiveSpends :
    (cid cmd : ℕ) (payload : List ℕ) (phase : Phase) (io : Io)
    → ReceiveSpends io (attempt cid cmd payload phase io)
unfolding attempt
attempt-ReceiveSpends cid cmd payload phase io = go (encode_message cid cmd payload)
  where
    widen : {a b : Io} → NoMore a b → (r : Received) → ReceiveSpends b r → ReceiveSpends a r
    widen w (received o io') v = NoMore-trans w v
    widen w starved v = omega arith

    wrote :
        (r : Outcome FsmError (Unit {0})) (io' : Io)
        → NoMore io io'
        → ReceiveSpends io
            (elim r [ err e ↦ received (fatal e) io' | ok u ↦ receive_loop cid cmd phase io' ])
    wrote (err e) io' w = w
    wrote (ok u) io' w =
        widen w (receive_loop cid cmd phase io') (receive_loop_ends cid cmd phase io')

    go :
        (m : Outcome FramingError (List (List ℕ)))
        → ReceiveSpends io (elim m [
          | err e ↦ received (fatal (framed e)) io
          | ok packets ↦
              let (r, io') = write_all packets io in
              elim r [ err e ↦ received (fatal e) io' | ok u ↦ receive_loop cid cmd phase io' ]
        ])
    go (err e) = NoMore-refl io
    go (ok packets) =
        wrote (write_all packets io).0 (write_all packets io).1 (write_all-NoMore packets io)

-- A run that returned, without more budget or more to read than before, or that is broken off.
abbrev pub Ends : {A : Type 0} → Io → Ran Io A → Type 0
Ends io (returned r io') = NoMore io io'
Ends io out_of_fuel = 0 < breaks io.events

slice_spends :
    (d : Deadline)
    → (consume_slice busy_retry_delay d).0 ≢ none
    → (consume_slice busy_retry_delay d).1.remaining < d.remaining
unfolding consume_slice
slice_spends d h = ground arith

attempts-Ends :
    (fuel cid cmd : ℕ) (payload : List ℕ) (phase : Phase) (io : Io)
    → io.deadline.remaining < fuel
    → Ends io (attempts fuel cid cmd payload phase io)
unfolding attempts retry_slice
attempts-Ends zero cid cmd payload phase io h = absurd (omega arith)
attempts-Ends (suc fuel) cid cmd payload phase io h =
    go (attempt cid cmd payload phase io) (attempt-ReceiveSpends cid cmd payload phase io)
      (λ io' less. attempts-Ends fuel cid cmd payload phase io' (omega arith))
  where
    widen : {a b : Io} → NoMore a b → (r : Ran Io TransactionOutcome) → Ends b r → Ends a r
    widen w (returned r io') v = NoMore-trans w v
    widen w out_of_fuel v = omega arith

    retried :
        (io' : Io) (c : Option ℕ × Deadline)
        → NoMore io io'
        → (c.0 ≢ none → c.1.remaining < io'.deadline.remaining)
        → ((b : Io)
            → b.deadline.remaining < io.deadline.remaining
            → Ends b (attempts fuel cid cmd payload phase b))
        → Ends io (elim (retry_slice c io') [
          | none ↦ returned (err (core (timeout phase))) io'
          | some io'' ↦ attempts fuel cid cmd payload phase io''
        ])
    retried io' (none, d) w paid ih = w
    retried io' (some g, d) w paid ih =
        let less = paid (λ e. cc) in
        widen (omega arith) (attempts fuel cid cmd payload phase (record io' { deadline = d }))
          (ih (record io' { deadline = d }) (omega arith))

    go :
        (r : Received)
        → ReceiveSpends io r
        → ((b : Io)
            → b.deadline.remaining < io.deadline.remaining
            → Ends b (attempts fuel cid cmd payload phase b))
        → Ends io (elim r [
          | starved ↦ out_of_fuel
          | received (outcome o) io' ↦ returned (ok o) io'
          | received (fatal e) io' ↦ returned (err e) io'
          | received was_busy io' ↦
              elim (retry_slice (consume_slice busy_retry_delay io'.deadline) io') [
                | none ↦ returned (err (core (timeout phase))) io'
                | some io'' ↦ attempts fuel cid cmd payload phase io''
              ]
        ])
    go starved w ih = w
    go (received (outcome o) io') w ih = w
    go (received (fatal e) io') w ih = w
    go (received was_busy io') w ih =
        retried io' (consume_slice busy_retry_delay io'.deadline) w (slice_spends io'.deadline) ih

-- `Fsm::transaction` returns on every channel state, with no more budget than it was given, if the fd
-- has finitely many reports, empty reads and faults to give before it stays silent.
pub transaction_ends :
    (cmd : ℕ) (payload : List ℕ) (phase : Phase) (s : Fsm)
    → breaks s.io.events ≡ 0
    → (r : Outcome FsmError TransactionOutcome) × (s' : Fsm) × (transaction cmd payload phase s
        ≡ returned r s')
      × (s'.io.deadline.remaining ≤ s.io.deadline.remaining)
unfolding transaction
transaction_ends cmd payload phase s silent = go s.cid
  where
    finish :
        (cid : ℕ) (r : Ran Io TransactionOutcome)
        → Ends s.io r
        → (o : Outcome FsmError TransactionOutcome) × (s' : Fsm) × (elim r [
          | out_of_fuel ↦ out_of_fuel
          | returned r io' ↦ returned r (record s { io = io' })
        ]
            ≡ returned o s')
          × (s'.io.deadline.remaining ≤ s.io.deadline.remaining)
    finish cid (returned r io') w = (r, record s { io = io' }, refl, w.budget)
    finish cid out_of_fuel w = absurd (omega arith)

    go :
        (c : Option ℕ)
        → (o : Outcome FsmError TransactionOutcome) × (s' : Fsm) × (transact_on c cmd payload phase
              s
            ≡ returned o s')
          × (s'.io.deadline.remaining ≤ s.io.deadline.remaining)
    go none = (err (framed (unexpected_command cmd cmd_cbor)), s, refl, omega arith)
    go (some cid) =
        finish cid (attempts (enough s.io) cid cmd payload phase s.io)
          (attempts-Ends (enough s.io) cid cmd payload phase s.io (omega arith))

attempt-calm :
    (cid cmd : ℕ) (payload : List ℕ) (phase : Phase) (io : Io) {ps : List (List ℕ)}
    (w : List (List ℕ))
    → encode_message cid cmd payload ≡ ok ps
    → attempt cid cmd payload phase (calm w io) ≡ receive_loop cid cmd phase (calm (w ++ ps) io)
unfolding attempt
attempt-calm cid cmd payload phase io {ps = ps} w e =
    rw (e, attempt) (ap go (write_all-calm ps w io))
  where
    go : Outcome FsmError (Unit {0}) × Io → Received
    go (r, io') = elim r [ err e ↦ received (fatal e) io' | ok u ↦ receive_loop cid cmd phase io' ]

-- One attempt over reports that hold the whole reply.
attempt_delivers :
    (cid cmd : ℕ) (payload reply : List ℕ) (phase : Phase) (io : Io) (es : List ReadEvent)
    {ps qs rs : List (List ℕ)} {ss : List ℕ} (seen : List ℕ) (w : List (List ℕ))
    → cid < 2 ^ 32
    → cmd < 128
    → cmd ≢ 0x3b
    → cmd ≢ 0x3f
    → encode_message cid cmd payload ≡ ok ps
    → encode_message cid cmd reply ≡ ok qs
    → Weave cid qs rs ss
    → (left : List ReadEvent) × (attempt cid cmd payload phase (calm w (reading rs es seen io))
        ≡ received
            (outcome (done (frame_of cmd reply)))
            (record (calm (w ++ ps) io) { events = left; surfaced = seen ++ ss }))
attempt_delivers cid cmd payload reply phase io es {ps = ps} {rs = rs} seen w fits small nk ne hp hq
      weave =
    let (left, e) =
      receive_loop-steps rs cid cmd phase es seen (calm (w ++ ps) io)
        (steps-new-Weave cid cmd reply seen weave hq fits small nk ne) in
    (left, attempt-calm cid cmd payload phase (reading rs es seen io) w hp ∙ e)

attempts-outcome :
    (fuel cid cmd : ℕ) (payload : List ℕ) (phase : Phase) (io : Io) {o : TransactionOutcome}
    (io' : Io)
    → attempt cid cmd payload phase io ≡ received (outcome o) io'
    → attempts (suc fuel) cid cmd payload phase io ≡ returned (ok o) io'
unfolding attempts
attempts-outcome fuel cid cmd payload phase io io' e = rw (e, attempts) refl

transaction_delivers_on :
    (cid cmd : ℕ) (payload reply : List ℕ) (phase : Phase) (s : Fsm) (es : List ReadEvent)
    {ps qs rs : List (List ℕ)} {ss : List ℕ}
    → s.cid ≡ some cid
    → cid < 2 ^ 32
    → cmd < 128
    → cmd ≢ 0x3b
    → cmd ≢ 0x3f
    → encode_message cid cmd payload ≡ ok ps
    → encode_message cid cmd reply ≡ ok qs
    → Weave cid qs rs ss
    → (left : List ReadEvent) × (transaction cmd payload phase
          (record s { io = calm s.io.written (reading rs es s.io.surfaced s.io) })
        ≡ returned (ok (done (frame_of cmd reply))) (record s {
          io = record (calm (s.io.written ++ ps) s.io) {
            events = left;
            surfaced = s.io.surfaced ++ ss;
          };
        }))
unfolding transaction transact_on
transaction_delivers_on cid cmd payload reply phase s es {rs = rs} hc fits small nk ne hp hq w =
    let (left, e) =
      attempt_delivers cid cmd payload reply phase s.io es s.io.surfaced s.io.written fits small nk
        ne hp hq w in
    let io₁ : Io = calm s.io.written (reading rs es s.io.surfaced s.io) in
    (
      left,
      ap (λ (c : Option ℕ). transact_on c cmd payload phase (record s { io = io₁ })) hc
          ∙ ap
              (λ (r : Ran Io TransactionOutcome).
                let x : Ran Fsm TransactionOutcome = elim r [
                  | out_of_fuel ↦ out_of_fuel
                  | returned r io' ↦ returned r (record s { io = io' })
                ] in
                x)
              (attempts-outcome s.io.deadline.remaining cid cmd payload phase io₁ _ e),
    )

-- On a channel of 32 bits, for a 7-bit command that is not a keepalive or an error, with no write
-- fault, a request and a reply that can be encoded, and the reply waiting among reports on other
-- channels and keepalives: the transaction writes exactly the packets of the request, returns the
-- reply, surfaces the keepalives before it in order, and leaves the budget as it was.
pub transaction_delivers :
    (cid cmd : ℕ) (payload reply : List ℕ) (phase : Phase) (s : Fsm) (es : List ReadEvent)
    {ps qs rs : List (List ℕ)} {ss : List ℕ}
    → s.cid ≡ some cid
    → cid < 2 ^ 32
    → cmd < 128
    → cmd ≢ 0x3b
    → cmd ≢ 0x3f
    → s.io.faults ≡ []
    → encode_message cid cmd payload ≡ ok ps
    → encode_message cid cmd reply ≡ ok qs
    → Weave cid qs rs ss
    → s.io.events ≡ map report rs ++ es
    → (s' : Fsm) × (transaction cmd payload phase s ≡ returned (ok (done (frame_of cmd reply))) s')
      × (s'.io.written ≡ s.io.written ++ ps)
      × (s'.io.surfaced ≡ s.io.surfaced ++ ss)
      × (s'.io.deadline ≡ s.io.deadline)
transaction_delivers cid cmd payload reply phase s es {ps = ps} {rs = rs} {ss = ss} hc fits small nk
      ne hf hp hq w he =
    let (left, e) =
      transaction_delivers_on cid cmd payload reply phase s es hc fits small nk ne hp hq w in
    let same : s ≡ record s { io = calm s.io.written (reading rs es s.io.surfaced s.io) } =
      λ i. record s { io = record (s.io) { events = he i; faults = hf i } } in
    (
      record s {
        io = record (calm (s.io.written ++ ps) s.io) {
          events = left;
          surfaced = s.io.surfaced ++ ss;
        };
      },
      ap (transaction cmd payload phase) same ∙ e,
      refl,
      refl,
      refl,
    )
