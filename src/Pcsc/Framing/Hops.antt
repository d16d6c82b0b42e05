-- ===== src/Pcsc/Framing/Hops.antt =====
-- The exchange of framing.rs fed with a card's responses one after another.
use fidoh.Base.{
  ℕ, ◌+◌, ◌-◌, ◌≤◌, ◌<◌, ◌≡◌, refl, ◌∙◌, arith, true, false, if◌then◌else◌, List, [], ◌∷◌, ◌++◌,
  length, take, drop, ltb, ◌==◌, ok, err, append_assoc, length-append, take-append_front,
  drop-append_front, Outcome-cases, inl, inr,
}
use fidoh.Core.Time.{Phase}
use fidoh.Pcsc.Sw.{
  StatusWord, success, more_data, wrong_le, status_update, warn, not_found,
  conditions_not_satisfied, file_invalidated, not_allowed, not_allowed_6d00, other, from_pair,
}
use fidoh.Pcsc.Framing.{
  Exchange, new, Response, parse, CtapResponse, assemble, send, done, guard_hop, le_retry, react,
  step, ExchangeError, retry_frame, command_frame, get_response_apdu, getresponse_apdu,
}

-- What a run over some responses comes to: more are asked for, or the exchange is over.
pub data Driven : Type 0 where
  pending : List ℕ → Exchange → Driven
  finished : CtapResponse → Driven
  failed : ExchangeError → Driven

-- The engine's use of the exchange: after `frame` was sent, responses are fed until it is over.
pub drive : List (List ℕ) → List ℕ → Exchange → Driven
drive [] frame x = pending frame x
drive (r ∷ rs) frame x = elim (step r x) [
  | ok (send next, x') ↦ drive rs next x'
  | ok (done response, x') ↦ finished response
  | err e ↦ failed e
]

-- The sends that an exchange has left.
abbrev sends_left : Exchange → ℕ
sends_left x = x.hops_left + (if x.le_retried then 0 else 1)

-- Every frame that a step asks to send takes one from them.
react-spends :
    (r : Response) (x : Exchange) (w : StatusWord) (next : List ℕ) (x' : Exchange)
    → react r x w ≡ ok (send next, x')
    → sends_left x' < sends_left x
unfolding react guard_hop le_retry
react-spends r x success next x' h =
    elim (Outcome-cases (assemble (x.collected ++ r.body) x.phase)) [
      | inl (response, e) ↦ absurd (ground (arith, e, h))
      | inr (bad, e) ↦ absurd (ground (arith, e, h))
    ]
react-spends r x (more_data n) next x' h = ground arith
react-spends r x (wrong_le n) next x' h = ground arith
react-spends r x status_update next x' h = ground arith
react-spends r x (warn n) next x' h = ground arith
react-spends r x not_found next x' h = ground arith
react-spends r x conditions_not_satisfied next x' h = ground arith
react-spends r x file_invalidated next x' h = ground arith
react-spends r x not_allowed next x' h = ground arith
react-spends r x not_allowed_6d00 next x' h = ground arith
react-spends r x (other a b) next x' h = ground arith

step-spends :
    (bytes : List ℕ) (x : Exchange) (next : List ℕ) (x' : Exchange)
    → step bytes x ≡ ok (send next, x')
    → sends_left x' < sends_left x
unfolding step
step-spends bytes x next x' h = elim (Outcome-cases (parse bytes)) [
  | inl (r, e) ↦ react-spends r x r.sw next x' (rw (← h, e) refl)
  | inr (bad, e) ↦ absurd (ground (arith, e, h))
]

abbrev pub IsOver : Driven → Type 0
IsOver (pending frame x) = ⊥
IsOver (finished response) = Unit
IsOver (failed e) = Unit

parse-append :
    (xs : List ℕ) (a b : ℕ)
    → parse (xs ++ a ∷ b ∷ []) ≡ ok (record { body = xs; sw = from_pair a b })
unfolding parse
parse-append xs a b =
    let n : length (xs ++ a ∷ b ∷ []) ≡ length xs + 2 = length-append xs (a ∷ b ∷ []) in
    let front : take (length (xs ++ a ∷ b ∷ []) - 2) (xs ++ a ∷ b ∷ []) ≡ xs =
      take-append_front xs (a ∷ b ∷ []) _ (omega (arith, n)) in
    let back : drop (length (xs ++ a ∷ b ∷ []) - 2) (xs ++ a ∷ b ∷ []) ≡ a ∷ b ∷ [] =
      drop-append_front xs (a ∷ b ∷ []) _ (omega (arith, n)) in
    let long : ltb (length (xs ++ a ∷ b ∷ [])) 2 ≡ false = ground (arith, n) in
    rw (front, back, long) refl

-- An answer before the last: a part of the data with a count of what is left, or the news that the
-- card still works.
pub data Answer : Type 0 where
  held : List ℕ → ℕ → Answer
  working : List ℕ → Answer

abbrev pub answer_bytes : Answer → List ℕ
answer_bytes (held chunk n) = chunk ++ 0x61 ∷ n ∷ []
answer_bytes (working body) = body ++ 0x91 ∷ 0x00 ∷ []

abbrev pub all_bytes : List Answer → List ℕ → List (List ℕ)
all_bytes [] final = (final ++ 0x90 ∷ 0x00 ∷ []) ∷ []
all_bytes (a ∷ answers) final = answer_bytes a ∷ all_bytes answers final

abbrev pub joined : List Answer → List ℕ → List ℕ
joined [] final = final
joined (held chunk n ∷ answers) final = chunk ++ joined answers final
joined (working body ∷ answers) final = joined answers final

step-held_back :
    (chunk : List ℕ) (n : ℕ) (x : Exchange)
    → 0 < x.hops_left
    → step (chunk ++ 0x61 ∷ n ∷ []) x
      ≡ ok (
        send (get_response_apdu n),
        record x { hops_left = x.hops_left - 1; collected = x.collected ++ chunk },
      )
unfolding step react guard_hop from_pair
step-held_back chunk n x h =
    let some_left : (x.hops_left == 0) ≡ false = ground arith in
    rw (parse-append chunk 0x61 n, some_left) refl

step-final :
    (final : List ℕ) (x : Exchange) (status : ℕ) (body : List ℕ)
    → x.collected ++ final ≡ status ∷ body
    → step (final ++ 0x90 ∷ 0x00 ∷ []) x
      ≡ ok (done (record { status = status; body = body }), record x { collected = [] })
unfolding step react assemble from_pair
step-final final x status body e = rw (parse-append final 0x90 0x00, e) refl

step-working :
    (body : List ℕ) (x : Exchange)
    → 0 < x.hops_left
    → step (body ++ 0x91 ∷ 0x00 ∷ []) x
      ≡ ok (
        send getresponse_apdu,
        record x { status_update_active = true; hops_left = x.hops_left - 1 },
      )
unfolding step react guard_hop from_pair
step-working body x h =
    let some_left : (x.hops_left == 0) ≡ false = ground arith in
    rw (parse-append body 0x91 0x00, some_left) refl

answers_joined :
    (answers : List Answer) (final frame : List ℕ) (x : Exchange) (status : ℕ) (body : List ℕ)
    → length answers ≤ x.hops_left
    → x.collected ++ joined answers final ≡ status ∷ body
    → drive (all_bytes answers final) frame x ≡ finished (record { status = status; body = body })
unfolding drive
answers_joined [] final frame x status body h e = rw (step-final final x status body e, drive) refl
answers_joined (held chunk n ∷ answers) final frame x status body h e =
    rw (step-held_back chunk n x (omega arith), drive)
      (answers_joined answers final (get_response_apdu n)
        (record x { hops_left = x.hops_left - 1; collected = x.collected ++ chunk }) status body
        (omega arith) (append_assoc x.collected chunk (joined answers final) ∙ e))
answers_joined (working part ∷ answers) final frame x status body h e =
    rw (step-working part x (omega arith), drive)
      (answers_joined answers final getresponse_apdu
        (record x { status_update_active = true; hops_left = x.hops_left - 1 }) status body
        (omega arith) e)

-- More responses than sends are left end the exchange.
drive_ends :
    (rs : List (List ℕ)) (frame : List ℕ) (x : Exchange)
    → sends_left x < length rs
    → IsOver (drive rs frame x)
unfolding drive
drive_ends [] frame x h = absurd (omega arith)
drive_ends (r ∷ rs) frame x h = elim (Outcome-cases (step r x)) [
  | inl ((send next, x'), e) ↦
      rw (e, drive) (drive_ends rs next x' (omega (arith, step-spends r x next x' e)))
  | inl ((done response, x'), e) ↦ rw (e, drive) tt
  | inr (bad, e) ↦ rw (e, drive) tt
]

-- However the card answers, with responses of any length and any status words, the exchange of a
-- command asks for at most 65 further responses: from 66 on it has ended.
pub exchange_ends :
    (rs : List (List ℕ)) (frame : List ℕ) (command : ℕ) (payload : List ℕ) (phase : Phase)
    → 65 < length rs
    → IsOver (drive rs frame (new command payload phase))
exchange_ends rs frame command payload phase h =
    drive_ends rs frame (new command payload phase) (omega arith)

-- When a card answers with up to 64 partial answers (61xx, with some data, or 9100) and then with
-- 9000, the exchange ends with the data of the 61xx answers and of the last one, in order, split
-- into the CTAP status byte and the body, provided that there is at least the status byte.
pub exchange_collects :
    (answers : List Answer) (final frame : List ℕ) (command : ℕ) (payload : List ℕ) (phase : Phase)
    (status : ℕ) (body : List ℕ)
    → length answers ≤ 64
    → joined answers final ≡ status ∷ body
    → drive (all_bytes answers final) frame (new command payload phase)
      ≡ finished (record { status = status; body = body })
exchange_collects answers final frame command payload phase status body h e =
    answers_joined answers final frame (new command payload phase) status body h e

step-wrong_le :
    (n : ℕ) (command : ℕ) (payload : List ℕ) (x : Exchange)
    → x.le_retried ≡ false
    → x.command_data ≡ command ∷ payload
    → step (0x6c ∷ n ∷ []) x
      ≡ ok (
        send (command_frame command payload n (ltb 255 (length (command ∷ payload)))),
        record x { le_retried = true },
      )
unfolding step react le_retry retry_frame from_pair
step-wrong_le n command payload x h e = rw (parse-append [] 0x6c n, h, e) refl

-- A 6Cxx after a 61xx sends the whole command again, not the GET RESPONSE that it answers, and
-- keeps the data collected before: if the card then answers the command in full, the data of the
-- first answer stands in front of the full response.
pub retry_repeats_command :
    (part : List ℕ) (status : ℕ) (body : List ℕ) (n m : ℕ) (frame : List ℕ) (command : ℕ)
    (payload : List ℕ) (phase : Phase)
    → (drive
          ((status ∷ part ++ 0x61 ∷ n ∷ []) ∷ (0x6c ∷ m ∷ []) ∷ [])
          frame
          (new command payload phase)
        ≡ pending
            (command_frame command payload m (ltb 255 (length (command ∷ payload))))
            (record (new command payload phase) {
              collected = status ∷ part;
              le_retried = true;
              hops_left = 63;
            }))
      × (drive
            ((status ∷ part ++ 0x61 ∷ n ∷ [])
              ∷ (0x6c ∷ m ∷ [])
              ∷ (status ∷ (part ++ body ++ 0x90 ∷ 0x00 ∷ []))
              ∷ [])
            frame
            (new command payload phase)
          ≡ finished (record { status = status; body = part ++ (status ∷ (part ++ body)) }))
unfolding drive
retry_repeats_command part status body n m frame command payload phase =
    let x : Exchange = new command payload phase in
    let y : Exchange = record x { hops_left = 63; collected = status ∷ part } in
    let first : step (status ∷ part ++ 0x61 ∷ n ∷ []) x ≡ ok (send (get_response_apdu n), y) =
      step-held_back (status ∷ part) n x (omega arith) in
    let second : step (0x6c ∷ m ∷ []) y
        ≡ ok (
          send (command_frame command payload m (ltb 255 (length (command ∷ payload)))),
          record y { le_retried = true },
        ) =
      step-wrong_le m command payload y refl refl in
    let third : step (status ∷ (part ++ body ++ 0x90 ∷ 0x00 ∷ [])) (record y { le_retried = true })
        ≡ ok (
          done (record { status = status; body = part ++ (status ∷ (part ++ body)) }),
          record y { le_retried = true; collected = [] },
        ) =
      step-final (status ∷ (part ++ body)) (record y { le_retried = true }) status
        (part ++ (status ∷ (part ++ body))) refl in
    (rw (first, drive, second, drive) refl, rw (first, drive, second, drive, third, drive) refl)
