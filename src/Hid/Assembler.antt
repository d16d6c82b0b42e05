-- ===== src/Hid/Assembler.antt =====
-- crates/fidoh-transport-hid/src/fsm.rs: message reassembly, the fold of one report, and the INIT
-- response layout.
pub mod Invariant
pub mod Reports
pub mod RoundTrip
use fidoh.Base.{
  ℕ, ◌+◌, ◌%◌, max, List, [], ◌∷◌, ◌++◌, length, take, drop, get_or, from_be_bytes, ltb, leb, ◌==◌,
  if◌then◌else◌, Bool, true, false, ◌&&◌, Outcome, ok, err, ◌>>=◌, map_err,
}
use fidoh.Hid.Errors.{
  FramingError, HidErrorCode, length_beyond_maximum, length_mismatch, invalid_seq, unexpected_bcnt,
  unexpected_command, init_response_short, from_u8, is_channel_busy,
}
use fidoh.Hid.Packet.{
  InitHeader, InboundKind, init, continuation, classify, parse_init_header, parse_cont_header,
  payload_of, max_message_size, cmd_keepalive, cmd_error, cmd_ping, cmd_wink,
}

pub record Assembler : Type 0 where
  pub cid : ℕ
  pub bcnt : ℕ
  pub payload : List ℕ
  pub next_seq : ℕ
  pub active : Bool

-- `Assembler::new`.
abbrev pub new : ℕ → Assembler
new cid = record { cid = cid; bcnt = 0; payload = []; next_seq = 0; active = false }

-- `Assembler::begin`.
unfoldable pub begin : InitHeader → List ℕ → Assembler → Outcome FramingError Assembler
begin hdr report a =
    if ltb max_message_size hdr.bcnt
    then err (length_beyond_maximum hdr.bcnt)
    else ok (record a { bcnt = hdr.bcnt; payload = drop 7 report; next_seq = 0; active = true })

-- `Assembler::push_continuation`. `next_seq` is a u8.
unfoldable pub push_continuation : ℕ → List ℕ → Assembler → Outcome FramingError Assembler
push_continuation seq report a =
    let pushed : Assembler = record a {
      payload = a.payload ++ drop 5 report;
      next_seq = (a.next_seq + 1) % 256;
    } in
    if a.active
    then if seq == a.next_seq
      then if ltb (max a.bcnt max_message_size) (length pushed.payload)
        then err (length_mismatch a.bcnt (length pushed.payload))
        else ok pushed
      else err (invalid_seq a.cid seq a.next_seq)
    else ok a

-- `Assembler::complete`.
unfoldable pub complete : Assembler → Bool
complete a = a.active && leb a.bcnt (length a.payload)

-- `Assembler::finish`.
unfoldable pub finish : Assembler → List ℕ × Assembler
finish a = (take a.bcnt a.payload, record a { payload = []; active = false })

pub data Frame : Type 0 where
  cbor : List ℕ → Frame
  ping : List ℕ → Frame
  wink : Frame

pub data TransactionOutcome : Type 0 where
  done : Frame → TransactionOutcome
  device_error : HidErrorCode → TransactionOutcome

-- The private `Step` of fsm.rs, with the assembler as the step leaves it and the statuses that it
-- hands to `on_keepalive`.
pub data Step : Type 0 where
  continue : Assembler → List ℕ → Step
  finished : TransactionOutcome → Step
  busy : Step

-- The frame of a complete message, by the command that is answered.
unfoldable pub frame_of : ℕ → List ℕ → Frame
frame_of expect_cmd payload =
    if expect_cmd == cmd_ping
    then ping payload
    else if expect_cmd == cmd_wink
    then wink
    else cbor payload

unfoldable pub deliver : ℕ → Assembler → Step
unfolding complete finish frame_of
deliver expect_cmd a =
    if complete a then finished (done (frame_of expect_cmd (finish a).0)) else continue a []

-- A CTAPHID_ERROR frame: busy is retried, any other code ends the transaction.
unfoldable pub error_frame : ℕ → Step
error_frame code =
    if is_channel_busy (from_u8 code) then busy else finished (device_error (from_u8 code))

-- The payload of a frame whose length the protocol fixes at one byte.
unfoldable pub single_byte : ℕ → List ℕ → Outcome FramingError ℕ
single_byte cmd (b ∷ []) = ok b
single_byte cmd [] = err (unexpected_bcnt cmd 0)
single_byte cmd (b ∷ c ∷ bs) = err (unexpected_bcnt cmd (length (b ∷ c ∷ bs)))

-- The two arms of `Fsm::step`.
unfoldable pub step_init : Assembler → ℕ → List ℕ → Outcome FramingError Step
unfolding single_byte error_frame deliver
step_init a expect_cmd report = do
  hdr ← parse_init_header report
  if hdr.cid == a.cid
      then if hdr.cmd == cmd_keepalive
        then (do
          payload ← payload_of report hdr
          status ← single_byte cmd_keepalive payload
          ok (continue a (status ∷ [])))
        else if hdr.cmd == cmd_error
        then (do
          payload ← payload_of report hdr
          code ← single_byte cmd_error payload
          ok (error_frame code))
        else if hdr.cmd == expect_cmd
        then (do begun ← begin hdr report a; ok (deliver expect_cmd begun))
        else err (unexpected_command hdr.cmd expect_cmd)
      else ok (continue a [])

unfoldable pub step_continuation : Assembler → ℕ → List ℕ → Outcome FramingError Step
unfolding deliver
step_continuation a expect_cmd report = do
  (pcid, seq) ← parse_cont_header report
  if pcid == a.cid
      then (do pushed ← push_continuation seq report a; ok (deliver expect_cmd pushed))
      else ok (continue a [])

step_of : InboundKind → Assembler → ℕ → List ℕ → Outcome FramingError Step
step_of init = step_init
step_of continuation = step_continuation

-- `Fsm::step`.
unfoldable pub step : Assembler → ℕ → List ℕ → Outcome FramingError Step
unfolding step_of
step a expect_cmd report = do kind ← classify report; step_of kind a expect_cmd report

-- What `step` makes of a list of reports: `pending` when they end inside the transaction.
pub data Folded : Type 0 where
  resolved : TransactionOutcome → List ℕ → Folded
  device_busy : List ℕ → Folded
  failed : FramingError → List ℕ → Folded
  pending : Assembler → List ℕ → Folded

-- `seen` are the statuses surfaced so far.
unfoldable pub steps : List (List ℕ) → ℕ → Assembler → List ℕ → Folded
steps [] cmd a seen = pending a seen
steps (r ∷ rs) cmd a seen = elim (step a cmd r) [
  | ok (continue a' more) ↦ steps rs cmd a' (seen ++ more)
  | ok (finished o) ↦ resolved o seen
  | ok busy ↦ device_busy seen
  | err e ↦ failed e seen
]
