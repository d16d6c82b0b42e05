-- ===== src/Pcsc/Framing.antt =====
-- crates/fidoh-transport-pcsc/src/framing.rs: the command frames, and the exchange as a machine
-- that is fed one response at a time.
pub mod Frames
pub mod Hops
use fidoh.Base.{
  Option, ℕ, zero, suc, ◌+◌, ◌-◌, ltb, ◌==◌, if◌then◌else◌, Bool, true, false, List, [], ◌∷◌, ◌++◌,
  length, take, drop, get_or, Outcome, ok, err, ◌>>=◌,
}
use fidoh.Core.Time.{Phase}
use fidoh.Pcsc.Sw.{
  StatusWord, success, more_data, wrong_le, status_update, warn, not_found,
  conditions_not_satisfied, file_invalidated, not_allowed, not_allowed_6d00, other, from_pair,
}
use fidoh.Pcsc.Apdu.{case2, case3, case4, chain_short}

abbrev pub cla_ctap : ℕ
cla_ctap = 0x80

abbrev pub ins_msg : ℕ
ins_msg = 0x10

abbrev pub ins_getresponse : ℕ
ins_getresponse = 0x11

abbrev pub ins_get_response : ℕ
ins_get_response = 0xc0

abbrev pub p1_getresponse_supported : ℕ
p1_getresponse_supported = 0x80

abbrev pub short_le : ℕ
short_le = 256

abbrev pub max_hops : ℕ
max_hops = 64

-- `command_frame`.
unfoldable pub command_frame : ℕ → List ℕ → ℕ → Bool → List ℕ
command_frame command payload le extended =
    case4 cla_ctap ins_msg p1_getresponse_supported 0x00 (command ∷ payload) le extended

-- `framed`.
unfoldable pub framed : ℕ → List ℕ → List ℕ
framed command payload = command_frame command payload short_le (ltb 255 (length payload + 1))

-- The block that `framed_chained` builds.
unfoldable pub chained_block : ℕ → List ℕ → Bool → List ℕ
chained_block cla chunk last =
    if last
    then case4 cla ins_msg p1_getresponse_supported 0x00 chunk short_le false
    else case3 cla ins_msg p1_getresponse_supported 0x00 chunk false

-- `framed_chained`.
unfoldable pub framed_chained : ℕ → List ℕ → Option (List (List ℕ))
framed_chained command payload = chain_short cla_ctap (command ∷ payload) 255 chained_block

unfoldable pub getresponse_apdu : List ℕ
getresponse_apdu = case2 cla_ctap ins_getresponse 0x00 0x00 short_le false

unfoldable pub get_response_apdu : ℕ → List ℕ
get_response_apdu n = case2 cla_ctap ins_get_response 0x00 0x00 n false

-- What the texts of the exchange's transport errors are formatted from.
pub data ExchangeCause : Type 0 where
  le_not_converging : ℕ → ExchangeCause
  exchange_failed : StatusWord → ExchangeCause
  hops_exhausted : ExchangeCause
  short_response : ExchangeCause
  no_status_byte : ExchangeCause

-- `Error::Transport` of kind "pcsc", with the phase that its text names.
pub data ExchangeError : Type 0 where
  exchange_error : Phase → ExchangeCause → ExchangeError

pub record Exchange : Type 0 where
  pub command_data : List ℕ
  pub collected : List ℕ
  pub status_update_active : Bool
  pub le_retried : Bool
  pub hops_left : ℕ
  pub phase : Phase

-- `Exchange::new`.
abbrev pub new : ℕ → List ℕ → Phase → Exchange
new command payload phase = record {
  command_data = command ∷ payload;
  collected = [];
  status_update_active = false;
  le_retried = false;
  hops_left = max_hops;
  phase = phase;
}

pub record Response : Type 0 where
  pub body : List ℕ
  pub sw : StatusWord

-- `Response::parse`.
unfoldable pub parse : List ℕ → Outcome ExchangeError Response
parse bytes =
    let tail = drop (length bytes - 2) bytes in
    if ltb (length bytes) 2
    then err (exchange_error Phase.command_exchange short_response)
    else ok (record {
      body = take (length bytes - 2) bytes;
      sw = from_pair (get_or tail 0 0) (get_or tail 1 0);
    })

pub record CtapResponse : Type 0 where
  pub status : ℕ
  pub body : List ℕ

-- `CtapResponse::assemble`.
unfoldable pub assemble : List ℕ → Phase → Outcome ExchangeError CtapResponse
assemble [] phase = err (exchange_error phase no_status_byte)
assemble (status ∷ body) phase = ok (record { status = status; body = body })

pub data Step : Type 0 where
  send : List ℕ → Step
  done : CtapResponse → Step

-- `Exchange::guard_hop`.
unfoldable pub guard_hop : Exchange → Outcome ExchangeError Exchange
guard_hop x =
    if x.hops_left == 0
    then err (exchange_error x.phase hops_exhausted)
    else ok (record x { hops_left = x.hops_left - 1 })

-- The retry frame: the command byte and the payload are the head and the tail of the kept data.
retry_frame : List ℕ → ℕ → List ℕ
retry_frame [] correct = []
retry_frame (command ∷ payload) correct =
    command_frame command payload correct (ltb 255 (length (command ∷ payload)))

unfoldable pub le_retry : ℕ → Exchange → Outcome ExchangeError (Step × Exchange)
unfolding retry_frame
le_retry correct x =
    if x.le_retried
    then err (exchange_error x.phase (le_not_converging correct))
    else ok (send (retry_frame x.command_data correct), record x { le_retried = true })

-- The arms of `Exchange::step`.
unfoldable pub react : Response → Exchange → StatusWord → Outcome ExchangeError (Step × Exchange)
unfolding le_retry guard_hop
react r x success = do
  response ← assemble (x.collected ++ r.body) x.phase
  ok (done response, record x { collected = [] })
react r x (more_data n) = do
  x' ← guard_hop x
  ok (send (get_response_apdu n), record x' { collected = x.collected ++ r.body })
react r x (wrong_le correct) = le_retry correct x
react r x status_update = do
  x' ← guard_hop (record x { status_update_active = true })
  ok (send getresponse_apdu, x')
react r x (warn n) = err (exchange_error x.phase (exchange_failed (warn n)))
react r x not_found = err (exchange_error x.phase (exchange_failed not_found))
react r x conditions_not_satisfied =
    err (exchange_error x.phase (exchange_failed conditions_not_satisfied))
react r x file_invalidated = err (exchange_error x.phase (exchange_failed file_invalidated))
react r x not_allowed = err (exchange_error x.phase (exchange_failed not_allowed))
react r x not_allowed_6d00 = err (exchange_error x.phase (exchange_failed not_allowed_6d00))
react r x (other a b) = err (exchange_error x.phase (exchange_failed (other a b)))

-- `Exchange::step`.
unfoldable pub step : List ℕ → Exchange → Outcome ExchangeError (Step × Exchange)
step response x = do parsed ← parse response; react parsed x parsed.sw
