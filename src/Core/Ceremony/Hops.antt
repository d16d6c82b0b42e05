-- ===== src/Core/Ceremony/Hops.antt =====
-- crates/fidoh-core/src/ceremony.rs: the hops of a ceremony, and what reads their responses.
use Prim.Native.String.{String}
use fidoh.Base.{
  ℕ, zero, suc, ◌==◌, if◌then◌else◌, Bool, true, false, List, [], ◌∷◌, Outcome, ok, err, ◌>>=◌,
  map_err, Option, none, some,
}
use fidoh.Core.Status.{StatusCode, from_u8, to_u8}
use fidoh.Core.Time.{Phase, Waited, output, expired, wait}
use fidoh.Core.Errors.{Error}
use fidoh.Core.Cbor.{CborValue}
use fidoh.Core.Cbor.Decode.{strict, tolerant, decode_map}
use fidoh.Core.Messages.{Reads}
use fidoh.Core.Messages.Pin.{
  ClientPinRequest, ClientPinResponse, encode_client_pin, client_pin_from_cbor,
}
use fidoh.Core.Messages.GetInfo.{GetInfoResponse}
use fidoh.Core.Messages.GetInfo.Validate.{info_from_cbor}
use fidoh.Core.Messages.GetAssertion.Response.{GetAssertionResponse, response_from_cbor}
use fidoh.Core.Ceremony.{
  CeremonyError, TransportError, timeout, incorrect_pin, failure, from_core, from_status,
}
use fidoh.Core.Ceremony.Run.{
  CtapCommand, client_pin, command_phase, DeviceEvent, keepalive, response, Outside, Run, pure,
  fail, give_up, settle, outside_of, race, ◌>>=◌ as ◌>>>◌,
}

abbrev pub Result : Type 0 → Type 0
Result A = Outcome CeremonyError A

-- `response_of`.
unfoldable pub response_of : DeviceEvent → Result (ℕ × List ℕ)
response_of (response status body) = ok (status, body)
response_of (keepalive status) =
    err (failure "ceremony" "keepalive progress signal where a terminal response was required")

-- `if let Some(err) = CeremonyError::from_status(..) { return Err(err) }`.
unfoldable pub succeeds : ℕ → Result (Unit {0})
succeeds status = elim (from_status (from_u8 status)) [ none ↦ ok tt | some e ↦ err e ]

-- A body decoded strictly and read by a message model.
unfoldable pub decode_as :
    {A : Type 0} → (CborValue → Reads A) → String → String → List ℕ → Result A
decode_as read layer what body = map_err (λ e. failure layer what) (decode_map body strict >>= read)

-- `decode_assertion`.
unfoldable pub decode_assertion : List ℕ → Result GetAssertionResponse
decode_assertion = decode_as response_from_cbor "ceremony" "assertion response"

-- `decode_info`.
unfoldable pub decode_info : DeviceEvent → Result GetInfoResponse
decode_info (response status body) =
    succeeds status >>= λ u. decode_as info_from_cbor "ceremony" "getInfo probe" body
decode_info (keepalive status) =
    err (failure "ceremony" "getInfo probe produced a keepalive progress signal")

-- The phase that the loop's next wait is named after.
unfoldable pub loop_phase : Bool → CtapCommand → Phase
loop_phase true cmd = Phase.user_presence
loop_phase false cmd = command_phase cmd

-- A timeout of the device itself, after a keepalive.
unfoldable pub renamed : Bool → CeremonyError → CeremonyError
renamed true (timeout phase) = timeout Phase.user_presence
renamed seen e = e

unfoldable pub loop_event :
    Bool → Waited (Outcome (Error TransportError) DeviceEvent) → Result DeviceEvent
loop_event seen (output (ok event)) = ok event
loop_event seen (output (err e)) = err (renamed seen (from_core e))
loop_event seen (expired phase) = err (timeout phase)

-- `ClientPinResponse.pinRetries` of the body of a wrong PIN, when it can be read.
unfoldable pub retries_in : List ℕ → Option ℕ
retries_in [] = none
retries_in (b ∷ bs) = elim (decode_map (b ∷ bs) tolerant >>= client_pin_from_cbor) [
  | ok r ↦ r.pin_retries
  | err e ↦ none
]

-- What `client_pin_hop` makes of the response.
unfoldable pub client_pin_result : ℕ → List ℕ → Result ClientPinResponse
client_pin_result status body =
    if status == to_u8 StatusCode.pin_invalid
    then err (incorrect_pin (retries_in body))
    else (succeeds status >>= λ u.
        decode_as client_pin_from_cbor "clientPIN" "clientPIN response" body)

module _ {W : Type 0} (env : Outside W) where
  -- One turn of `keepalive_loop`, before its match on the event.
  unfoldable pub loop_hop : Bool → CtapCommand → Run W DeviceEvent
  loop_hop seen cmd w =
      settle (loop_event seen (wait w.deadline (loop_phase seen cmd) (λ timer. (env.send cmd w).0)))
        (if w.deadline.remaining == 0 then w else (env.send cmd w).1)

  -- `keepalive_loop`, of which `bound` turns are followed.
  unfoldable pub keepalive_loop : (bound : ℕ) → Bool → CtapCommand → Run W DeviceEvent
  keepalive_loop zero seen cmd = give_up
  keepalive_loop (suc bound) seen cmd =
      let more = keepalive_loop bound true cmd in
      loop_hop seen cmd >>> λ event. elim event [
        | keepalive status ↦ more
        | response status body ↦ pure (response status body)
      ]

  -- `drain_hop`.
  unfoldable pub drain_hop : Run W GetAssertionResponse
  drain_hop w =
      if w.deadline.remaining == 0
      then fail (timeout Phase.get_next_assertion) w
      else ((outside_of env.next >>> λ event.
            settle (map_err from_core event >>= response_of) >>> λ r.
            settle (succeeds r.0 >>= λ u. decode_assertion r.1))
          w)

  -- `client_pin_hop`.
  unfoldable pub client_pin_hop : ClientPinRequest → Run W ClientPinResponse
  client_pin_hop request =
      settle
        (map_err (λ e. failure "clientPIN" "clientPIN request encode") (encode_client_pin request))
      >>> λ body. race Phase.client_pin (env.send (client_pin request)) >>> λ event.
          settle (response_of event >>= λ r. client_pin_result r.0 r.1)
