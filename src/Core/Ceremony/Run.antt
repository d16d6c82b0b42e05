-- ===== src/Core/Ceremony/Run.antt =====
-- crates/fidoh-core/src/ceremony.rs and device.rs: a ceremony as an action on its surroundings, the
-- commands that it sends, and `race`.
use fidoh.Base.{ℕ, ◌==◌, if◌then◌else◌, List, Outcome, ok, err, Option}
use Prim.Native.String.{String}
use fidoh.Core.Time.{Phase, Deadline, Race, Waited, output, expired, wait}
use fidoh.Core.Errors.{Error}
use fidoh.Core.Cbor.{CborValue}
use fidoh.Core.Messages.Pin.{ClientPinRequest, PinUvAuthProtocol}
use fidoh.Core.Messages.GetAssertion.Request.{GetAssertionRequest}
use fidoh.Core.Ceremony.{CeremonyError, TransportError, from_core}

pub data CtapCommand : Type 0 where
  get_info : CtapCommand
  get_assertion : GetAssertionRequest → CtapCommand
  client_pin : ClientPinRequest → CtapCommand

-- `CtapCommand::phase`.
unfoldable pub command_phase : CtapCommand → Phase
command_phase get_info = Phase.get_info
command_phase (get_assertion r) = Phase.get_assertion
command_phase (client_pin r) = Phase.client_pin

pub data DeviceEvent : Type 0 where
  keepalive : (status : ℕ) → DeviceEvent
  response : (status : ℕ) (body : List ℕ) → DeviceEvent

-- What the run changes: the budget, and the state `W` of the device and the caller's closures.
pub record World (W : Type 0) : Type 0 where
  pub outside : W
  pub deadline : Deadline

-- Why a run stops early: a ceremony error, a panic, or a loop that is not followed further.
pub data Stop : Type 0 where
  fails : CeremonyError → Stop
  panics : String → Stop
  unfollowed : Stop

-- `Device::send`: the hop ends against the timer of the remaining budget, and leaves the budget that
-- it did not spend.
abbrev pub Send : Type 0 → Type 0
Send W = CtapCommand → World W → Race (Outcome (Error TransportError) DeviceEvent) × World W

-- The device, the PIN provider and the drain hook that the run calls.
pub record Outside (W : Type 0) : Type 0 where
  pub send : Send W
  pub provide_pin : W → Option (List ℕ) × W
  pub next : W → Outcome (Error TransportError) DeviceEvent × W

-- The key agreement of crypto.rs, on key pairs `K` and shared secrets `S`, with the entropy that the
-- caller injects and the hash that pinHashEnc encrypts. Its errors are texts for people.
pub record PinCrypto (W K S : Type 0) : Type 0 where
  pub generate : W → Option K × W
  pub cose_key : K → CborValue
  pub encapsulate : K → CborValue → PinUvAuthProtocol → Option S
  pub encrypt : S → List ℕ → W → Option (List ℕ) × W
  pub decrypt : S → List ℕ → Option (List ℕ)
  pub authenticate : S → List ℕ → List ℕ → List ℕ
  pub param_message : List ℕ → List ℕ
  pub sha256 : List ℕ → List ℕ

abbrev pub Run : Type 0 → Type 0 → Type 0
Run W A = World W → Outcome Stop A × World W

-- What `wait` leaves of a hop's own result.
unfoldable pub flattened :
    {A : Type 0} → Waited (Outcome (Error TransportError) A) → Outcome CeremonyError A
flattened (output (ok a)) = ok a
flattened (output (err e)) = err (from_core e)
flattened (expired phase) = err (CeremonyError.timeout phase)

module _ {W : Type 0} where
  abbrev pub pure : {A : Type 0} → A → Run W A
  pure a w = (ok a, w)

  abbrev pub panic : {A : Type 0} → String → Run W A
  panic message w = (err (panics message), w)

  abbrev pub fail : {A : Type 0} → CeremonyError → Run W A
  fail e w = (err (fails e), w)

  abbrev pub give_up : {A : Type 0} → Run W A
  give_up w = (err unfollowed, w)

  -- An outcome that is known without a hop.
  unfoldable pub settle : {A : Type 0} → Outcome CeremonyError A → Run W A
  settle (ok a) w = (ok a, w)
  settle (err e) w = (err (fails e), w)

  -- The caller's closures see their own state alone.
  unfoldable pub outside_of : {A : Type 0} → (W → A × W) → Run W A
  outside_of f w = let (a, o) = f w.outside in (ok a, record w { outside = o })

  unfoldable pub and_then :
      {A B : Type 0} → Outcome Stop A × World W → (A → Run W B) → Outcome Stop B × World W
  and_then (ok a, w) f = f a w
  and_then (err e, w) f = (err e, w)

  -- `race`; a hop is not polled when the budget is spent.
  unfoldable pub race :
      {A : Type 0} → Phase → (World W → Race (Outcome (Error TransportError) A) × World W) → Run W A
  race phase hop w =
      settle (flattened (wait w.deadline phase (λ timer. (hop w).0)))
        (if w.deadline.remaining == 0 then w else (hop w).1)

infixl 5 ◌>>=◌
abbrev pub ◌>>=◌ : {W A B : Type 0} → Run W A → (A → Run W B) → Run W B
◌>>=◌ m f w = and_then (m w) f
