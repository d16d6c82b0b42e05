-- ===== src/Core/Errors.antt =====
-- The async-core error taxonomy: crates/fidoh-core/src/error.rs, `Error` and `TransportError`.
-- The text of a transport error is formatted for people; `D` stands for what it is formatted from.
use fidoh.Core.Time.{Phase}
use fidoh.Base.{List, Option, ℕ}
use Prim.Native.String.{String}

-- A candidate's transport identifier.
pub record CandidateDescriptor : Type 0 where
  pub id : String
  pub name : String
  pub aaguid : Option (List ℕ)

pub data Error {ℓ} (D : Type ℓ) : Type ℓ where
  timeout : Phase → Error D
  ambiguous_device : List CandidateDescriptor → Error D
  unknown_device : String → Error D
  transport : D → Error D
  device_gone : Error D
  channel_closed : Error D
  busy : Error D
