-- ===== src/Protocol.antt =====
-- src/protocols/error-handler.ts: what a protocol's handler throws becomes the last protocol error.
-- The variable of the module is a part of the state; the stack trace is left out.
use Prim.Native.String.{◌++◌ as ◌++s◌}
use yapyap.Prelude.{String, Option, none, some}

-- How a handler ends: it returns something or null, or it throws an Error or some other value.
pub data Outcome {ℓ} (A : Type ℓ) : Type ℓ where
  done : Option A → Outcome A
  throws_error : String → Outcome A
  throws_other : Outcome A

pub record WithError {ℓ} (S : Type ℓ) : Type ℓ where
  pub inner : S
  pub last_protocol_error : Option String

abbrev pub get_last_protocol_error {ℓ} : {S : Type ℓ} → WithError S → Option String
get_last_protocol_error s = s.last_protocol_error

abbrev pub clear_last_protocol_error {ℓ} : {S : Type ℓ} → WithError S → WithError S
clear_last_protocol_error s = record s { last_protocol_error = none }

-- the catch block, for what the handler came to
abbrev pub settle {ℓ κ} :
    {S : Type ℓ} {A : Type κ} → String → Outcome A → S → Option A × WithError S
settle operation (done a) s = (a, record { inner = s; last_protocol_error = none })
settle operation (throws_error message) s = (
  none,
  record { inner = s; last_protocol_error = some ("[" ++s operation ++s "] " ++s message) },
)
settle operation throws_other s = (none, record { inner = s; last_protocol_error = none })

-- handleProtocolError, and handleProtocolErrorSync, which differs in the await only
abbrev pub handle_protocol_error {ℓ κ} :
    {S : Type ℓ} {A : Type κ} → String → (S → Outcome A × S) → WithError S → Option A × WithError S
handle_protocol_error operation handler s =
    let (outcome, next) = handler s.inner in settle operation outcome next
