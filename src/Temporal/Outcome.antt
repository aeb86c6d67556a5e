-- ===== src/Temporal/Outcome.antt =====
-- The outcome of a parser of temporal.rs: a value, an error, or a panic, which a slice of a `str`
-- inside a character raises.
use graphdblite.Base.{Bytes, Option, none, some}
use graphdblite.Types.Error.{GraphError, serialization}

pub data Outcome {ℓ} (A : Type ℓ) : Type ℓ where
  ok : A → Outcome A
  failed : GraphError → Outcome A
  panicked : Outcome A

infixl 20 ◌>>=◌
abbrev pub ◌>>=◌ {ℓ κ} : {A : Type ℓ} {B : Type κ} → Outcome A → (A → Outcome B) → Outcome B
ok a >>= next = next a
failed e >>= next = failed e
panicked >>= next = panicked

-- `GraphError::Serialization` with an empty context.
abbrev pub invalid {ℓ} : {A : Type ℓ} → Bytes → Outcome A
invalid message = failed (serialization message)

-- `ok_or_else` with such an error.
abbrev pub or_invalid {ℓ} : {A : Type ℓ} → Bytes → Option A → Outcome A
or_invalid message none = invalid message
or_invalid message (some a) = ok a
