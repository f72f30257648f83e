-- ===== src/Base/Outcome.antt =====
-- What a call that may throw comes to: a value, an exception, or undefined behaviour.
use mathlib.Core.Option.{Option, none, some}

pub data Outcome {ℓ} (A : Type ℓ) : Type ℓ where
  done : A → Outcome A
  throws fault : Outcome A

infixl 5 ◌>>=◌
abbrev pub ◌>>=◌ {ℓ κ} : {A : Type ℓ} {B : Type κ} → Outcome A → (A → Outcome B) → Outcome B
done a >>= f = f a
throws >>= f = throws
fault >>= f = fault

-- A read that is outside the memory is a fault.
abbrev pub access {ℓ} : {A : Type ℓ} → Option A → Outcome A
access none = fault
access (some a) = done a
