-- ===== src/Base/Outcome.antt =====
-- The outcome of kernel code: a value, a call of `panic` (which never returns), or a fault, which
-- stands for behaviour that C leaves undefined (an access out of bounds, a division by zero, a
-- missing argument) and for a loop that the fuel of the model does not cover.
use mathlib.Core.Option.{Option, none, some}

pub data Run {ℓ} (A : Type ℓ) : Type ℓ where
  ok : A → Run A
  panic : Run A
  fault : Run A

infixl 5 ◌>>=◌
abbrev pub ◌>>=◌ {ℓ κ} : {A : Type ℓ} {B : Type κ} → Run A → (A → Run B) → Run B
fault >>= next = fault
panic >>= next = panic
ok value >>= next = next value

-- A read that may be out of bounds.
abbrev pub checked {ℓ} : {A : Type ℓ} → Option A → Run A
checked none = fault
checked (some a) = ok a
