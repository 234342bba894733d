-- ===== src/Base/Inversion.antt =====
-- What a run that returns has gone through.
use mathlib.Core.Path.{◌≡◌, refl, ap}
use mathlib.Core.Bool.{Bool, true, false}
use mathlib.Core.Option.{Option, none, some}
use low_flex_programming.Base.Outcome.{Run, ok, panic, fault, ◌>>=◌, checked}
use low_flex_programming.Base.Tests.{if◌then◌else◌}

module _ {ℓ} {A : Type ℓ} where
  value_or : A → Run A → A
  value_or d (ok a) = a
  value_or d panic = d
  value_or d fault = d

  pub ok_inj : (a b : A) → ok a ≡ ok b → a ≡ b
  unfolding value_or
  ok_inj a b e = ap (value_or a) e

  pub panic-eq-ok : (a : A) → ◌≡◌ {A = Run A} panic (ok a) → ⊥
  panic-eq-ok a e = absurd (cc)

  pub fault-eq-ok : (a : A) → ◌≡◌ {A = Run A} fault (ok a) → ⊥
  fault-eq-ok a e = absurd (cc)

  pub checked-eq-ok : (o : Option A) (a : A) → checked o ≡ ok a → o ≡ some a
  checked-eq-ok none a e = absurd (cc)
  checked-eq-ok (some b) a e = ap some (ok_inj b a e)

  -- A guard that has been passed.
  pub guard-eq-ok :
      (b : Bool) (r : Run A) (a : A) → (if b then panic else r) ≡ ok a → (b ≡ false) × (r ≡ ok a)
  guard-eq-ok true r a e = absurd (panic-eq-ok a e)
  guard-eq-ok false r a e = (refl, e)

pub bind-eq-ok {ℓ κ} :
    {A : Type ℓ} {B : Type κ} (r : Run A) (next : A → Run B) (b : B)
    → r >>= next ≡ ok b
    → (a : A) × (r ≡ ok a) × (next a ≡ ok b)
bind-eq-ok (ok a) next b e = (a, refl, e)
bind-eq-ok panic next b e = absurd (panic-eq-ok b e)
bind-eq-ok fault next b e = absurd (fault-eq-ok b e)
