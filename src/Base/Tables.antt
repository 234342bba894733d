-- ===== src/Base/Tables.antt =====
-- Statements about every value of a small range, by evaluation.
use Prim.Native.Nat.{ℕ, zero, suc, ◌<◌}
use mathlib.Core.Path.{◌≡◌}
use mathlib.Core.Bool.{Bool, true, ◌&&◌}
use native.Mathlib.Omega.{arith}

-- `p` holds below `n`. The test of the larger values comes first, and stops the rest.
unfoldable pub table_holds : ℕ → (ℕ → Bool) → Bool
table_holds zero p = true
table_holds (suc n) p = p n && table_holds n p

pub table_sound : (n : ℕ) (p : ℕ → Bool) (x : ℕ) → table_holds n p ≡ true → x < n → p x ≡ true
unfolding table_holds
table_sound zero p x h lt = absurd (omega arith)
table_sound (suc n) p x h lt = ground (arith, table_sound n p x)
