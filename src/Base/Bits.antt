-- ===== src/Base/Bits.antt =====
-- Laws of `bit_and`, `bit_or` and `bit_xor` at variables, from the digit recursion that the native
-- operations stand for. Both operands are halved, hence the induction on a bound.
use Prim.Native.Nat.{
  ℕ, zero, suc, ◌+◌, ◌-◌, ◌*◌, ◌/◌, ◌%◌, ◌^◌, ◌≤◌, ◌<◌, min, max, bit_and, bit_or, bit_xor, digits,
  differ, bit_and-bitwise, bit_or-bitwise, bit_xor-bitwise,
}
use mathlib.Core.Path.{◌≡◌, refl, ap, sym, ◌∙◌}
use native.Mathlib.Nat.{pow-suc, one-le-pow, add-mul-mod_self_right, mod-eq_of_lt, div-add-mod'}
use native.Mathlib.Omega.{arith}

module _ (pad : ℕ → ℕ) (join : ℕ → ℕ → ℕ) where
  -- One round more than the first operand needs changes nothing.
  one_round : (b a n : ℕ) → a ≤ n → digits pad join (suc n) a b ≡ digits pad join n a b
  one_round b zero zero le = refl
  one_round b zero (suc n) le = refl
  one_round b (suc a) zero le = absurd (omega arith)
  one_round b (suc a) (suc n) le = omega (arith, one_round (b / 2) (suc a / 2) n (omega arith))

  more_rounds : (k b a n : ℕ) → a ≤ n → digits pad join (k + n) a b ≡ digits pad join n a b
  more_rounds zero b a n le = let e : 0 + n ≡ n = omega arith in ap (λ m. digits pad join m a b) e
  more_rounds (suc k) b a n le =
      let e : suc k + n ≡ suc (k + n) = omega arith in
      ap (λ m. digits pad join m a b) e
      ∙ one_round b a (k + n) (omega arith)
      ∙ more_rounds k b a n le

  -- The rounds that are left behind the lowest digit of `suc a`.
  rounds_left :
      (a b : ℕ) → digits pad join a (suc a / 2) b ≡ digits pad join (suc a / 2) (suc a / 2) b
  rounds_left a b =
      let e : a - suc a / 2 + suc a / 2 ≡ a = omega arith in
      ap (λ n. digits pad join n (suc a / 2) b) (sym e)
      ∙ more_rounds (a - suc a / 2) b (suc a / 2) (suc a / 2) (omega arith)

-- One binary digit of each operation.
pub bit_and_digit : (a b : ℕ) → bit_and a b ≡ 2 * bit_and (a / 2) (b / 2) + min (a % 2) (b % 2)
bit_and_digit zero b = omega (bit_and-bitwise 0 b, bit_and-bitwise 0 (b / 2), arith)
bit_and_digit (suc a) b =
    let left = rounds_left (λ y. 0) min a (b / 2) in
    omega (left, bit_and-bitwise (suc a / 2) (b / 2), bit_and-bitwise (suc a) b, arith)

pub bit_or_digit : (a b : ℕ) → bit_or a b ≡ 2 * bit_or (a / 2) (b / 2) + max (a % 2) (b % 2)
bit_or_digit zero b = omega (bit_or-bitwise 0 b, bit_or-bitwise 0 (b / 2), arith)
bit_or_digit (suc a) b =
    let left = rounds_left (λ y. y) max a (b / 2) in
    omega (left, bit_or-bitwise (suc a / 2) (b / 2), bit_or-bitwise (suc a) b, arith)

-- On binary digits `differ` is the sum without its carry.
differ-digits : (x y : ℕ) → x < 2 → y < 2 → differ x y ≡ (x + y) % 2
differ-digits zero y p q = omega arith
differ-digits (suc zero) zero p q = refl
differ-digits (suc zero) (suc zero) p q = refl
differ-digits (suc zero) (suc (suc y)) p q = absurd (omega arith)
differ-digits (suc (suc x)) y p q = absurd (omega arith)

pub bit_xor_digit : (a b : ℕ) → bit_xor a b ≡ 2 * bit_xor (a / 2) (b / 2) + (a + b) % 2
bit_xor_digit zero b = omega (bit_xor-bitwise 0 b, bit_xor-bitwise 0 (b / 2), arith)
bit_xor_digit (suc a) b =
    let left = rounds_left (λ y. y) differ a (b / 2) in
    let low = differ-digits (suc a % 2) (b % 2) (omega arith) (omega arith) in
    omega (low, left, bit_xor-bitwise (suc a / 2) (b / 2), bit_xor-bitwise (suc a) b, arith)

xor_comm_below : (n a b : ℕ) → a + b ≤ n → bit_xor a b ≡ bit_xor b a
xor_comm_below zero a b h =
    let ea : a ≡ 0 = omega arith in let eb : b ≡ 0 = omega arith in rw (ea, eb)
xor_comm_below (suc n) a b h =
    omega
      (arith, bit_xor_digit a b, bit_xor_digit b a, xor_comm_below n (a / 2) (b / 2) (omega arith))

pub xor_comm : (a b : ℕ) → bit_xor a b ≡ bit_xor b a
xor_comm a b = xor_comm_below (a + b) a b (omega arith)

bit_xor-half : (a b : ℕ) → bit_xor a b / 2 ≡ bit_xor (a / 2) (b / 2)
bit_xor-half a b = omega (arith, bit_xor_digit a b)

xor_cancel_below : (n a b : ℕ) → a + b ≤ n → bit_xor (bit_xor a b) b ≡ a
xor_cancel_below zero a b h =
    let ea : a ≡ 0 = omega arith in let eb : b ≡ 0 = omega arith in rw (ea, eb)
xor_cancel_below (suc n) a b h = ground (
  arith,
  bit_xor_digit a b,
  bit_xor-half a b,
  bit_xor_digit (bit_xor a b) b,
  xor_cancel_below n (a / 2) (b / 2),
)

-- The second `^` with the same operand undoes the first.
pub xor_cancel : (a b : ℕ) → bit_xor (bit_xor a b) b ≡ a
xor_cancel a b = xor_cancel_below (a + b) a b (omega arith)

or_zero_below : (n a : ℕ) → a ≤ n → bit_or a 0 ≡ a
or_zero_below zero a h = let ea : a ≡ 0 = omega arith in rw ea
or_zero_below (suc n) a h = omega (arith, bit_or_digit a 0, or_zero_below n (a / 2) (omega arith))

pub bit_or-zero : (a : ℕ) → bit_or a 0 ≡ a
bit_or-zero a = or_zero_below a a (omega arith)

and_zero_below : (n a : ℕ) → a ≤ n → bit_and a 0 ≡ 0
and_zero_below zero a h = let ea : a ≡ 0 = omega arith in rw ea
and_zero_below (suc n) a h =
    omega (arith, bit_and_digit a 0, and_zero_below n (a / 2) (omega arith))

pub bit_and-zero : (a : ℕ) → bit_and a 0 ≡ 0
bit_and-zero a = and_zero_below a a (omega arith)

double_pow : (k q : ℕ) → q * 2 ^ suc k ≡ 2 * (q * 2 ^ k)
double_pow k q = omega (arith, ap (λ (p : ℕ). q * p) (pow-suc 2 k))

-- A low field is put beside a shifted one by `|` as by `+`.
pub bit_or-shifted : (k r q : ℕ) → r < 2 ^ k → bit_or r (q * 2 ^ k) ≡ r + q * 2 ^ k
bit_or-shifted zero r q h =
    let er : r ≡ 0 = omega arith in rw er (omega (arith, bit_or-bitwise 0 (q * 2 ^ 0)))
bit_or-shifted (suc k) r q h =
    ground (
      arith,
      pow-suc 2 k,
      double_pow k q,
      bit_or_digit r (q * 2 ^ suc k),
      bit_or-shifted k (r / 2) q,
    )

mod-double : (a m : ℕ) → 0 < m → a % (2 * m) ≡ 2 * (a / 2 % m) + a % 2
mod-double a m h =
    ap (λ (x : ℕ). x % (2 * m)) split
    ∙ add-mul-mod_self_right (2 * (a / 2 % m) + a % 2) (a / 2 / m) (2 * m)
    ∙ mod-eq_of_lt (omega arith)
  where
    split : a ≡ 2 * (a / 2 % m) + a % 2 + a / 2 / m * (2 * m)
    split = omega (arith, div-add-mod' (a / 2) m)

-- `&` with a mask of `k` ones keeps the remainder by `2 ^ k`.
pub bit_and-mask : (k a : ℕ) → bit_and a (2 ^ k - 1) ≡ a % 2 ^ k
bit_and-mask zero a = rw bit_and-zero (omega arith)
bit_and-mask (suc k) a = ground (
  arith,
  one-le-pow k 2 (omega arith),
  pow-suc 2 k,
  bit_and_digit a (2 ^ suc k - 1),
  bit_and-mask k (a / 2),
  mod-double a (2 ^ k) (one-le-pow k 2 (omega arith)),
)

pow_mono : (k n : ℕ) → k ≤ n → 2 ^ k ≤ 2 ^ n
pow_mono zero n h = one-le-pow n 2 (omega arith)
pow_mono (suc k) zero h = absurd (omega arith)
pow_mono (suc k) (suc n) h = omega (arith, pow-suc 2 k, pow-suc 2 n, pow_mono k n (omega arith))

-- `&` with the complement of a mask of `k` ones takes the remainder by `2 ^ k` away.
pub bit_and-high : (k n a : ℕ) → k ≤ n → a < 2 ^ n → bit_and a (2 ^ n - 2 ^ k) ≡ a - a % 2 ^ k
bit_and-high zero n a le lt = bit_and-mask n a ∙ ground (arith, mod-eq_of_lt lt)
bit_and-high (suc k) zero a le lt = absurd (omega arith)
bit_and-high (suc k) (suc n) a le lt = ground (
  arith,
  pow-suc 2 k,
  pow-suc 2 n,
  pow_mono k n (omega arith),
  bit_and_digit a (2 ^ suc n - 2 ^ suc k),
  bit_and-high k n (a / 2),
  mod-double a (2 ^ k) (one-le-pow k 2 (omega arith)),
)

or_comm_below : (n a b : ℕ) → a + b ≤ n → bit_or a b ≡ bit_or b a
or_comm_below zero a b h =
    let ea : a ≡ 0 = omega arith in let eb : b ≡ 0 = omega arith in rw (ea, eb) refl
or_comm_below (suc n) a b h =
    ground (arith, bit_or_digit a b, bit_or_digit b a, or_comm_below n (a / 2) (b / 2))

pub bit_or_comm : (a b : ℕ) → bit_or a b ≡ bit_or b a
bit_or_comm a b = or_comm_below (a + b) a b (omega arith)

-- A shifted field is put in front of a low one by `|` as by `+`.
pub shifted-bit_or : (k q r : ℕ) → r < 2 ^ k → bit_or (q * 2 ^ k) r ≡ q * 2 ^ k + r
shifted-bit_or k q r h = bit_or_comm (q * 2 ^ k) r ∙ bit_or-shifted k r q h ∙ omega arith
