-- ===== src/Printk/Numeral.antt =====
-- Numerals as texts: what the number conversions should write, and what such a text stands for.
use Prim.Native.Nat.pow
use low_flex_programming.Base.{
  ℕ, zero, suc, ◌+◌, ◌-◌, ◌*◌, ◌/◌, ◌%◌, ◌^◌, ◌≤◌, ◌<◌, ◌≡◌, refl, ap, List, [], ◌∷◌, ◌++◌, reverse,
  Bool, true, false, ◌==◌, ltb, if◌then◌else◌, length, length-append, arith, some, none, Bool-cases,
  inl, inr, eq→==, ne→==, get_elem?, ◌≢◌,
}
use native.Mathlib.Nat.{pow-suc, div-add-mod', mod-lt, div-lt_iff_lt-mul}
use native.Mathlib.Decide.{ℕ_discrete}
use mathlib.Core.List.{reverse-cons}
use low_flex_programming.Base.Tables.{table_holds, table_sound}
use low_flex_programming.Printk.{digits}

unfoldable pub digit : ℕ → ℕ
digit d = if ltb d 10 then b'0' + d else b'a' + (d - 10)

-- Lowest digit first; nothing for 0. The fuel bounds the number of digits.
unfoldable pub low_first : ℕ → ℕ → ℕ → List ℕ
low_first zero base a = []
low_first (suc fuel) base a =
    let more = digit (a % base) ∷ low_first fuel base (a / base) in if a == 0 then [] else more

pub low_first-zero : (fuel base : ℕ) → low_first fuel base 0 ≡ []
unfolding low_first
low_first-zero zero base = refl
low_first-zero (suc fuel) base = refl

pub low_first-pos :
    (fuel base a : ℕ)
    → a ≢ 0
    → low_first (suc fuel) base a ≡ digit (a % base) ∷ low_first fuel base (a / base)
unfolding low_first
low_first-pos fuel base a h = rw (ne→== a 0 h)

unfoldable pub numeral : ℕ → ℕ → List ℕ
numeral base a = if a == 0 then b'0' ∷ [] else reverse (low_first 32 base a)

-- What a text stands for, read from the left.
unfoldable pub digit_value : ℕ → ℕ
digit_value c = if ltb c b'a' then c - b'0' else c - b'a' + 10

unfoldable pub value_from : ℕ → ℕ → List ℕ → ℕ
value_from base acc [] = acc
value_from base acc (c ∷ s) = value_from base (acc * base + digit_value c) s

abbrev pub value : ℕ → List ℕ → ℕ
value base s = value_from base 0 s

abbrev in_table : ℕ → Bool
in_table d = elim (get_elem? digits d) [ none ↦ false | some c ↦ c == digit d ]

digits_checked : table_holds 16 in_table ≡ true
unfolding table_holds digit
digits_checked = refl

pub digit_table : (d : ℕ) → d < 16 → get_elem? digits d ≡ some (digit d)
digit_table d h = ground (arith, table_sound 16 in_table d digits_checked h)

digit_value-digit : (d : ℕ) → d < 16 → digit_value (digit d) ≡ d
unfolding digit_value digit
digit_value-digit d h = ground arith

value_from-append :
    (base acc : ℕ) (s t : List ℕ)
    → value_from base acc (s ++ t) ≡ value_from base (value_from base acc s) t
unfolding value_from
value_from-append base acc [] t = refl
value_from-append base acc (c ∷ s) t = value_from-append base (acc * base + digit_value c) s t

div_below : (a base p : ℕ) → 2 ≤ base → a < base * p → a / base < p
div_below a base p h2 h = (div-lt_iff_lt-mul (omega arith)).1 (omega arith)

pub div_half : (a base p : ℕ) → 2 ≤ base → a < 2 * p → a / base < p
div_half a base p h2 h = div_below a base p h2 (grind arith)

value-low_first :
    (fuel base a : ℕ)
    → 2 ≤ base
    → base ≤ 16
    → a < 2 ^ fuel
    → value base (reverse (low_first fuel base a)) ≡ a
unfolding low_first value_from
value-low_first zero base a h2 h16 h = omega arith
value-low_first (suc fuel) base a h2 h16 h = elim (Bool-cases (a == 0)) [
  | inl e ↦ rw e (ground arith)
  | inr e ↦
      rw (e, reverse-cons, value_from-append)
        (omega (
          arith,
          digit_value-digit (a % base) (omega (arith, mod-lt a {m = base} (omega arith))),
          ap (λ (v : ℕ). v * base)
              (value-low_first fuel base (a / base) h2 h16
                (div_half a base (2 ^ fuel) h2 (omega (arith, pow-suc 2 fuel)))),
          div-add-mod' a base,
        ))
]

-- A numeral stands for its number.
pub value-numeral :
    (base a : ℕ) → 2 ≤ base → base ≤ 16 → a < 2 ^ 32 → value base (numeral base a) ≡ a
unfolding numeral value_from digit_value
value-numeral base a h2 h16 h = elim (Bool-cases (a == 0)) [
  | inl e ↦ rw e (ground arith)
  | inr e ↦ rw e (value-low_first 32 base a h2 h16 h)
]

-- A number below `base ^ k` has at most `k` digits.
pub length-low_first :
    (fuel base a k : ℕ) → 2 ≤ base → a < base ^ k → length (low_first fuel base a) ≤ k
unfolding low_first
length-low_first zero base a k h2 h = omega arith
length-low_first (suc fuel) base a zero h2 h =
    let e : (a == 0) ≡ true = eq→== a 0 (omega (arith, pow.zero base)) in rw e (omega arith)
length-low_first (suc fuel) base a (suc k) h2 h = elim (Bool-cases (a == 0)) [
  | inl e ↦ rw e (omega arith)
  | inr e ↦ rw e (
      omega (
        arith,
        length-low_first fuel base (a / base) k h2
            (div_below a base (base ^ k) h2 (omega (arith, pow-suc base k))),
      ))
]

pub length-reverse : (s : List ℕ) → length (reverse s) ≡ length s
length-reverse [] = refl
length-reverse (c ∷ s) =
    rw reverse-cons (omega (arith, length-append (reverse s) (c ∷ []), length-reverse s))

-- A number below `base ^ k`, with `k` at least 1, has a numeral of at most `k` characters.
pub length-numeral : (base a k : ℕ) → 2 ≤ base → a < base ^ k → 1 ≤ k → length (numeral base a) ≤ k
unfolding numeral
length-numeral base a k h2 h hk =
    ground (arith, length-reverse (low_first 32 base a), length-low_first 32 base a k)

pub numeral-pos : (base a : ℕ) → 1 ≤ length (numeral base a)
unfolding numeral
numeral-pos base a = elim (ℕ_discrete a 0) [
  | yes e ↦ rw (eq→== a 0 e) (omega arith)
  | no e ↦ rw (ne→== a 0 e, length-reverse) (omega (arith, ap length (low_first-pos 31 base a e)))
]
