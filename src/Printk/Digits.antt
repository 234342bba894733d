-- ===== src/Printk/Digits.antt =====
-- The first loop of `bprintu32`: the digits go into the buffer from the lowest on.
use low_flex_programming.Base.{
  ℕ, zero, suc, ◌+◌, ◌/◌, ◌%◌, ◌^◌, ◌≤◌, ◌<◌, ◌≡◌, refl, ap, ap₂, List, [], ◌∷◌, ◌++◌, length,
  length-append, arith, ◌∙◌, ◌≢◌, ok, drop, set-middle, append_assoc, lt→ltb, ne→==,
}
use native.Mathlib.Nat.{pow-suc, mod-lt, add-zero}
use native.Mathlib.Decide.{ℕ_discrete}
use low_flex_programming.Printk.{store, digit_loop}
use low_flex_programming.Printk.Numeral.{
  digit, digit_table, low_first, low_first-zero, low_first-pos, div_half,
}

-- A write to the place behind a prefix.
pub store-middle :
    (xs : List ℕ) (x c : ℕ) (ys : List ℕ) (i : ℕ)
    → i ≡ length xs
    → store (xs ++ x ∷ ys) i c ≡ ok (xs ++ c ∷ ys)
unfolding store
store-middle xs x c ys i e = rw (
  e,
  lt→ltb (length xs) (length (xs ++ x ∷ ys)) (omega (arith, length-append xs (x ∷ ys))),
  set-middle xs x c ys,
)

digit_loop-end :
    (fuel bytes base : ℕ) (buf : List ℕ) (off : ℕ)
    → digit_loop (suc fuel) buf off bytes 0 base ≡ ok (bytes, buf)
unfolding digit_loop
digit_loop-end fuel bytes base buf off = refl

digit_loop-round :
    (fuel bytes a base : ℕ) (pre : List ℕ) (x : ℕ) (room : List ℕ) (off : ℕ)
    → a ≢ 0
    → 2 ≤ base
    → base ≤ 16
    → off + bytes ≡ length pre
    → digit_loop (suc fuel) (pre ++ x ∷ room) off bytes a base
      ≡ digit_loop fuel (pre ++ digit (a % base) ∷ room) off (bytes + 1) (a / base) base
unfolding digit_loop
digit_loop-round fuel bytes a base pre x room off ha h2 h16 e = rw (
  ne→== a 0 ha,
  ne→== base 0 (omega arith),
  digit_table (a % base) (omega (arith, mod-lt a {m = base} (omega arith))),
  store-middle pre x (digit (a % base)) room (off + bytes) e,
)

-- Started behind `pre`, the loop writes the digits there, lowest first, and leaves all else.
pub digit_loop_lem :
    (fuel bytes a base : ℕ) (pre room : List ℕ) (off : ℕ)
    → a < 2 ^ fuel
    → 2 ≤ base
    → base ≤ 16
    → off + bytes ≡ length pre
    → length (low_first fuel base a) ≤ length room
    → digit_loop (suc fuel) (pre ++ room) off bytes a base
      ≡ ok (
        bytes + length (low_first fuel base a),
        pre ++ (low_first fuel base a ++ drop (length (low_first fuel base a)) room),
      )
digit_loop_lem zero bytes a base pre room off h h2 h16 e hl =
    let ea : a ≡ 0 = omega arith in rw (ea, low_first-zero, digit_loop-end, add-zero)
digit_loop_lem (suc fuel) bytes a base pre [] off h h2 h16 e hl = elim (ℕ_discrete a 0) [
  | yes ea ↦ rw (ea, low_first-zero, digit_loop-end, add-zero)
  | no na ↦ absurd (omega (arith, ap length (low_first-pos fuel base a na)))
]
digit_loop_lem (suc fuel) bytes a base pre (r ∷ room) off h h2 h16 e hl = elim (ℕ_discrete a 0) [
  | yes ea ↦ rw (ea, low_first-zero, digit_loop-end, add-zero)
  | no na ↦
      let d : ℕ = digit (a % base) in
      let more = low_first-pos fuel base a na in
      digit_loop-round (suc fuel) bytes a base pre r room off na h2 h16 e
      ∙ rw (more, ← append_assoc pre (d ∷ []) room)
          (digit_loop_lem fuel (bytes + 1) (a / base) base (pre ++ d ∷ []) room off
              (div_half a base (2 ^ fuel) h2 (omega (arith, pow-suc 2 fuel))) h2 h16
              (omega (arith, length-append pre (d ∷ []))) (omega (arith, ap length more))
            ∙ ap₂ (λ (n : ℕ) (l : List ℕ). ok (n, l)) (omega arith) (append_assoc pre (d ∷ []) _))
]
