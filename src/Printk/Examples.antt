-- ===== src/Printk/Examples.antt =====
-- The theorems on printing at concrete numbers and a concrete format, and runs of the code.
use low_flex_programming.Base.{
  Option, some, ℕ, ◌-◌, ◌^◌, ◌≡◌, refl, List, [], ◌∷◌, ◌++◌, ok, arith, replicate,
}
use low_flex_programming.Terminal.{Terminal}
use low_flex_programming.Terminal.Print.{print_all}
use low_flex_programming.Printk.{
  store, digit_loop, xor_into, swap, swap_loop, bprintu32, bprints32, color, vprintk,
}
use low_flex_programming.Printk.Numeral.{digit, low_first, numeral, value, value-numeral}
use low_flex_programming.Printk.Number.{signed_numeral}
use low_flex_programming.Printk.Format.{directive_text, render}
use low_flex_programming.Printk.Vprintk.{vprintk_lem}

abbrev buf : List ℕ
buf = replicate 11 0

hex_255 : bprintu32 buf 0 255 16 ≡ ok (2, b'f' ∷ b'f' ∷ replicate 9 0)
unfolding bprintu32 store digit_loop xor_into swap swap_loop
hex_255 = refl

-- The smallest `int` takes all 11 bytes.
smallest_int :
    bprints32 buf 0 (2 ^ 31) 10
    ≡ ok (11, b'-' ∷ b'2' ∷ b'1' ∷ b'4' ∷ b'7' ∷ b'4' ∷ b'8' ∷ b'3' ∷ b'6' ∷ b'4' ∷ b'8' ∷ [])
unfolding bprints32 bprintu32 store digit_loop xor_into swap swap_loop
smallest_int = refl

value-numeral_example : value 10 (numeral 10 1234) ≡ 1234
value-numeral_example = value-numeral 10 1234 (omega arith) (omega arith) (omega arith)

-- A memory with the string "ok" everywhere.
abbrev text_at : ℕ → Option (List ℕ)
text_at p = some (b'o' ∷ b'k' ∷ [])

abbrev bytes_at : ℕ → List ℕ
bytes_at p = b'o' ∷ b'k' ∷ 0 ∷ []

abbrev screen : Terminal
screen = record { row = 0; column = 0; buffer = λ a. 0 }

-- "n=%d %s"
abbrev fmt : List ℕ
fmt = b'n' ∷ b'=' ∷ b'%' ∷ b'd' ∷ b' ' ∷ b'%' ∷ b's' ∷ []

abbrev out : List ℕ
out = b'n' ∷ b'=' ∷ b'-' ∷ b'5' ∷ b' ' ∷ b'o' ∷ b'k' ∷ []

vprintk_lem_example :
    vprintk bytes_at buf (fmt ++ 0 ∷ []) ((2 ^ 32 - 5) ∷ 700 ∷ []) screen
    ≡ ok (print_all screen out color)
unfolding render directive_text signed_numeral numeral low_first digit
vprintk_lem_example =
    vprintk_lem bytes_at text_at (λ p text e. ([], ground (arith, e), ground (arith, e))) buf fmt []
      ((2 ^ 32 - 5) ∷ 700 ∷ []) out screen refl (omega arith) (omega arith) refl
