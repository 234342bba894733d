-- ===== src/Panic/Examples.antt =====
-- A panic with a number in its message.
use low_flex_programming.Base.{
  ℕ, ◌≡◌, refl, List, [], ◌∷◌, ◌++◌, false, Option, some, ok, arith, replicate,
}
use low_flex_programming.Terminal.{Terminal}
use low_flex_programming.Terminal.Print.{print_all}
use low_flex_programming.Printk.{color}
use low_flex_programming.Printk.Numeral.{numeral, low_first, digit}
use low_flex_programming.Printk.Format.{render, directive_text}
use low_flex_programming.Panic.{halt_with, panic_text, halt_with-text}

abbrev bytes_at : ℕ → List ℕ
bytes_at p = b'f' ∷ b':' ∷ b'7' ∷ 0 ∷ []

abbrev text_at : ℕ → Option (List ℕ)
text_at p = some (b'f' ∷ b':' ∷ b'7' ∷ [])

abbrev msg : List ℕ
msg = b'0' ∷ b'x' ∷ b'%' ∷ b'x' ∷ []

abbrev screen : Terminal
screen = record { row = 0; column = 0; buffer = λ a. 0 }

halt_with-text_example :
    halt_with bytes_at (replicate 11 0) 0x5000 (msg ++ 0 ∷ []) (0xef ∷ []) screen
    ≡ ok (record {
      terminal =
          print_all screen
            (panic_text (b'f' ∷ b':' ∷ b'7' ∷ []) (b'0' ∷ b'x' ∷ b'e' ∷ b'f' ∷ []))
            color;
      interrupts = false;
    })
unfolding render directive_text numeral low_first digit
halt_with-text_example =
    halt_with-text bytes_at text_at (λ p text e. ([], ground (arith, e), ground (arith, e)))
      (replicate 11 0) 0x5000 (b'f' ∷ b':' ∷ b'7' ∷ []) msg [] (0xef ∷ [])
      (b'0' ∷ b'x' ∷ b'e' ∷ b'f' ∷ []) screen refl (omega arith) refl (omega arith)
      (omega arith, tt) refl
