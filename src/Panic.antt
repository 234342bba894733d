-- ===== src/Panic.antt =====
-- panic.c and panic.h: the end of the kernel. It does not return: the processor halts with its
-- interrupts off, so what is left of it is the screen.
mod Examples
use low_flex_programming.Base.{
  ℕ, ◌+◌, ◌^◌, ◌<◌, ◌≡◌, refl, ap, ◌∙◌, sym, append_assoc, List, [], ◌∷◌, ◌++◌, length, Bool, true,
  false, Option, none, some, Run, ok, ◌>>=◌, arith,
}
use low_flex_programming.Common.Copy.{IsText}
use low_flex_programming.Terminal.{Terminal}
use low_flex_programming.Terminal.Print.{print_all, print_all-append}
use low_flex_programming.Printk.{printk, vprintk, printk_buf_size, color}
use low_flex_programming.Printk.Format.{render, directive_text, AreWords}
use low_flex_programming.Printk.Directive.{Strings}
use low_flex_programming.Printk.Vprintk.{vprintk_lem}

pub record Halted : Type 0 where
  pub terminal : Terminal
  pub interrupts : Bool

abbrev location_format : List ℕ
location_format =
    b'p' ∷ b'a' ∷ b'n' ∷ b'i' ∷ b'c' ∷ b' ' ∷ b'a' ∷ b't' ∷ b' ' ∷ b'%' ∷ b's' ∷ b':' ∷ b' ' ∷ []

-- `__panic`, with the message's format and its arguments, up to the loop that halts.
unfoldable pub halt_with :
    (bytes_at : ℕ → List ℕ) (stack_buf : List ℕ) (location : ℕ) (msg args : List ℕ)
    → Terminal
    → Run Halted
halt_with bytes_at stack_buf location msg args t = do
  t ← printk bytes_at stack_buf (location_format ++ 0 ∷ []) (location ∷ []) t
  t ← vprintk bytes_at stack_buf msg args t
  ok (record { terminal = t; interrupts = false })

-- What a panic leaves on the screen.
abbrev pub panic_text : List ℕ → List ℕ → List ℕ
panic_text place out =
    b'p' ∷ b'a' ∷ b'n' ∷ b'i' ∷ b'c' ∷ b' ' ∷ b'a' ∷ b't' ∷ b' ' ∷ (place ++ b':' ∷ b' ' ∷ out)

module _ (bytes_at : ℕ → List ℕ) (text_at : ℕ → Option (List ℕ))
    (strings : Strings bytes_at text_at) where
  location_text :
      (location : ℕ) (place : List ℕ)
      → text_at location ≡ some place
      → render text_at true location_format (location ∷ []) ≡ some (panic_text place [])
  unfolding render directive_text
  location_text location place e = rw e refl

  -- A panic whose location is a string, and whose message has all the words and strings that its format
  -- asks for: it does not panic again, the screen shows the location and the message, and the processor
  -- halts with interrupts off.
  pub halt_with-text :
      (stack_buf : List ℕ) (location : ℕ) (place msg rest args out : List ℕ) (t : Terminal)
      → length stack_buf ≡ printk_buf_size
      → location < 2 ^ 32
      → text_at location ≡ some place
      → IsText msg
      → AreWords args
      → render text_at true msg args ≡ some out
      → halt_with bytes_at stack_buf location (msg ++ 0 ∷ rest) args t
        ≡ ok (record { terminal = print_all t (panic_text place out) color; interrupts = false })
  unfolding halt_with
  halt_with-text stack_buf location place msg rest args out t size word here text words h =
      let first =
        vprintk_lem bytes_at text_at strings stack_buf location_format [] (location ∷ [])
          (panic_text place []) t size (omega arith) (word, tt)
          (location_text location place here) in
      let t1 = print_all t (panic_text place []) color in
      let second =
        vprintk_lem bytes_at text_at strings stack_buf msg rest args out t1 size text words h in
      let whole : panic_text place [] ++ out ≡ panic_text place out =
        ap (λ l. b'p' ∷ b'a' ∷ b'n' ∷ b'i' ∷ b'c' ∷ b' ' ∷ b'a' ∷ b't' ∷ b' ' ∷ l)
          (append_assoc place (b':' ∷ b' ' ∷ []) out) in
      rw (first, second)
        (ap (λ u. ok (record { terminal = u; interrupts = false }))
          (sym (print_all-append t (panic_text place []) out color)
            ∙ ap (λ l. print_all t l color) whole))
