-- ===== src/Printk/Format.antt =====
-- `vprintk` against a description of the text that a format stands for.
use low_flex_programming.Base.{
  ℕ, ◌^◌, ◌≤◌, ◌<◌, ◌≡◌, List, [], ◌∷◌, ◌++◌, length, arith, Run, ok, ◌==◌, if◌then◌else◌, Bool,
  minus32, true, false, Option, none, some,
}
use low_flex_programming.Printk.{bprintu32, bprints32, bprintptr, printk_buf_size}
use low_flex_programming.Printk.Numeral.{numeral, length-numeral, numeral-pos}
use low_flex_programming.Printk.Number.{
  over, signed_numeral, pointer_text, bprintu32_lem, bprints32_lem, bprintptr_lem,
}

-- The text of one argument, and the arguments behind it.
abbrev pub argument_text : (ℕ → List ℕ) → List ℕ → Option (List ℕ × List ℕ)
argument_text text [] = none
argument_text text (a ∷ args) = some (text a, args)

abbrev pub prefixed : List ℕ → Option (List ℕ) → Option (List ℕ)
prefixed s none = none
prefixed s (some text) = some (s ++ text)

-- The text of a string argument, if a string stands at its address.
abbrev pub string_text : (ℕ → Option (List ℕ)) → List ℕ → Option (List ℕ × List ℕ)
string_text text [] = none
string_text text (a ∷ args) = elim (text a) [ none ↦ none | some s ↦ some (s, args) ]

-- `text_at p` is the string at the address `p`, if there is one.
module _ (text_at : ℕ → Option (List ℕ)) where
  -- What `%` and the letter `c` stand for.
  unfoldable pub directive_text : ℕ → List ℕ → Option (List ℕ × List ℕ)
  directive_text c args =
      if c == b'u'
      then argument_text (numeral 10) args
      else if c == b'x'
      then argument_text (numeral 16) args
      else if c == b'd'
      then argument_text (signed_numeral 10) args
      else if c == b'p'
      then argument_text pointer_text args
      else if c == b's'
      then string_text text_at args
      else some ([], args)

  -- The text of a format, `none` where it asks for more arguments than there are, or for a string
  -- where there is none. The flag is false
  -- behind a `%`.
  unfoldable pub render : Bool → List ℕ → List ℕ → Option (List ℕ)
  render plain [] args = some []
  render true (c ∷ fmt) args =
      let directive = render false fmt args in
      let text = prefixed (c ∷ []) (render true fmt args) in if c == b'%' then directive else text
  render false (c ∷ fmt) args = elim (directive_text c args) [
    | none ↦ none
    | some (s, args') ↦ prefixed s (render true fmt args')
  ]

-- Every argument is a 32-bit word.
abbrev pub AreWords : List ℕ → Type 0
AreWords [] = Unit
AreWords (a ∷ args) = (a < 2 ^ 32) × AreWords args

-- `convert` writes `text` of its argument into a buffer of the right size.
abbrev pub Writes : (List ℕ → ℕ → ℕ → Run (ℕ × List ℕ)) → (ℕ → List ℕ) → Type 0
Writes convert text =
    (buf : List ℕ) (a : ℕ)
    → length buf ≡ printk_buf_size
    → a < 2 ^ 32
    → (convert buf 0 a ≡ ok (length (text a), over (text a) buf))
      × (length (text a) ≤ printk_buf_size)
      × (1 ≤ length (text a))

pub Writes-decimal : Writes (λ buf off a. bprintu32 buf off a 10) (numeral 10)
Writes-decimal buf a hb ha =
    let fits : length (numeral 10 a) ≤ 10 =
      length-numeral 10 a 10 (omega arith) (omega arith) (omega arith) in
    (
      bprintu32_lem [] buf a 10 ha (omega arith) (omega arith) (omega arith),
      omega arith,
      numeral-pos 10 a,
    )

pub Writes-hex : Writes (λ buf off a. bprintu32 buf off a 16) (numeral 16)
Writes-hex buf a hb ha =
    let fits : length (numeral 16 a) ≤ 8 =
      length-numeral 16 a 8 (omega arith) (omega arith) (omega arith) in
    (
      bprintu32_lem [] buf a 16 ha (omega arith) (omega arith) (omega arith),
      omega arith,
      numeral-pos 16 a,
    )

length-signed_numeral :
    (a : ℕ) → a < 2 ^ 32 → (length (signed_numeral 10 a) ≤ 11) × (1 ≤ length (signed_numeral 10 a))
unfolding signed_numeral
length-signed_numeral a h =
    ground (arith, length-numeral 10 a 10, length-numeral 10 (minus32 a) 10, numeral-pos 10 a)

length-pointer_text :
    (a : ℕ) → a < 2 ^ 32 → (length (pointer_text a) ≤ 11) × (1 ≤ length (pointer_text a))
unfolding pointer_text
length-pointer_text a h = ground (arith, length-numeral 16 a 8)

pub Writes-signed : Writes (λ buf off a. bprints32 buf off a 10) (signed_numeral 10)
Writes-signed buf a hb ha =
    let bounds = length-signed_numeral a ha in
    (bprints32_lem [] buf a 10 ha (omega arith) (omega arith) (omega arith), bounds.0, bounds.1)

pub Writes-pointer : Writes bprintptr pointer_text
Writes-pointer buf a hb ha =
    let bounds = length-pointer_text a ha in
    (bprintptr_lem [] buf a ha (omega arith), bounds.0, bounds.1)
