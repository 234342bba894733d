-- ===== src/Printk/Vprintk.antt =====
-- `vprintk` prints the text that its format stands for.
use low_flex_programming.Base.{
  ℕ, ◌≡◌, refl, ap, sym, List, [], ◌∷◌, ◌++◌, length, arith, ◌∙◌, Run, ok, ◌==◌, Bool, Bool-cases,
  inl, inr, true, false, Option, none, some, Option-cases, subst,
}
use low_flex_programming.Common.Copy.{IsText}
use low_flex_programming.Terminal.{Terminal}
use low_flex_programming.Terminal.Print.{print_all, print_all-append}
use low_flex_programming.Printk.{printk_buf_size, Printing, vprintk_loop, vprintk, color}
use low_flex_programming.Printk.Format.{directive_text, prefixed, render, AreWords}
use low_flex_programming.Printk.Directive.{
  Strings, directive-Did, step-percent, step-plain, step-directive, loop-round,
}

-- The loop, run to its end, has printed `out`.
abbrev Printed : Printing → List ℕ → Run Printing → Type 0
Printed s out r = (s' : Printing) × (r ≡ ok s') × (s'.terminal ≡ print_all s.terminal out color)

prefixed-eq-some :
    (p : List ℕ) (o : Option (List ℕ)) (out : List ℕ)
    → prefixed p o ≡ some out
    → (text : List ℕ) × (o ≡ some text) × (out ≡ p ++ text)
prefixed-eq-some p none out h = absurd (cc)
prefixed-eq-some p (some text) out h = (text, refl, ground arith)

loop-end :
    (bytes_at : ℕ → List ℕ) (rest : List ℕ) (s : Printing) (out : List ℕ)
    → [] ≡ out
    → Printed s out (vprintk_loop bytes_at (0 ∷ rest) s)
unfolding vprintk_loop print_all
loop-end bytes_at rest s out e = (s, refl, ap (λ o. print_all s.terminal o color) e)

-- A round that prints `p`, and a run that prints `text` behind it.
Printed-append :
    (s s' : Printing) (p text out : List ℕ) (r : Run Printing)
    → s'.terminal ≡ print_all s.terminal p color
    → out ≡ p ++ text
    → Printed s' text r
    → Printed s out r
Printed-append s s' p text out r first e (s'', run, second) = (
  s'',
  run,
  second
      ∙ ap (λ t. print_all t text color) first
      ∙ sym (print_all-append s.terminal p text color)
      ∙ ap (λ o. print_all s.terminal o color) (sym e),
)

module _ (bytes_at : ℕ → List ℕ) (text_at : ℕ → Option (List ℕ))
    (strings : Strings bytes_at text_at) where
  render-directive :
      (c : ℕ) (fmt args out : List ℕ)
      → render text_at false (c ∷ fmt) args ≡ some out
      → (p : List ℕ) × (args' : List ℕ) × (directive_text text_at c args ≡ some (p, args'))
        × (prefixed p (render text_at true fmt args') ≡ some out)
  unfolding render
  render-directive c fmt args out h = elim (Option-cases (directive_text text_at c args)) [
    | inl e ↦ absurd (cc (rw (e, render) at h))
    | inr ((p, args'), e) ↦ (p, args', e, rw (e, render) at h)
  ]

  loop-Printed :
      (fmt rest : List ℕ) (idle : Bool) (args : List ℕ) (s : Printing) (out : List ℕ)
      → IsText fmt
      → s.idle ≡ idle
      → s.args ≡ args
      → length s.buf ≡ printk_buf_size
      → AreWords args
      → render text_at idle fmt args ≡ some out
      → Printed s out (vprintk_loop bytes_at (fmt ++ 0 ∷ rest) s)
  unfolding render
  loop-Printed [] rest true args s out t ei ea hb words h = loop-end bytes_at rest s out (cc)
  loop-Printed [] rest false args s out t ei ea hb words h = loop-end bytes_at rest s out (cc)
  loop-Printed (c ∷ fmt) rest true args s out t ei ea hb words h = elim (Bool-cases (c == b'%')) [
    | inl e ↦
        let s' : Printing = record s { idle = false } in
        rw
          (loop-round bytes_at s c (fmt ++ 0 ∷ rest) s' t.0
            (step-percent bytes_at s c (fmt ++ 0 ∷ rest) ei e))
          (loop-Printed fmt rest false args s' out t.1 refl ea hb words (rw e at h))
    | inr e ↦
        let s' : Printing = record s { terminal = print_all s.terminal (c ∷ []) color } in
        let (text, later, split) =
          prefixed-eq-some (c ∷ []) (render text_at true fmt args) out (rw e at h) in
        rw
          (loop-round bytes_at s c (fmt ++ 0 ∷ rest) s' t.0
            (step-plain bytes_at s c (fmt ++ 0 ∷ rest) ei e))
          (Printed-append s s' (c ∷ []) text out _ refl split
            (loop-Printed fmt rest true args s' text t.1 ei ea hb words later))
  ]
  loop-Printed (c ∷ fmt) rest false args s out t ei ea hb words h =
      let (p, args', now, more) = render-directive c fmt args out h in
      let (text, later, split) = prefixed-eq-some p (render text_at true fmt args') out more in
      let did =
        directive-Did bytes_at text_at strings s c p args' hb (subst AreWords (sym ea) words)
          (ap (directive_text text_at c) ea ∙ now) in
      rw
        (loop-round bytes_at s c (fmt ++ 0 ∷ rest) did.after t.0
          (step-directive bytes_at s c (fmt ++ 0 ∷ rest) ei ∙ did.returns))
        (Printed-append s did.after p text out _ did.printed split (
          loop-Printed fmt rest true args' did.after text t.1 did.idle did.args_left did.buf_size
            did.words later))

  -- For a format that asks for no more arguments than there are, each of them a 32-bit word, and for
  -- strings only where the memory has one: `vprintk` returns, and has printed exactly the text that the format and its arguments stand for: no conversion leaves the
  -- 11 bytes of its buffer, whatever stood in them.
  pub vprintk_lem :
      (buf fmt rest args out : List ℕ) (t : Terminal)
      → length buf ≡ printk_buf_size
      → IsText fmt
      → AreWords args
      → render text_at true fmt args ≡ some out
      → vprintk bytes_at buf (fmt ++ 0 ∷ rest) args t ≡ ok (print_all t out color)
  unfolding vprintk
  vprintk_lem buf fmt rest args out t hb tf words h =
      let s : Printing = record { idle = true; args = args; buf = buf; terminal = t } in
      let (s', run, done) = loop-Printed fmt rest true args s out tf refl refl hb words h in
      rw run (ap (λ t. ok t) done)
