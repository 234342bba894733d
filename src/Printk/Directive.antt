-- ===== src/Printk/Directive.antt =====
-- One round of `vprintk`: what a directive prints, and what the other characters do.
use low_flex_programming.Base.{
  ℕ, ◌≤◌, ◌≡◌, refl, ap, List, [], ◌∷◌, ◌++◌, length, length-append, arith, Run, ok, drop, ◌==◌,
  Bool, Bool-cases, inl, inr, ◌≢◌, true, false, ne→==, Option, none, some, length-drop, subst,
}
use low_flex_programming.Common.Copy.{IsText}
use low_flex_programming.Terminal.{Terminal}
use low_flex_programming.Terminal.Print.{
  print_all, terminal_write_lem, terminal_writestring_color_lem,
}
use low_flex_programming.Printk.{
  printk_buf_size, Printing, print_number, print_string, directive, vprintk_step, vprintk_loop,
  color,
}
use low_flex_programming.Printk.Number.{over}
use low_flex_programming.Printk.Format.{
  argument_text, string_text, directive_text, AreWords, Writes, Writes-decimal, Writes-hex,
  Writes-signed, Writes-pointer,
}

length-over : (text buf : List ℕ) → length text ≤ length buf → length (over text buf) ≡ length buf
length-over text buf h =
    omega (arith, length-append text (drop (length text) buf), length-drop (length text) buf)

-- The run `r` from `s` has printed `text`, and `args` are left.
pub record Did (s : Printing) (text args : List ℕ) (r : Run Printing) : Type 0 where
  pub after : Printing
  pub returns : r ≡ ok after
  pub idle : after.idle ≡ true
  pub args_left : after.args ≡ args
  pub words : AreWords args
  pub buf_size : length after.buf ≡ printk_buf_size
  pub printed : after.terminal ≡ print_all s.terminal text color

print_number-Did :
    (convert : List ℕ → ℕ → ℕ → Run (ℕ × List ℕ)) (text : ℕ → List ℕ) (idle : Bool)
    (given buf : List ℕ) (t : Terminal) (out args : List ℕ)
    → Writes convert text
    → length buf ≡ printk_buf_size
    → AreWords given
    → argument_text text given ≡ some (out, args)
    → let s : Printing = record { idle = idle; args = given; buf = buf; terminal = t } in
      Did s out args (print_number s convert)
unfolding print_number
print_number-Did convert text idle [] buf t out args w hb words h = absurd (cc)
print_number-Did convert text idle (a ∷ given) buf t out args w hb words h =
    let (wrote, fits, some_text) = w buf a hb words.0 in
    let same_args : given ≡ args = ground arith in
    let same_text : text a ≡ out = ground arith in
    record {
      after = record {
        idle = true;
        args = given;
        buf = over (text a) buf;
        terminal = print_all t (text a) color;
      };
      returns = rw (
        wrote,
        ne→== (length (text a)) 0 (omega arith),
        terminal_write_lem t (text a) (drop (length (text a)) buf) color,
      );
      idle = refl;
      args_left = same_args;
      words = subst AreWords same_args words.1;
      buf_size = omega (arith, length-over (text a) buf (omega arith));
      printed = ap (λ o. print_all t o color) same_text;
    }

-- The memory holds a text, ended by a NUL, at every address that is said to have one.
abbrev pub Strings : (ℕ → List ℕ) → (ℕ → Option (List ℕ)) → Type 0
Strings bytes_at text_at =
    (p : ℕ) (text : List ℕ)
    → text_at p ≡ some text
    → (after : List ℕ) × (bytes_at p ≡ text ++ 0 ∷ after) × IsText text

string_text-eq-some :
    (text_at : ℕ → Option (List ℕ)) (a : ℕ) (given out args : List ℕ)
    → string_text text_at (a ∷ given) ≡ some (out, args)
    → (text_at a ≡ some out) × (given ≡ args)
string_text-eq-some text_at a given out args h = go (text_at a) h
  where
    go :
        (o : Option (List ℕ))
        → ◌≡◌ {A = Option (List ℕ × List ℕ)}
            (elim o [ none ↦ none | some s ↦ some (s, given) ])
            (some (out, args))
        → (o ≡ some out) × (given ≡ args)
    go none e = absurd (cc)
    go (some s) e = (ground arith, ground arith)

module _ (bytes_at : ℕ → List ℕ) (text_at : ℕ → Option (List ℕ))
    (strings : Strings bytes_at text_at) where
  print_string-Did :
      (idle : Bool) (given buf : List ℕ) (t : Terminal) (out args : List ℕ)
      → length buf ≡ printk_buf_size
      → AreWords given
      → string_text text_at given ≡ some (out, args)
      → let s : Printing = record { idle = idle; args = given; buf = buf; terminal = t } in
        Did s out args (print_string bytes_at s)
  unfolding print_string
  print_string-Did idle [] buf t out args hb words h = absurd (cc)
  print_string-Did idle (a ∷ given) buf t out args hb words h =
      let (found, same_args) = string_text-eq-some text_at a given out args h in
      let (after, stored, is_text) = strings a out found in
      record {
        after = record { idle = true; args = given; buf = buf; terminal = print_all t out color };
        returns = rw (stored, terminal_writestring_color_lem t out after color is_text);
        idle = refl;
        args_left = same_args;
        words = subst AreWords same_args words.1;
        buf_size = hb;
        printed = refl;
      }

  nothing-Did :
      (s : Printing) (out args : List ℕ)
      → length s.buf ≡ printk_buf_size
      → AreWords s.args
      → ◌≡◌ {A = Option (List ℕ × List ℕ)} (some ([], s.args)) (some (out, args))
      → Did s out args (ok (record s { idle = true }))
  unfolding print_all
  nothing-Did s out args hb words h =
      let same_args : s.args ≡ args = ground arith in
      let same_text : [] ≡ out = ground arith in
      record {
        after = record s { idle = true };
        returns = refl;
        idle = refl;
        args_left = same_args;
        words = subst AreWords same_args words;
        buf_size = hb;
        printed = ap (λ o. print_all s.terminal o color) same_text;
      }

  pub directive-Did :
      (s : Printing) (c : ℕ) (out args : List ℕ)
      → length s.buf ≡ printk_buf_size
      → AreWords s.args
      → directive_text text_at c s.args ≡ some (out, args)
      → Did s out args (directive bytes_at s c)
  unfolding directive directive_text
  directive-Did s c out args hb words h = elim (Bool-cases (c == b'u')) [
    | inl u ↦ rw u (number _ _ Writes-decimal (rw u at h))
    | inr u ↦ elim (Bool-cases (c == b'x')) [
      | inl x ↦ rw (u, x) (number _ _ Writes-hex (rw (u, x) at h))
      | inr x ↦ elim (Bool-cases (c == b'd')) [
        | inl d ↦ rw (u, x, d) (number _ _ Writes-signed (rw (u, x, d) at h))
        | inr d ↦ elim (Bool-cases (c == b'p')) [
          | inl p ↦ rw (u, x, d, p) (number _ _ Writes-pointer (rw (u, x, d, p) at h))
          | inr p ↦ elim (Bool-cases (c == b's')) [
            | inl z ↦
                rw (u, x, d, p, z)
                  (print_string-Did s.idle s.args s.buf s.terminal out args hb words
                    (rw (u, x, d, p, z) at h))
            | inr z ↦ rw (u, x, d, p, z) (nothing-Did s out args hb words (rw (u, x, d, p, z) at h))
          ]
        ]
      ]
    ]
  ]
    where
      number :
          (convert : List ℕ → ℕ → ℕ → Run (ℕ × List ℕ)) (text : ℕ → List ℕ)
          → Writes convert text
          → argument_text text s.args ≡ some (out, args)
          → Did s out args (print_number s convert)
      number convert text w =
          print_number-Did convert text s.idle s.args s.buf s.terminal out args w hb words

module _ (bytes_at : ℕ → List ℕ) where
  pub step-percent :
      (s : Printing) (c : ℕ) (cursor : List ℕ)
      → s.idle ≡ true
      → (c == b'%') ≡ true
      → vprintk_step bytes_at s c cursor ≡ ok (record s { idle = false })
  unfolding vprintk_step
  step-percent s c cursor i p = ground arith

  pub step-plain :
      (s : Printing) (c : ℕ) (cursor : List ℕ)
      → s.idle ≡ true
      → (c == b'%') ≡ false
      → vprintk_step bytes_at s c cursor
        ≡ ok (record s { terminal = print_all s.terminal (c ∷ []) color })
  unfolding vprintk_step
  step-plain s c cursor i p = ground (arith, terminal_write_lem s.terminal (c ∷ []) cursor color)

  pub step-directive :
      (s : Printing) (c : ℕ) (cursor : List ℕ)
      → s.idle ≡ false
      → vprintk_step bytes_at s c cursor ≡ directive bytes_at s c
  unfolding vprintk_step
  step-directive s c cursor i = ground arith

  pub loop-round :
      (s : Printing) (c : ℕ) (cursor : List ℕ) (s' : Printing)
      → c ≢ 0
      → vprintk_step bytes_at s c cursor ≡ ok s'
      → vprintk_loop bytes_at (c ∷ cursor) s ≡ vprintk_loop bytes_at cursor s'
  unfolding vprintk_loop
  loop-round s c cursor s' h e = rw (ne→== c 0 h, e)
