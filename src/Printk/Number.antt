-- ===== src/Printk/Number.antt =====
-- The conversions into a buffer: what they write, how long it is, and that they stay in bounds.
use Prim.Native.Nat.add
use low_flex_programming.Base.{
  ℕ, ◌+◌, ◌^◌, ◌≤◌, ◌<◌, ◌≡◌, refl, ap, List, [], ◌∷◌, ◌++◌, reverse, length, length-append, arith,
  ◌∙◌, ok, append_assoc, drop, ◌==◌, if◌then◌else◌, Bool-cases, inl, inr, minus32, true, false,
  ne→==,
}
use low_flex_programming.Common.Copy.{IsText}
use low_flex_programming.Printk.{store, bprintu32, bprints32, bprintstr, bprintptr, is_negative}
use low_flex_programming.Printk.Numeral.{numeral, low_first, length-reverse}
use low_flex_programming.Printk.Digits.{digit_loop_lem, store-middle}
use low_flex_programming.Printk.Swap.{swap_loop_lem}

-- `text` over the front of `room`.
abbrev pub over : List ℕ → List ℕ → List ℕ
over text room = text ++ drop (length text) room

-- One character into a room that is not empty.
store-over :
    (pre room : List ℕ) (c i : ℕ)
    → i ≡ length pre
    → 1 ≤ length room
    → store (pre ++ room) i c ≡ ok (pre ++ over (c ∷ []) room)
store-over pre [] c i e h = absurd (omega arith)
store-over pre (r ∷ room) c i e h = store-middle pre r c room i e

bprintu32-zero :
    (pre room : List ℕ) (a base : ℕ)
    → (a == 0) ≡ true
    → 1 ≤ length room
    → bprintu32 (pre ++ room) (length pre) a base ≡ ok (1, pre ++ over (b'0' ∷ []) room)
unfolding bprintu32
bprintu32-zero pre room a base e h = rw (e, store-over pre room b'0' (length pre) refl h)

bprintu32-pos :
    (pre room : List ℕ) (a base : ℕ)
    → a < 2 ^ 32
    → (a == 0) ≡ false
    → 2 ≤ base
    → base ≤ 16
    → length (low_first 32 base a) ≤ length room
    → bprintu32 (pre ++ room) (length pre) a base
      ≡ ok (
        length (low_first 32 base a),
        pre ++ (reverse (low_first 32 base a) ++ drop (length (low_first 32 base a)) room),
      )
unfolding bprintu32
bprintu32-pos pre room a base h pos h2 h16 hl = rw (
  pos,
  digit_loop_lem 32 0 a base pre room (length pre) h h2 h16 (omega arith) hl,
  add.zero,
  swap_loop_lem pre (low_first 32 base a),
)

-- In a base from 2 to 16, and with room for the numeral, `bprintu32` returns the numeral's length,
-- writes the numeral behind `pre` and changes no other byte.
pub bprintu32_lem :
    (pre room : List ℕ) (a base : ℕ)
    → a < 2 ^ 32
    → 2 ≤ base
    → base ≤ 16
    → length (numeral base a) ≤ length room
    → bprintu32 (pre ++ room) (length pre) a base
      ≡ ok (length (numeral base a), pre ++ over (numeral base a) room)
unfolding numeral
bprintu32_lem pre room a base h h2 h16 hl = elim (Bool-cases (a == 0)) [
  | inl e ↦ rw e (bprintu32-zero pre room a base e (ground arith))
  | inr e ↦
      rw (e, length-reverse)
        (bprintu32-pos pre room a base h e h2 h16
          (ground (arith, length-reverse (low_first 32 base a))))
]

-- What `bprints32` should write for the `int` whose bits are `a`.
unfoldable pub signed_numeral : ℕ → ℕ → List ℕ
signed_numeral base a = if is_negative a then b'-' ∷ numeral base (minus32 a) else numeral base a

bprints32-negative :
    (pre room : List ℕ) (r a base : ℕ)
    → a < 2 ^ 32
    → is_negative a ≡ true
    → 2 ≤ base
    → base ≤ 16
    → length (numeral base (minus32 a)) ≤ length room
    → bprints32 (pre ++ r ∷ room) (length pre) a base
      ≡ ok (
        1 + length (numeral base (minus32 a)),
        pre ++ b'-' ∷ over (numeral base (minus32 a)) room,
      )
unfolding bprints32
bprints32-negative pre room r a base h neg h2 h16 hl =
    let next : length pre + 1 ≡ length (pre ++ b'-' ∷ []) =
      omega (arith, length-append pre (b'-' ∷ [])) in
    rw (
      neg,
      store-middle pre r b'-' room (length pre) refl,
      ← append_assoc pre (b'-' ∷ []) room,
      next,
      bprintu32_lem (pre ++ b'-' ∷ []) room (minus32 a) base (omega arith) h2 h16 hl,
      append_assoc pre (b'-' ∷ []),
    )

bprints32-positive :
    (room : List ℕ) (a : ℕ) (pre : List ℕ) (base : ℕ)
    → is_negative a ≡ false
    → bprints32 (pre ++ room) (length pre) a base ≡ bprintu32 (pre ++ room) (length pre) a base
unfolding bprints32
bprints32-positive room a pre base e = rw e

-- In a base from 2 to 16, with room for the sign and the numeral, `bprints32` returns their length,
-- writes them behind `pre` and changes no other byte, for every `int`, the smallest one included.
pub bprints32_lem :
    (pre room : List ℕ) (a base : ℕ)
    → a < 2 ^ 32
    → 2 ≤ base
    → base ≤ 16
    → length (signed_numeral base a) ≤ length room
    → bprints32 (pre ++ room) (length pre) a base
      ≡ ok (length (signed_numeral base a), pre ++ over (signed_numeral base a) room)
unfolding signed_numeral
bprints32_lem pre [] a base h h2 h16 hl = elim (Bool-cases (is_negative a)) [
  | inl e ↦ absurd (ground arith)
  | inr e ↦
      rw e
        (bprints32-positive [] a pre base e ∙ bprintu32_lem pre [] a base h h2 h16 (ground arith))
]
bprints32_lem pre (r ∷ room) a base h h2 h16 hl = elim (Bool-cases (is_negative a)) [
  | inl e ↦ rw e (
      bprints32-negative pre room r a base h e h2 h16 (ground arith)
      ∙ ap (λ n. ok (n, pre ++ b'-' ∷ over (numeral base (minus32 a)) room)) (omega arith))
  | inr e ↦ rw e (
      bprints32-positive (r ∷ room) a pre base e
      ∙ bprintu32_lem pre (r ∷ room) a base h h2 h16 (ground arith))
]

-- A text is copied up to its NUL.
pub bprintstr_lem :
    (pre room : List ℕ) (s after : List ℕ) (off len : ℕ)
    → IsText s
    → off + len ≡ length pre
    → length s ≤ length room
    → bprintstr (pre ++ room) off len (s ++ 0 ∷ after) ≡ ok (len + length s, pre ++ over s room)
unfolding bprintstr
bprintstr_lem pre room [] after off len t e hl = ap (λ n. ok (n, pre ++ room)) (omega arith)
bprintstr_lem pre [] (c ∷ s) after off len t e hl = absurd (omega arith)
bprintstr_lem pre (r ∷ room) (c ∷ s) after off len t e hl =
    rw
      (
        ne→== c 0 t.0,
        store-middle pre r c room (off + len) e,
        ← append_assoc pre (c ∷ []) room,
        bprintstr_lem (pre ++ c ∷ []) room s after off (len + 1) t.1
            (omega (arith, length-append pre (c ∷ []))) (omega arith),
        append_assoc pre (c ∷ []),
      )
      (ap (λ n. ok (n, pre ++ c ∷ over s room)) (omega arith))

abbrev pub nil_text : List ℕ
nil_text = b'(' ∷ b'n' ∷ b'i' ∷ b'l' ∷ b')' ∷ []

-- What `bprintptr` should write for an address.
unfoldable pub pointer_text : ℕ → List ℕ
pointer_text ptr = if ptr == 0 then nil_text else b'0' ∷ b'x' ∷ numeral 16 ptr

abbrev hex_prefix : List ℕ
hex_prefix = b'0' ∷ b'x' ∷ []

bprintptr-null :
    (pre room : List ℕ) (ptr : ℕ)
    → (ptr == 0) ≡ true
    → 5 ≤ length room
    → bprintptr (pre ++ room) (length pre) ptr ≡ ok (5, pre ++ over nil_text room)
unfolding bprintptr
bprintptr-null pre room ptr e h =
    rw e (bprintstr_lem pre room nil_text [] (length pre) 0 (omega arith) (omega arith) h)

bprintptr-address :
    (pre room : List ℕ) (r s ptr : ℕ)
    → ptr < 2 ^ 32
    → (ptr == 0) ≡ false
    → length (numeral 16 ptr) ≤ length room
    → bprintptr (pre ++ r ∷ s ∷ room) (length pre) ptr
      ≡ ok (2 + length (numeral 16 ptr), pre ++ b'0' ∷ b'x' ∷ over (numeral 16 ptr) room)
unfolding bprintptr
bprintptr-address pre room r s ptr h e hl =
    let next : length pre + 2 ≡ length (pre ++ hex_prefix) =
      omega (arith, length-append pre hex_prefix) in
    rw (
      e,
      bprintstr_lem pre (r ∷ s ∷ room) hex_prefix [] (length pre) 0 (omega arith) (omega arith)
          (omega arith),
      ← append_assoc pre hex_prefix room,
      next,
      bprintu32_lem (pre ++ hex_prefix) room ptr 16 h (omega arith) (omega arith) hl,
      append_assoc pre hex_prefix,
    )

-- With room for the text of the pointer (0x and the numeral in base 16), `bprintptr` returns its
-- length, writes it behind `pre` and changes no other byte.
pub bprintptr_lem :
    (pre room : List ℕ) (ptr : ℕ)
    → ptr < 2 ^ 32
    → length (pointer_text ptr) ≤ length room
    → bprintptr (pre ++ room) (length pre) ptr
      ≡ ok (length (pointer_text ptr), pre ++ over (pointer_text ptr) room)
unfolding pointer_text
bprintptr_lem pre [] ptr h hl = absurd (ground arith)
bprintptr_lem pre (r ∷ []) ptr h hl = absurd (ground arith)
bprintptr_lem pre (r ∷ s ∷ room) ptr h hl = elim (Bool-cases (ptr == 0)) [
  | inl e ↦ rw e (bprintptr-null pre (r ∷ s ∷ room) ptr e (ground arith))
  | inr e ↦ rw e (
      bprintptr-address pre room r s ptr h e (ground arith)
      ∙ ap (λ n. ok (n, pre ++ b'0' ∷ b'x' ∷ over (numeral 16 ptr) room)) (omega arith))
]
