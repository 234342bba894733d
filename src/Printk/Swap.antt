-- ===== src/Printk/Swap.antt =====
-- The second loop of `bprintu32`: exchanging the ends by `^=` reverses the digits.
use mathlib.Core.List.{reverse-append, reverse-cons}
use low_flex_programming.Base.{
  ℕ, zero, suc, ◌+◌, ◌-◌, ◌/◌, ◌≡◌, refl, ap, sym, List, [], ◌∷◌, ◌++◌, reverse, length,
  length-append, arith, some, get_elem?, ◌∙◌, get_elem?-middle, ok, append_assoc, bit_xor, subst,
}
use low_flex_programming.Base.Bits.{xor_comm, xor_cancel}
use low_flex_programming.Printk.{store, xor_into, swap, swap_loop}
use low_flex_programming.Printk.Digits.{store-middle}

module _ (pre m post : List ℕ) where
  -- Two bytes `x` and `y` with `m` between them.
  abbrev between : ℕ → ℕ → List ℕ
  between x y = pre ++ x ∷ (m ++ y ∷ post)

  abbrev back : ℕ
  back = length pre + (length m + 1)

  between_assoc : (x y : ℕ) → between x y ≡ (pre ++ x ∷ m) ++ y ∷ post
  between_assoc x y = sym (append_assoc pre (x ∷ m) (y ∷ post))

  back_length : (x : ℕ) → back ≡ length (pre ++ x ∷ m)
  back_length x = omega (arith, length-append pre (x ∷ m))

  get_front : (x y : ℕ) → get_elem? (between x y) (length pre) ≡ some x
  get_front x y = get_elem?-middle pre x (m ++ y ∷ post)

  get_back : (x y : ℕ) → get_elem? (between x y) back ≡ some y
  get_back x y = rw (between_assoc x y, back_length x) (get_elem?-middle (pre ++ x ∷ m) y post)

  store-front : (x y c : ℕ) → store (between x y) (length pre) c ≡ ok (between c y)
  store-front x y c = store-middle pre x c (m ++ y ∷ post) (length pre) refl

  store-back : (x y c : ℕ) → store (between x y) back c ≡ ok (between x c)
  store-back x y c =
      rw (between_assoc x y, between_assoc x c)
        (store-middle (pre ++ x ∷ m) y c post back (back_length x))

  xor_front : (x y : ℕ) → xor_into (between x y) (length pre) back ≡ ok (between (bit_xor x y) y)
  unfolding xor_into
  xor_front x y = rw (get_front x y, get_back x y, store-front x y (bit_xor x y))

  xor_back : (x y : ℕ) → xor_into (between x y) back (length pre) ≡ ok (between x (bit_xor y x))
  unfolding xor_into
  xor_back x y = rw (get_back x y, get_front x y, store-back x y (bit_xor y x))

  -- The three assignments exchange the bytes.
  swap_lem : (x y : ℕ) → swap (between x y) (length pre) back ≡ ok (between y x)
  unfolding swap
  swap_lem x y =
      let second : bit_xor y (bit_xor x y) ≡ x = xor_comm y (bit_xor x y) ∙ xor_cancel x y in
      let third : bit_xor (bit_xor x y) x ≡ y =
        ap (λ z. bit_xor z x) (xor_comm x y) ∙ xor_cancel y x in
      rw (xor_front x y, xor_back (bit_xor x y) y, second, xor_front (bit_xor x y) x, third)

-- The last element of a list that has one.
split_last : (x : ℕ) (xs : List ℕ) → (m : List ℕ) × (y : ℕ) × (x ∷ xs ≡ m ++ y ∷ [])
split_last x [] = ([], x, refl)
split_last x (z ∷ xs) = let (m, y, e) = split_last z xs in (x ∷ m, y, ap (λ l. x ∷ l) e)

swap_loop-round :
    (k i bytes off : ℕ) (pre m post : List ℕ) (x y : ℕ)
    → off + i ≡ length pre
    → bytes ≡ i + (length m + 2) + i
    → swap_loop (suc k) (pre ++ x ∷ ((m ++ y ∷ []) ++ post)) off i bytes
      ≡ swap_loop k ((pre ++ y ∷ []) ++ (m ++ x ∷ post)) off (i + 1) bytes
unfolding swap_loop
swap_loop-round k i bytes off pre m post x y e eb =
    let last : off + (bytes - i - 1) ≡ length pre + (length m + 1) = omega arith in
    rw (append_assoc m, e, last, swap_lem pre m post x y, append_assoc pre)

reverse_ends :
    (pre m post : List ℕ) (x y : ℕ)
    → (pre ++ y ∷ []) ++ (reverse m ++ x ∷ post) ≡ pre ++ (reverse (x ∷ (m ++ y ∷ [])) ++ post)
reverse_ends pre m post x y = simp (reverse-cons, reverse-append, append_assoc)

-- With the first `i` and the last `i` of the bytes in place, the loop reverses those between them.
swap_loop-between :
    (k i bytes off : ℕ) (pre mid post : List ℕ)
    → off + i ≡ length pre
    → bytes ≡ i + length mid + i
    → k ≡ length mid / 2
    → swap_loop k (pre ++ (mid ++ post)) off i bytes ≡ ok (pre ++ (reverse mid ++ post))
unfolding swap_loop
swap_loop-between zero i bytes off pre [] post e eb ek = refl
swap_loop-between zero i bytes off pre (x ∷ []) post e eb ek = refl
swap_loop-between zero i bytes off pre (x ∷ z ∷ mid) post e eb ek = absurd (omega arith)
swap_loop-between (suc k) i bytes off pre [] post e eb ek = absurd (omega arith)
swap_loop-between (suc k) i bytes off pre (x ∷ []) post e eb ek = absurd (omega arith)
swap_loop-between (suc k) i bytes off pre (x ∷ z ∷ mid) post e eb ek =
    let (m, y, split) = split_last z mid in
    let long = ap length split ∙ length-append m (y ∷ []) in
    subst
      (λ (l : List ℕ).
        swap_loop (suc k) (pre ++ x ∷ (l ++ post)) off i bytes
        ≡ ok (pre ++ (reverse (x ∷ l) ++ post)))
      (sym split)
      (swap_loop-round k i bytes off pre m post x y e (omega (arith, long))
        ∙ swap_loop-between k (i + 1) bytes off (pre ++ y ∷ []) m (x ∷ post)
            (omega (arith, length-append pre (y ∷ []))) (omega (arith, long)) (omega (arith, long))
        ∙ ap (λ l. ok l) (reverse_ends pre m post x y))

-- The loop of `bprintu32` reverses the bytes behind `pre`.
pub swap_loop_lem :
    (pre mid post : List ℕ)
    → swap_loop (length mid / 2) (pre ++ (mid ++ post)) (length pre) 0 (length mid)
      ≡ ok (pre ++ (reverse mid ++ post))
swap_loop_lem pre mid post =
    swap_loop-between (length mid / 2) 0 (length mid) (length pre) pre mid post (omega arith)
      (omega arith) refl
