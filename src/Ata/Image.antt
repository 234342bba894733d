-- ===== src/Ata/Image.antt =====
-- The contents of a disk, as words of its sectors, and in memory behind a transfer.
use low_flex_programming.Base.{
  ℕ, zero, suc, ◌+◌, ◌-◌, ◌*◌, ◌/◌, ◌%◌, ◌^◌, ◌<◌, ◌≡◌, refl, subst, List, [], ◌∷◌, ◌&&◌, ltb, leb,
  ◌==◌, ==→eq, ==→ne, Bool-cases, inl, inr, true, if◌then◌else◌, arith,
}
use low_flex_programming.Common.{Memory, write}
use low_flex_programming.Ata.{read_words}
use low_flex_programming.Ata.Transfer.{stored}

-- What stands on the disk, byte by byte.
abbrev pub Image : Type 0
Image = ℕ → ℕ

abbrev pub IsBytes : Image → Type 0
IsBytes image = (o : ℕ) → image o < 256

-- The words from the byte `o` on, as the data port gives them.
abbrev pub words_at : Image → ℕ → ℕ → ℕ
words_at image o i = image (o + 2 * i) + image (o + 2 * i + 1) * 2 ^ 8

abbrev pub sectors_at : Image → ℕ → ℕ → List (ℕ → ℕ)
sectors_at image lba zero = []
sectors_at image lba (suc n) = words_at image (512 * lba) ∷ sectors_at image (lba + 1) n

-- The memory with `n` bytes of the disk, from the byte `o` on, at `buf`.
abbrev pub HoldsDisk : Image → ℕ → ℕ → ℕ → Memory → Memory → Type 0
HoldsDisk image o n buf m m' =
    (a : ℕ) → m' a ≡ (if leb buf a && ltb a (buf + n) then image (o + a - buf) else m a)

-- Two bytes, stored.
two_bytes :
    (image : Image) (o buf a : ℕ) (m : Memory)
    → (if a == buf + 1 then image (o + 1) else if a == buf then image o else m a)
      ≡ (if leb buf a && ltb a (buf + 2) then image (o + a - buf) else m a)
two_bytes image o buf a m = elim (Bool-cases (a == buf + 1)) [
  | inl e ↦
      let at : o + a - buf ≡ o + 1 = omega (arith, ==→eq a (buf + 1) e) in
      let inside : leb buf a && ltb a (buf + 2) ≡ true = ground (arith, ==→eq a (buf + 1) e) in
      rw (e, inside, at) refl
  | inr e ↦ elim (Bool-cases (a == buf)) [
    | inl f ↦
        let at : o + a - buf ≡ o = omega (arith, ==→eq a buf f) in
        let inside : leb buf a && ltb a (buf + 2) ≡ true = ground (arith, ==→eq a buf f) in
        rw (e, f, inside, at) refl
    | inr f ↦ ground (arith, ==→ne a buf f, ==→ne a (buf + 1) e)
  ]
]

-- A word's two bytes, stored.
store_lem :
    (image : Image) (o buf : ℕ) (m : Memory)
    → IsBytes image
    → let w = image o + image (o + 1) * 2 ^ 8 in
      HoldsDisk image o 2 buf m (write (write m buf (w % 2 ^ 8)) (buf + 1) (w / 2 ^ 8 % 2 ^ 8))
unfolding write
store_lem image o buf m bytes a =
    let w = image o + image (o + 1) * 2 ^ 8 in
    let low : w % 2 ^ 8 ≡ image o = omega (arith, bytes o, bytes (o + 1)) in
    let high : w / 2 ^ 8 % 2 ^ 8 ≡ image (o + 1) = omega (arith, bytes o, bytes (o + 1)) in
    rw (low, high) (two_bytes image o buf a m)

-- Two pieces of the disk, one behind the other.
HoldsDisk-append :
    (image : Image) (o n k buf : ℕ) (m m' m'' : Memory)
    → HoldsDisk image o n buf m m'
    → HoldsDisk image (o + n) k (buf + n) m' m''
    → HoldsDisk image o (n + k) buf m m''
HoldsDisk-append image o n k buf m m' m'' first second a = ground (arith, first a, second a)

read_words_lem :
    (image : Image) (o n i buf : ℕ) (m : Memory)
    → IsBytes image
    → HoldsDisk image (o + 2 * i) (2 * n) (buf + 2 * i) m (read_words n i (words_at image o) buf m)
unfolding read_words
read_words_lem image o zero i buf m bytes a = ground arith
read_words_lem image o (suc n) i buf m bytes a =
    let twice : 2 * suc n ≡ 2 + 2 * n = omega arith in
    let from : o + 2 * (i + 1) ≡ o + 2 * i + 2 = omega arith in
    let to : buf + 2 * (i + 1) ≡ buf + 2 * i + 2 = omega arith in
    let w = words_at image o i in
    let m' = write (write m (buf + 2 * i) (w % 2 ^ 8)) (buf + 2 * i + 1) (w / 2 ^ 8 % 2 ^ 8) in
    let m'' = read_words n (i + 1) (words_at image o) buf m' in
    let later : HoldsDisk image (o + 2 * i + 2) (2 * n) (buf + 2 * i + 2) m' m'' =
      subst (λ x. HoldsDisk image x (2 * n) (buf + 2 * i + 2) m' m'') from
        (subst (λ x. HoldsDisk image (o + 2 * (i + 1)) (2 * n) x m' m'') to
          (read_words_lem image o n (i + 1) buf m' bytes)) in
    rw twice (
      HoldsDisk-append image (o + 2 * i) 2 (2 * n) (buf + 2 * i) m m' m''
        (store_lem image (o + 2 * i) (buf + 2 * i) m bytes) later a)

-- A whole sector.
sector_lem :
    (image : Image) (o buf : ℕ) (m : Memory)
    → IsBytes image
    → HoldsDisk image o 512 buf m (read_words 256 0 (words_at image o) buf m)
sector_lem image o buf m bytes a =
    let from : o + 2 * 0 ≡ o = omega arith in
    let to : buf + 2 * 0 ≡ buf = omega arith in
    let m' = read_words 256 0 (words_at image o) buf m in
    subst (λ x. HoldsDisk image x 512 buf m m') from
      (subst (λ x. HoldsDisk image (o + 2 * 0) 512 x m m') to
        (read_words_lem image o 256 0 buf m bytes))
      a

pub stored-HoldsDisk :
    (image : Image) (lba n buf : ℕ) (m : Memory)
    → IsBytes image
    → HoldsDisk image (512 * lba) (512 * n) buf m (stored (sectors_at image lba n) buf m)
stored-HoldsDisk image lba zero buf m bytes a = ground arith
stored-HoldsDisk image lba (suc n) buf m bytes a =
    let more : 512 * suc n ≡ 512 + 512 * n = omega arith in
    let next : 512 * (lba + 1) ≡ 512 * lba + 512 = omega arith in
    let m' = read_words 256 0 (words_at image (512 * lba)) buf m in
    let later : HoldsDisk image (512 * lba + 512) (512 * n) (buf + 512) m'
        (stored (sectors_at image (lba + 1) n) (buf + 512) m') =
      subst
        (λ o.
          HoldsDisk image o (512 * n) (buf + 512) m'
            (stored (sectors_at image (lba + 1) n) (buf + 512) m'))
        next (stored-HoldsDisk image (lba + 1) n (buf + 512) m' bytes) in
    rw more (
      HoldsDisk-append image (512 * lba) 512 (512 * n) buf m m' _
        (sector_lem image (512 * lba) buf m bytes) later a)
