-- ===== src/Common/Regions.antt =====
-- Regions of a memory: what a region holds is not changed by a write to a place apart from it.
use low_flex_programming.Base.{
  ℕ, zero, suc, ◌+◌, ◌-◌, ◌≤◌, ◌<◌, ◌≡◌, ap, true, ◌∙◌, ◌⊎◌, inl, inr, ◌&&◌, ltb, leb,
  if◌then◌else◌, arith,
}
use low_flex_programming.Common.{Memory, write, memcpy}
use low_flex_programming.Common.Copy.{memcpy_lem}

-- The two memories hold the same in the `n` places from `a` on.
abbrev pub Same : Memory → Memory → ℕ → ℕ → Type 0
Same m m' a n = (x : ℕ) → a ≤ x → x < a + n → m' x ≡ m x

-- The regions of `n` places from `a` and of `k` places from `b` have no place in common.
abbrev pub Apart : ℕ → ℕ → ℕ → ℕ → Type 0
Apart a n b k = (a + n ≤ b) ⊎ (b + k ≤ a)

pub Same-trans : (m m' m'' : Memory) (a n : ℕ) → Same m m' a n → Same m' m'' a n → Same m m'' a n
Same-trans m m' m'' a n first second x h k = second x h k ∙ first x h k

-- A part of a region.
pub Same-part :
    (m m' : Memory) (a n b k : ℕ) → Same m m' a n → a ≤ b → b + k ≤ a + n → Same m m' b k
Same-part m m' a n b k same h j x g l = same x (omega arith) (omega arith)

pub Apart-part : (a n b k c j : ℕ) → Apart a n b k → b ≤ c → c + j ≤ b + k → Apart a n c j
Apart-part a n b k c j (inl before) h l = inl (omega arith)
Apart-part a n b k c j (inr behind) h l = inr (omega arith)

copy_up :
    (m : Memory) (dst src n a : ℕ)
    → src + n ≤ dst
    → memcpy m dst src n a ≡ (if leb dst a && ltb a (dst + n) then m (a + src - dst) else m a)
unfolding memcpy write
copy_up m dst src zero a h = ground arith
copy_up m dst src (suc n) a h =
    ground (arith, copy_up (write m dst (m src)) (dst + 1) (src + 1) n a (omega arith))

-- `memcpy` between regions that are apart copies the one to the other and changes nothing else.
pub memcpy-Apart :
    (m : Memory) (dst src n a : ℕ)
    → Apart dst n src n
    → memcpy m dst src n a ≡ (if leb dst a && ltb a (dst + n) then m (a + src - dst) else m a)
memcpy-Apart m dst src n a (inl before) = memcpy_lem m dst src n a (omega arith)
memcpy-Apart m dst src n a (inr behind) = copy_up m dst src n a behind

-- The copy, and what is apart from it.
pub memcpy-copied :
    (m : Memory) (dst src n i : ℕ)
    → Apart dst n src n
    → i < n
    → memcpy m dst src n (dst + i) ≡ m (src + i)
memcpy-copied m dst src n i apart lt =
    let inside : (leb dst (dst + i) && ltb (dst + i) (dst + n)) ≡ true = ground arith in
    let at : dst + i + src - dst ≡ src + i = omega arith in
    memcpy-Apart m dst src n (dst + i) apart
    ∙ ap (λ b. if b then m (dst + i + src - dst) else m (dst + i)) inside
    ∙ ap m at

pub memcpy-Same :
    (m : Memory) (dst src n a k : ℕ)
    → Apart dst n src n
    → Apart a k dst n
    → Same m (memcpy m dst src n) a k
memcpy-Same m dst src n a k apart (inl before) x h l =
    ground (arith, memcpy-Apart m dst src n x apart)
memcpy-Same m dst src n a k apart (inr behind) x h l =
    ground (arith, memcpy-Apart m dst src n x apart)
