-- ===== src/Common/Copy.antt =====
-- What the byte routines do, pointwise.
use low_flex_programming.Base.{
  ℕ, zero, suc, ◌+◌, ◌-◌, ◌≤◌, ◌≡◌, refl, List, [], ◌∷◌, ◌++◌, ◌&&◌, ltb, leb, if◌then◌else◌, ok,
  u8, arith, ◌↔◌, ◌≢◌, length,
}
use low_flex_programming.Common.{Memory, write, memcmp, memset, memcpy, strlen}

-- `memcpy` reads what stood at the source before the call, also where the destination overlaps
-- the source from below; all else stays.
pub memcpy_lem :
    (m : Memory) (dst src n a : ℕ)
    → dst ≤ src
    → memcpy m dst src n a ≡ (if leb dst a && ltb a (dst + n) then m (a + src - dst) else m a)
unfolding memcpy write
memcpy_lem m dst src zero a h = ground arith
memcpy_lem m dst src (suc n) a h =
    ground (arith, memcpy_lem (write m dst (m src)) (dst + 1) (src + 1) n a)

-- `memset` stores the low byte of `ch` in `n` places and nothing elsewhere.
pub memset_lem :
    (m : Memory) (p ch n a : ℕ)
    → memset m p ch n a ≡ (if leb p a && ltb a (p + n) then u8 ch else m a)
unfolding memset write
memset_lem m p ch zero a = ground arith
memset_lem m p ch (suc n) a = ground (arith, memset_lem (write m p (u8 ch)) (p + 1) ch n a)

-- Two regions of `n` places hold the same.
abbrev pub SameRegion : Memory → ℕ → ℕ → ℕ → Type 0
SameRegion m p q zero = Unit
SameRegion m p q (suc n) = (m p ≡ m q) × SameRegion m (p + 1) (q + 1) n

-- `memcmp` returns 0 exactly for equal regions.
pub memcmp-eq-zero_iff : (m : Memory) (p q n : ℕ) → (memcmp m p q n ≡ 0) ↔ SameRegion m p q n
unfolding memcmp
memcmp-eq-zero_iff m p q zero = (λ e. tt, λ s. refl)
memcmp-eq-zero_iff m p q (suc n) = ground (arith, memcmp-eq-zero_iff m (p + 1) (q + 1) n)

-- A text without a zero byte.
abbrev pub IsText : List ℕ → Type 0
IsText [] = Unit
IsText (c ∷ s) = (c ≢ 0) × IsText s

-- `strlen` finds the NUL behind the text, whatever follows it.
pub strlen-length : (s after : List ℕ) → IsText s → strlen (s ++ 0 ∷ after) ≡ ok (length s)
unfolding strlen
strlen-length [] after h = refl
strlen-length (c ∷ s) after h = ground (arith, strlen-length s after h.1)
