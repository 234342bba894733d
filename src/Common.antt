-- ===== src/Common.antt =====
-- common.h: the byte routines that the kernel has in place of a C library. Memory is a function
-- from addresses to what is stored there; the unit is a byte, and for `memcpy` may be any unit in
-- which a caller's regions are measured.
pub mod Copy
pub mod Regions
mod Examples
use low_flex_programming.Base.{
  ℕ, zero, suc, ◌+◌, ◌-◌, ◌%◌, ◌^◌, List, [], ◌∷◌, Bool, ◌==◌, ltb, if◌then◌else◌, Run, ok, fault,
  ◌>>=◌, u8, minus32,
}

abbrev pub Memory : Type 0
Memory = ℕ → ℕ

unfoldable pub write : Memory → ℕ → ℕ → Memory
write m a v x = if x == a then v else m x

-- The loop runs `count` times unless two bytes differ.
unfoldable pub memcmp : Memory → ℕ → ℕ → ℕ → ℕ
memcmp m s1 s2 zero = 0
memcmp m s1 s2 (suc count) =
    let rest = memcmp m (s1 + 1) (s2 + 1) count in
    if m s1 == m s2 then rest else if ltb (m s1) (m s2) then minus32 1 else 1

unfoldable pub memset : Memory → ℕ → ℕ → ℕ → Memory
memset m p ch zero = m
memset m p ch (suc sz) = memset (write m p (u8 ch)) (p + 1) ch sz

-- In ascending order, which matters where the regions overlap.
unfoldable pub memcpy : Memory → ℕ → ℕ → ℕ → Memory
memcpy m dst src zero = m
memcpy m dst src (suc sz) = memcpy (write m dst (m src)) (dst + 1) (src + 1) sz

-- `str` is the array from the pointer on to its end; a string without its NUL is read past that.
unfoldable pub strlen : List ℕ → Run ℕ
strlen [] = fault
strlen (c ∷ str) = let rest = strlen str in if c == 0 then ok 0 else rest >>= λ len. ok (len + 1)
