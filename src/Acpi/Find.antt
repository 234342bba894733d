-- ===== src/Acpi/Find.antt =====
-- The searches return the first match.
use low_flex_programming.Base.{
  ℕ, zero, suc, ◌+◌, ◌-◌, ◌<◌, ◌≤◌, ◌≡◌, leb, refl, ◌∙◌, sym, subst, true, false, ◌==◌, arith,
  eq→==, ne→==,
}
use low_flex_programming.Common.{Memory, memcmp}
use low_flex_programming.Common.Copy.{SameRegion, memcmp-eq-zero_iff}
use low_flex_programming.Acpi.{places, find_loop, find_rsdp_in_region}

-- The signature stands at none of the `n` places from `addr` on.
abbrev pub Nowhere : Memory → ℕ → ℕ → ℕ → Type 0
Nowhere m signature addr zero = Unit
Nowhere m signature addr (suc n) =
    (SameRegion m signature addr 8 → ⊥) × Nowhere m signature (addr + 1) n

differs :
    (m : Memory) (signature addr : ℕ)
    → (SameRegion m signature addr 8 → ⊥)
    → (memcmp m signature addr 8 == 0) ≡ false
differs m signature addr other =
    ne→== (memcmp m signature addr 8) 0 (λ e. other ((memcmp-eq-zero_iff m signature addr 8).0 e))

find_loop-Nowhere :
    (m : Memory) (signature n addr : ℕ)
    → Nowhere m signature addr n
    → find_loop m signature n addr ≡ 0
unfolding find_loop
find_loop-Nowhere m signature zero addr h = refl
find_loop-Nowhere m signature (suc n) addr h =
    rw (differs m signature addr h.0) (find_loop-Nowhere m signature n (addr + 1) h.1)

find_loop-first :
    (m : Memory) (signature n addr j : ℕ)
    → j < n
    → Nowhere m signature addr j
    → SameRegion m signature (addr + j) 8
    → find_loop m signature n addr ≡ addr + j
unfolding find_loop
find_loop-first m signature zero addr j lt h same = absurd (omega arith)
find_loop-first m signature (suc n) addr zero lt h same =
    let a0 : addr + 0 ≡ addr = omega arith in
    let hit : (memcmp m signature addr 8 == 0) ≡ true = eq→== (memcmp m signature addr 8) 0 (
      (memcmp-eq-zero_iff m signature addr 8).1
        (subst (λ a. SameRegion m signature a 8) a0 same)) in
    rw hit (sym a0)
find_loop-first m signature (suc n) addr (suc j) lt h same =
    let aj : addr + suc j ≡ addr + 1 + j = omega arith in
    rw (differs m signature addr h.0) (
      find_loop-first m signature n (addr + 1) j (omega arith) h.1
        (subst (λ a. SameRegion m signature a 8) aj same)
      ∙ sym aj)

places_lem : (len : ℕ) → 8 ≤ len → places len ≡ len - 8
unfolding places
places_lem len h = let long : leb 8 len ≡ true = ground arith in rw long refl

-- In a region of `len` bytes, `find_rsdp_in_region` returns the first place with the signature, if
-- that is among the first `len - 8`.
pub find_rsdp_in_region-first :
    (m : Memory) (signature start len j : ℕ)
    → j < len - 8
    → Nowhere m signature start j
    → SameRegion m signature (start + j) 8
    → find_rsdp_in_region m signature start len ≡ start + j
unfolding find_rsdp_in_region
find_rsdp_in_region-first m signature start len j lt h same =
    rw (places_lem len (omega arith)) (find_loop-first m signature (len - 8) start j lt h same)

-- `find_rsdp_in_region` returns NULL where the signature stands at none of the first `len - 8` places.
pub find_rsdp_in_region-Nowhere :
    (m : Memory) (signature start len : ℕ)
    → 8 ≤ len
    → Nowhere m signature start (len - 8)
    → find_rsdp_in_region m signature start len ≡ 0
unfolding find_rsdp_in_region
find_rsdp_in_region-Nowhere m signature start len long h =
    rw (places_lem len long) (find_loop-Nowhere m signature (len - 8) start h)
