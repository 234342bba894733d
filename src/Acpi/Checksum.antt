-- ===== src/Acpi/Checksum.antt =====
-- The checksums of the tables.
use low_flex_programming.Base.{
  ℕ, zero, suc, ◌+◌, ◌%◌, ◌<◌, ◌≡◌, refl, ap, subst, ◌∙◌, sym, true, ok, panic, arith, u8, ==→eq,
  eq→==, Bool-cases, inl, inr, ◌↔◌,
}
use low_flex_programming.Common.{Memory}
use low_flex_programming.Acpi.{
  sum_loop, acpi_validate_sdt, header_length, validate_loop, acpi_validate_rsdt, root_entry,
  entry_count,
}

-- The sum of `n` bytes.
abbrev pub total : Memory → ℕ → ℕ → ℕ
total m addr zero = 0
total m addr (suc n) = m addr + total m (addr + 1) n

sum_loop-total :
    (m : Memory) (n addr sum : ℕ) → sum < 256 → sum_loop m n addr sum ≡ (sum + total m addr n) % 256
unfolding sum_loop
sum_loop-total m zero addr sum h = omega arith
sum_loop-total m (suc n) addr sum h =
    omega (arith, sum_loop-total m n (addr + 1) (u8 (sum + m addr)) (omega arith))

-- The bytes of a table add up to a multiple of 256.
abbrev pub IsSound : Memory → ℕ → Type 0
IsSound m table = total m table (header_length m table) % 256 ≡ 0

pub acpi_validate_sdt-IsSound :
    (m : Memory) (table : ℕ) → (acpi_validate_sdt m table ≡ true) ↔ IsSound m table
unfolding acpi_validate_sdt
acpi_validate_sdt-IsSound m table =
    let e = sum_loop-total m (header_length m table) table 0 (omega arith) in
    (
      λ h. omega (arith, e, ==→eq (sum_loop m (header_length m table) table 0) 0 h),
      λ h. eq→== (sum_loop m (header_length m table) table 0) 0 (omega (arith, e, h)),
    )

-- The tables from the index `i` on, `n` of them.
abbrev pub AllSound : Memory → ℕ → ℕ → ℕ → Type 0
AllSound m root i zero = Unit
AllSound m root i (suc n) = IsSound m (root_entry m root i) × AllSound m root (i + 1) n

validate_loop-AllSound :
    (m : Memory) (root n i : ℕ) → AllSound m root i n → validate_loop m root n i ≡ ok (i + n)
unfolding validate_loop
validate_loop-AllSound m root zero i h = ap ok (omega arith)
validate_loop-AllSound m root (suc n) i h =
    let sound = (acpi_validate_sdt-IsSound m (root_entry m root i)).1 h.0 in
    rw sound (validate_loop-AllSound m root n (i + 1) h.1 ∙ ap ok (omega arith))

validate_loop-panic :
    (m : Memory) (root n i j : ℕ)
    → j < n
    → (IsSound m (root_entry m root (i + j)) → ⊥)
    → validate_loop m root n i ≡ panic
unfolding validate_loop
validate_loop-panic m root zero i j lt bad = absurd (omega arith)
validate_loop-panic m root (suc n) i zero lt bad =
    let i0 : i + 0 ≡ i = omega arith in
    elim (Bool-cases (acpi_validate_sdt m (root_entry m root i))) [
      | inl good ↦ absurd (
          bad (
            subst (λ x. IsSound m (root_entry m root x)) (sym i0)
              ((acpi_validate_sdt-IsSound m (root_entry m root i)).0 good)))
      | inr wrong ↦ rw wrong refl
    ]
validate_loop-panic m root (suc n) i (suc j) lt bad =
    let ij : i + suc j ≡ i + 1 + j = omega arith in
    let rest =
      validate_loop-panic m root n (i + 1) j (omega arith)
        (λ s. bad (subst (λ x. IsSound m (root_entry m root x)) (sym ij) s)) in
    elim (Bool-cases (acpi_validate_sdt m (root_entry m root i))) [
      | inl good ↦ rw good rest
      | inr wrong ↦ rw wrong refl
    ]

-- `acpi_validate_rsdt` returns where the bytes of every table of the root table add up to a multiple
-- of 256.
pub acpi_validate_rsdt-AllSound :
    (m : Memory) (root : ℕ)
    → AllSound m root 0 (entry_count m root)
    → acpi_validate_rsdt m root ≡ ok (entry_count m root)
unfolding acpi_validate_rsdt
acpi_validate_rsdt-AllSound m root h =
    validate_loop-AllSound m root (entry_count m root) 0 h ∙ ap ok (omega arith)

-- `acpi_validate_rsdt` panics where the root table has a table whose bytes do not add up to a
-- multiple of 256.
pub acpi_validate_rsdt-panic :
    (m : Memory) (root j : ℕ)
    → j < entry_count m root
    → (IsSound m (root_entry m root j) → ⊥)
    → acpi_validate_rsdt m root ≡ panic
unfolding acpi_validate_rsdt
acpi_validate_rsdt-panic m root j lt bad =
    let j0 : 0 + j ≡ j = omega arith in
    validate_loop-panic m root (entry_count m root) 0 j lt
      (λ s. bad (subst (λ x. IsSound m (root_entry m root x)) j0 s))
