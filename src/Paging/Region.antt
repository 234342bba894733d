-- ===== src/Paging/Region.antt =====
-- `map_continous` over pages that share an entry of the directory, as the mappings of the kernel do.
use low_flex_programming.Base.{
  ℕ, zero, suc, ◌+◌, ◌*◌, ◌/◌, ◌%◌, ◌^◌, ◌≤◌, ◌<◌, ◌≡◌, ◌≢◌, refl, ap, sym, ◌∙◌, subst, false, ◌==◌,
  ok, add32, bit_and, bit_or, arith, ne→==,
}
use low_flex_programming.Base.Bits.{bit_and-mask}
use low_flex_programming.Common.{Memory, write}
use low_flex_programming.Paging.{
  Pages, clear_words, enter_table, alloc_page, set_entry, map_loop, pgdir_idx, pt_idx, virt2phys,
  pt_present, pt_user, page_size,
}
use low_flex_programming.Paging.Translate.{
  pde_slot, table_of, entered, pde_flags, pde_flags_lem, pde_value, pte_value, table_of_pde,
  odd_has, write_self, write_other,
}

pub pt_idx_lem : (a : ℕ) → pt_idx a ≡ a / 4096 % 1024
unfolding pt_idx
pt_idx_lem a = bit_and-mask 10 (a / 4096)

pub pgdir_idx_lem : (a : ℕ) → pgdir_idx a ≡ a / 2 ^ 22 % 1024
unfolding pgdir_idx
pgdir_idx_lem a = bit_and-mask 10 (a / 2 ^ 22)

-- The page `table` can hold the page table for the directory's entry of `addr`: it does not overlap
-- that entry.
abbrev pub IsTableFor : ℕ → ℕ → ℕ → Type 0
IsTableFor pgdir addr table =
    (table ≢ 0)
    × (table % 4096 ≡ 0)
    × (table < 2 ^ 32)
    × ((i : ℕ) → i < 1024 → pde_slot pgdir addr ≢ table + 4 * i)

-- The entry is present and not a page of 4 MB, and `table` is its page table.
abbrev pub Present : Memory → ℕ → ℕ → ℕ → Type 0
Present m pgdir addr table =
    (m (pde_slot pgdir addr) % 2 ≡ 1)
    × (table_of (m (pde_slot pgdir addr)) ≡ table)
    × (m (pde_slot pgdir addr) / 2 ^ 7 % 2 ≡ 0)

-- The state in which a page table is there to be entered.
abbrev pub cleared : Pages → Pages
cleared k = record k {
  memory = clear_words 1024 k.freelist_head k.memory;
  freelist_head = k.memory k.freelist_head;
}

abbrev pub with_entry : Pages → ℕ → ℕ → ℕ → ℕ → ℕ → ℕ → Pages
with_entry k pgdir addr user table phys flags = record k {
  memory = entered k.memory pgdir addr user table phys flags;
}

module _ (pgdir table flags : ℕ) where
  abbrev user : ℕ
  user = bit_and flags pt_user

  pub round-Present :
      (n : ℕ) (k : Pages) (addr phys : ℕ)
      → IsTableFor pgdir addr table
      → Present k.memory pgdir addr table
      → map_loop (suc n) k pgdir addr phys flags
        ≡ map_loop n
            (with_entry k pgdir addr user table phys flags)
            pgdir
            (add32 addr page_size)
            (add32 phys page_size)
            flags
  unfolding map_loop alloc_page enter_table set_entry
  round-Present n k addr phys tf p =
      let there = odd_has (k.memory (pde_slot pgdir addr)) p.0 in
      let slot : (table + 4 * pt_idx addr == 0) ≡ false =
        ne→== (table + 4 * pt_idx addr) 0 (λ e. tf.0 (omega (arith, e))) in
      rw (there, p.1, slot) refl

  entered-Present :
      (m : Memory) (addr phys : ℕ)
      → IsTableFor pgdir addr table
      → pt_idx addr < 1024
      → Present (entered m pgdir addr user table phys flags) pgdir addr table
  entered-Present m addr phys tf in_table =
      let pde = bit_or (virt2phys table) (pde_flags user) in
      let m₁ = write m (pde_slot pgdir addr) pde in
      let pte = bit_or (bit_or phys pt_present) flags in
      let held : entered m pgdir addr user table phys flags (pde_slot pgdir addr) ≡ pde =
        write_other m₁ (table + 4 * pt_idx addr) pte (pde_slot pgdir addr)
          (tf.3 (pt_idx addr) in_table)
        ∙ write_self m (pde_slot pgdir addr) pde in
      let value = pde_value table user tf.1 tf.2 in
      let odd : pde % 2 ≡ 1 = omega (arith, value, (pde_flags_lem user).1) in
      let whole : pde / 2 ^ 7 % 2 ≡ 0 = omega (arith, value, (pde_flags_lem user).0) in
      (
        ap (λ x. x % 2) held ∙ odd,
        ap table_of held ∙ ap table_of value ∙ table_of_pde table user tf.1 tf.2,
        ap (λ x. x / 2 ^ 7 % 2) held ∙ whole,
      )

  -- The entries of `n` pages from the index `first` on.
  abbrev pub Mapped : Memory → ℕ → ℕ → ℕ → Type 0
  Mapped m first n phys =
      (i : ℕ) → i < n → m (table + 4 * (first + i)) ≡ phys + i * 4096 + (flags + 1)

  -- Nothing else has changed.
  abbrev pub Framed : Memory → Memory → ℕ → ℕ → ℕ → Type 0
  Framed m m' slot first n =
      (b : ℕ) → b ≢ slot → ((i : ℕ) → i < n → b ≢ table + 4 * (first + i)) → m' b ≡ m b

  entered-frame :
      (m : Memory) (addr phys b : ℕ)
      → b ≢ pde_slot pgdir addr
      → b ≢ table + 4 * pt_idx addr
      → entered m pgdir addr user table phys flags b ≡ m b
  entered-frame m addr phys b n₁ n₂ =
      write_other (write m (pde_slot pgdir addr) (bit_or (virt2phys table) (pde_flags user)))
        (table + 4 * pt_idx addr) (bit_or (bit_or phys pt_present) flags) b n₂
      ∙ write_other m (pde_slot pgdir addr) (bit_or (virt2phys table) (pde_flags user)) b n₁

  next_page :
      (addr : ℕ)
      → pt_idx addr + 1 < 1024
      → (pgdir_idx (addr + 4096) ≡ pgdir_idx addr) × (pt_idx (addr + 4096) ≡ pt_idx addr + 1)
  next_page addr h = (
    omega (arith, pgdir_idx_lem addr, pgdir_idx_lem (addr + 4096), pt_idx_lem addr),
    omega (arith, pt_idx_lem addr, pt_idx_lem (addr + 4096)),
  )

  -- One more page in front of those of a run.
  extend-Mapped :
      (m m' : Memory) (slot first n phys : ℕ)
      → m (table + 4 * (first + 0)) ≡ phys + 0 * 4096 + (flags + 1)
      → Mapped m' (first + 1) n (phys + 4096)
      → Framed m m' slot (first + 1) n
      → ((i : ℕ) → i < 1024 → slot ≢ table + 4 * i)
      → first + suc n ≤ 1024
      → Mapped m' first (suc n) phys
  extend-Mapped m m' slot first n phys base mapped framed apart fits zero lt =
      framed (table + 4 * (first + 0)) (λ e. apart (first + 0) (omega arith) (sym e))
        (λ i li e. absurd (omega (arith, e)))
      ∙ base
  extend-Mapped m m' slot first n phys base mapped framed apart fits (suc i) lt =
      let e : first + suc i ≡ first + 1 + i = omega arith in
      ap (λ x. m' (table + 4 * x)) e ∙ mapped i (omega arith) ∙ omega arith

  extend-Framed :
      (m m' : Memory) (addr phys n : ℕ)
      → Framed
          (entered m pgdir addr user table phys flags)
          m'
          (pde_slot pgdir addr)
          (pt_idx addr + 1)
          n
      → Framed m m' (pde_slot pgdir addr) (pt_idx addr) (suc n)
  extend-Framed m m' addr phys n framed b n₁ n₂ =
      let e₀ : pt_idx addr ≡ pt_idx addr + 0 = omega arith in
      framed b n₁ (λ i li e.
        let ei : pt_idx addr + 1 + i ≡ pt_idx addr + suc i = omega arith in
        n₂ (suc i) (omega arith) (e ∙ ap (λ x. table + 4 * x) ei))
      ∙ entered-frame m addr phys b n₁ (λ e. n₂ 0 (omega arith) (e ∙ ap (λ x. table + 4 * x) e₀))

  module _ (small : flags < 4096) (even : flags % 2 ≡ 0) where
    entered-entry :
        (m : Memory) (addr phys : ℕ)
        → phys % 4096 ≡ 0
        → entered m pgdir addr user table phys flags (table + 4 * (pt_idx addr + 0))
          ≡ phys + 0 * 4096 + (flags + 1)
    entered-entry m addr phys aligned =
        let e₀ : pt_idx addr + 0 ≡ pt_idx addr = omega arith in
        let value = pte_value phys flags aligned small even in
        let m₁ = write m (pde_slot pgdir addr) (bit_or (virt2phys table) (pde_flags user)) in
        ap (λ x. entered m pgdir addr user table phys flags (table + 4 * x)) e₀
        ∙ write_self m₁ (table + 4 * pt_idx addr) (bit_or (bit_or phys pt_present) flags)
        ∙ value
        ∙ omega arith

    -- The pages of one entry of the directory, once that entry is present.
    pub region_loop :
        (n : ℕ) (k : Pages) (addr phys : ℕ)
        → IsTableFor pgdir addr table
        → Present k.memory pgdir addr table
        → pt_idx addr + n ≤ 1024
        → addr + n * 4096 < 2 ^ 32
        → phys % 4096 ≡ 0
        → phys + n * 4096 < 2 ^ 32
        → (k' : Pages) × (map_loop n k pgdir addr phys flags ≡ ok k')
          × Present k'.memory pgdir addr table
          × Mapped k'.memory (pt_idx addr) n phys
          × Framed k.memory k'.memory (pde_slot pgdir addr) (pt_idx addr) n
    unfolding map_loop
    region_loop zero k addr phys tf p fits va aligned pa =
        (k, refl, p, λ i lt. absurd (omega arith), λ b n₁ n₂. refl)
    region_loop (suc zero) k addr phys tf p fits va aligned pa =
        let k₁ = with_entry k pgdir addr user table phys flags in
        let e₀ : pt_idx addr ≡ pt_idx addr + 0 = omega arith in
        (
          k₁,
          round-Present 0 k addr phys tf p,
          entered-Present k.memory addr phys tf (omega arith),
          λ i lt.
              let ei : 0 ≡ i = omega arith in
              subst (λ j. k₁.memory (table + 4 * (pt_idx addr + j)) ≡ phys + j * 4096 + (flags + 1))
                ei (entered-entry k.memory addr phys aligned),
          λ b n₁ n₂.
              entered-frame k.memory addr phys b n₁
                (λ e. n₂ 0 (omega arith) (e ∙ ap (λ x. table + 4 * x) e₀)),
        )
    region_loop (suc (suc n)) k addr phys tf p fits va aligned pa =
        let k₁ = with_entry k pgdir addr user table phys flags in
        let p₁ = entered-Present k.memory addr phys tf (omega arith) in
        let (dir, idx) = next_page addr (omega arith) in
        let slot : pde_slot pgdir (addr + 4096) ≡ pde_slot pgdir addr =
          ap (λ x. pgdir + 4 * x) dir in
        let (k', run, present, mapped, framed) =
          region_loop (suc n) k₁ (addr + 4096) (phys + 4096)
            (tf.0, tf.1, tf.2, λ i lt e. tf.3 i lt (sym slot ∙ e))
            (
              ap (λ x. k₁.memory x % 2) slot ∙ p₁.0,
              ap (λ x. table_of (k₁.memory x)) slot ∙ p₁.1,
              ap (λ x. k₁.memory x / 2 ^ 7 % 2) slot ∙ p₁.2,
            )
            (omega (arith, idx)) (omega arith) (omega arith) (omega arith) in
        let va_next : add32 addr page_size ≡ addr + 4096 = omega arith in
        let pa_next : add32 phys page_size ≡ phys + 4096 = omega arith in
        let framed' : Framed k₁.memory k'.memory (pde_slot pgdir addr) (pt_idx addr + 1) (suc n) =
          subst (λ s. Framed k₁.memory k'.memory s (pt_idx addr + 1) (suc n)) slot
            (subst (λ x. Framed k₁.memory k'.memory (pde_slot pgdir (addr + 4096)) x (suc n)) idx
              framed) in
        (
          k',
          round-Present (suc n) k addr phys tf p
              ∙ ap (λ x. map_loop (suc n) k₁ pgdir x (add32 phys page_size) flags) va_next
              ∙ ap (λ y. map_loop (suc n) k₁ pgdir (addr + 4096) y flags) pa_next
              ∙ run,
          (
            ap (λ x. k'.memory x % 2) (sym slot) ∙ present.0,
            ap (λ x. table_of (k'.memory x)) (sym slot) ∙ present.1,
            ap (λ x. k'.memory x / 2 ^ 7 % 2) (sym slot) ∙ present.2,
          ),
          extend-Mapped k₁.memory k'.memory (pde_slot pgdir addr) (pt_idx addr) (suc n) phys
              (entered-entry k.memory addr phys aligned)
              (subst (λ x. Mapped k'.memory x (suc n) (phys + 4096)) idx mapped) framed' tf.3 fits,
          extend-Framed k.memory k'.memory addr phys (suc n) framed',
        )
