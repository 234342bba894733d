-- ===== src/Descriptors/Segments.antt =====
-- What the processor reads from the segment descriptors.
use low_flex_programming.Base.{
  ℕ, ◌+◌, ◌*◌, ◌/◌, ◌%◌, ◌^◌, ◌<◌, ◌≡◌, ◌≢◌, refl, ap, ◌∙◌, List, [], ◌∷◌, length, get_elem?, some,
  ok, arith, bit_and, bit_or, ◌>>>◌, get_elem?-set_self, get_elem?-set_ne, true, ◌==◌, ==→eq,
}
use low_flex_programming.Base.Bits.{bit_and-mask}
use low_flex_programming.Base.Tables.{table_holds, table_sound}
use low_flex_programming.Descriptors.{
  GdtEntry, gdt_entry, gdt_register, ltr, reload_tss, init_gdt, access_present,
}

abbrev pub base_of : GdtEntry → ℕ
base_of e = e.base_low + e.base_middle * 2 ^ 16 + e.base_high * 2 ^ 24

-- The limit, in units of 4096 bytes where `granularity` is 1.
abbrev pub limit_of : GdtEntry → ℕ
limit_of e = e.limit_low + e.limit_high % 16 * 2 ^ 16

abbrev pub granularity : GdtEntry → ℕ
granularity e = e.limit_high / 128

abbrev pub is_32bit : GdtEntry → ℕ
is_32bit e = e.limit_high / 64 % 2

nibble_table : table_holds 16 (λ x. bit_or x 0b11000000 == x + 192) ≡ true
unfolding table_holds
nibble_table = refl

nibble : (x : ℕ) → x < 16 → bit_or x 0b11000000 ≡ x + 192
nibble x h = ==→eq (bit_or x 0b11000000) (x + 192) (table_sound 16 _ x nibble_table h)

-- `gdt_register` writes the descriptor of the segment with that base and access byte, present, with
-- the low 20 bits of the limit in pages, for 32-bit code; it changes no other entry.
pub gdt_register-describes :
    (gdt : List GdtEntry) (idx base limit access : ℕ)
    → idx < length gdt
    → base < 2 ^ 32
    → (e : GdtEntry) × (get_elem? (gdt_register gdt idx base limit access) idx ≡ some e)
      × (base_of e ≡ base)
      × (limit_of e ≡ limit % 2 ^ 20)
      × (granularity e ≡ 1)
      × (is_32bit e ≡ 1)
      × (e.access ≡ bit_or access access_present)
      × ((j : ℕ) → idx ≢ j → get_elem? (gdt_register gdt idx base limit access) j ≡ get_elem? gdt j)
unfolding gdt_register gdt_entry
gdt_register-describes gdt idx base limit access inside small =
    let high = bit_and-mask 4 (limit / 2 ^ 16) in
    let top : bit_or (bit_and (limit >>> 16) 0x0f) 0b11000000 ≡ limit / 2 ^ 16 % 16 + 192 =
      ap (λ x. bit_or x 0b11000000) high ∙ nibble (limit / 2 ^ 16 % 16) (omega arith) in
    (
      gdt_entry base limit access,
      get_elem?-set_self gdt idx (gdt_entry base limit access) inside,
      omega (
        arith,
        bit_and-mask 16 base,
        bit_and-mask 8 (base / 2 ^ 16),
        bit_and-mask 8 (base / 2 ^ 24),
      ),
      omega (arith, bit_and-mask 16 limit, top),
      omega (arith, top),
      omega (arith, top),
      refl,
      λ j ne. get_elem?-set_ne gdt idx j (gdt_entry base limit access) ne,
    )

-- A descriptor of the segment with that base and limit and that access byte.
abbrev pub Describes : GdtEntry → ℕ → ℕ → ℕ → Type 0
Describes e base limit access =
    (base_of e ≡ base) × (limit_of e ≡ limit) × (granularity e ≡ 1) × (e.access ≡ access)

-- `init_gdt` returns with the segments of the kernel and of user code, each of them the whole
-- address space, and with the task state segment at `tss`, which the task register has been loaded with and
-- which is busy since. Its limit of 99 counts pages.
pub init_gdt-Describes :
    (tss : ℕ) (e₀ e₁ e₂ e₃ e₄ e₅ : GdtEntry)
    → tss < 2 ^ 32
    → (null kernel_code kernel_data user_code user_data task_state : GdtEntry) × (init_gdt tss
          (e₀ ∷ e₁ ∷ e₂ ∷ e₃ ∷ e₄ ∷ e₅ ∷ [])
        ≡ ok (null ∷ kernel_code ∷ kernel_data ∷ user_code ∷ user_data ∷ task_state ∷ []))
      × Describes kernel_code 0 0xfffff 0x9a
      × Describes kernel_data 0 0xfffff 0x92
      × Describes user_code 0 0xfffff 0xfa
      × Describes user_data 0 0xfffff 0xf2
      × Describes task_state tss 99 0x8b
unfolding init_gdt gdt_register gdt_entry reload_tss ltr
init_gdt-Describes tss e₀ e₁ e₂ e₃ e₄ e₅ small =
    let base : base_of (gdt_entry tss 99 9) ≡ tss =
      omega (
        arith,
        bit_and-mask 16 tss,
        bit_and-mask 8 (tss / 2 ^ 16),
        bit_and-mask 8 (tss / 2 ^ 24),
      ) in
    (
      gdt_entry 0 0 0,
      gdt_entry 0 0xffffffff 0x1a,
      gdt_entry 0 0xffffffff 0x12,
      gdt_entry 0 0xffffffff 0x7a,
      gdt_entry 0 0xffffffff 0x72,
      record (gdt_entry tss 99 9) { access = 0x8b },
      refl,
      (refl, refl, refl, refl),
      (refl, refl, refl, refl),
      (refl, refl, refl, refl),
      (refl, refl, refl, refl),
      (base, refl, refl, refl),
    )
