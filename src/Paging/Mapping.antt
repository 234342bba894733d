-- ===== src/Paging/Mapping.antt =====
-- What `map_continous` promises: the walk of the processor finds the physical address.
use low_flex_programming.Base.{
  ℕ, suc, ◌+◌, ◌-◌, ◌*◌, ◌/◌, ◌%◌, ◌^◌, ◌≤◌, ◌<◌, ◌≡◌, ◌≢◌, refl, ap, sym, ◌∙◌, subst, fun_ext,
  Bool, true, false, ◌==◌, not, if◌then◌else◌, some, Run, ok, ◌>>=◌, add32, bit_and, bit_or, has,
  arith, ne→==,
}
use low_flex_programming.Base.Bits.{bit_and-mask}
use low_flex_programming.Common.{Memory, write}
use low_flex_programming.Paging.{
  Pages, kalloc, clear_words, enter_table, alloc_page, set_entry, map_loop, map_continous,
  pgdir_idx, pt_idx, virt2phys, pt_present, pt_user, page_size, roundup, rounddown,
}
use low_flex_programming.Paging.FreeList.{roundup_lem}
use low_flex_programming.Paging.Translate.{
  pde_slot, table_of, translate, pde_flags, pde_flags_lem, pde_value, table_of_pde, write_self,
  translate_entries, rounddown_lem,
}
use low_flex_programming.Paging.Region.{
  pt_idx_lem, pgdir_idx_lem, IsTableFor, Present, Mapped, Framed, cleared, with_entry,
  round-Present, region_loop,
}

-- The number of pages of a mapping.
abbrev pub page_count : ℕ → ℕ
page_count size = roundup size / page_size

-- An address within the run of pages.
translate_within :
    (m : Memory) (pgdir table flags addr phys n a : ℕ)
    → Present m pgdir addr table
    → Mapped pgdir table flags m (pt_idx addr) n phys
    → pt_idx addr + n ≤ 1024
    → addr % 4096 ≡ 0
    → phys % 4096 ≡ 0
    → phys + n * 4096 < 2 ^ 32
    → flags < 4096
    → flags % 2 ≡ 0
    → addr ≤ a
    → a < addr + n * 4096
    → translate m pgdir a ≡ some (phys + (a - addr))
translate_within m pgdir table flags addr phys n a p mapped fits va pa room small even from to =
    let i = (a - addr) / 4096 in
    let dir : pgdir_idx a ≡ pgdir_idx addr =
      omega (arith, pgdir_idx_lem a, pgdir_idx_lem addr, pt_idx_lem addr) in
    let idx : pt_idx a ≡ pt_idx addr + i = omega (arith, pt_idx_lem a, pt_idx_lem addr) in
    let sum : phys + i * 4096 + a % 4096 ≡ phys + (a - addr) = omega arith in
    translate_entries m pgdir a table (m (pde_slot pgdir addr)) (phys + i * 4096 + (flags + 1))
      (phys + i * 4096) (flags + 1) (ap (λ x. m (pgdir + 4 * x)) dir) p.0 p.2 p.1
      (ap (λ x. m (table + 4 * x)) idx ∙ mapped i (omega arith)) refl (omega arith) (omega arith)
      (omega arith) (omega arith)
    ∙ ap some sum

-- For an aligned range within one entry of the directory that is present with a page table, where neither range wraps
-- around, the page table does not overlap that entry, and the flags are even and below a page,
-- `map_continous` returns; then the walk of the processor takes every address of the range to its physical address, and no
-- other word of memory has changed but the directory's entry and the range's entries.
pub map_continous-translate :
    (k : Pages) (pgdir table addr size phys flags : ℕ)
    → IsTableFor pgdir addr table
    → Present k.memory pgdir addr table
    → addr % 4096 ≡ 0
    → phys % 4096 ≡ 0
    → size + page_size ≤ 2 ^ 32
    → pt_idx addr + page_count size ≤ 1024
    → addr + page_count size * 4096 < 2 ^ 32
    → phys + page_count size * 4096 < 2 ^ 32
    → flags < 4096
    → flags % 2 ≡ 0
    → (k' : Pages) × (map_continous k pgdir addr size phys flags ≡ ok k')
      × ((a : ℕ)
          → addr ≤ a
          → a < addr + size
          → translate k'.memory pgdir a ≡ some (phys + (a - addr)))
      × Framed pgdir table flags k.memory k'.memory
          (pde_slot pgdir addr)
          (pt_idx addr)
          (page_count size)
unfolding map_continous
map_continous-translate k pgdir table addr size phys flags tf p va pa room fits ve pe small even =
    let n = page_count size in
    let down : rounddown addr ≡ addr = rounddown_lem addr (omega arith) ∙ omega arith in
    let down' : rounddown phys ≡ phys = rounddown_lem phys (omega arith) ∙ omega arith in
    let (k', run, present, mapped, framed) =
      region_loop pgdir table flags small even n k addr phys tf p fits ve pa pe in
    (
      k',
      ap (λ x. map_loop n k pgdir x (rounddown phys) flags) down
          ∙ ap (λ y. map_loop n k pgdir addr y flags) down'
          ∙ run,
      λ a from to.
          translate_within k'.memory pgdir table flags addr phys n a present mapped fits va pa pe
            small even from (omega (arith, roundup_lem size room)),
      framed,
    )

write_twice : (m : Memory) (a v : ℕ) → write (write m a v) a v ≡ write m a v
unfolding write
write_twice m a v = fun_ext (λ b. go b (b == a))
  where
    go : (b : ℕ) (t : Bool) → (if t then v else (if t then v else m b)) ≡ (if t then v else m b)
    go b true = refl
    go b false = refl

even_has : (a : ℕ) → a % 2 ≡ 0 → has a 1 ≡ false
even_has a even = ap (λ x. not (x == 0)) (bit_and-mask 1 a ∙ even)

-- The state in which the next page of the free list is the page table of an absent entry.
abbrev pub prepared : Pages → ℕ → ℕ → ℕ → Pages
prepared k pgdir addr flags = record (cleared k) {
  memory =
      write (clear_words 1024 k.freelist_head k.memory) (pde_slot pgdir addr)
        (bit_or (virt2phys k.freelist_head) (pde_flags (bit_and flags pt_user)));
}

prepared-Present :
    (k : Pages) (pgdir addr flags : ℕ)
    → IsTableFor pgdir addr k.freelist_head
    → Present (prepared k pgdir addr flags).memory pgdir addr k.freelist_head
prepared-Present k pgdir addr flags tf =
    let user = bit_and flags pt_user in
    let head = k.freelist_head in
    let value = pde_value head user tf.1 tf.2 in
    let held =
      write_self (clear_words 1024 head k.memory) (pde_slot pgdir addr)
        (bit_or (virt2phys head) (pde_flags user)) in
    let odd : bit_or (virt2phys head) (pde_flags user) % 2 ≡ 1 =
      omega (arith, value, (pde_flags_lem user).1) in
    let whole : bit_or (virt2phys head) (pde_flags user) / 2 ^ 7 % 2 ≡ 0 =
      omega (arith, value, (pde_flags_lem user).0) in
    (
      ap (λ x. x % 2) held ∙ odd,
      ap table_of held ∙ ap table_of value ∙ table_of_pde head user tf.1 tf.2,
      ap (λ x. x / 2 ^ 7 % 2) held ∙ whole,
    )

alloc_fresh :
    (k : Pages) (pgdir addr user : ℕ)
    → k.freelist_head ≢ 0
    → k.memory (pde_slot pgdir addr) % 2 ≡ 0
    → alloc_page k pgdir addr user ≡ enter_table (cleared k) pgdir addr user k.freelist_head
unfolding alloc_page kalloc
alloc_fresh k pgdir addr user ne absent =
    rw
      (
        even_has (k.memory (pde_slot pgdir addr)) absent,
        ne→== k.freelist_head 0 ne,
        ne→== k.freelist_head 0 ne,
      )
      refl

set_real :
    (k : Pages) (pte phys flags : ℕ)
    → pte ≢ 0
    → set_entry k pte phys flags
      ≡ ok (record k { memory = write k.memory pte (bit_or (bit_or phys pt_present) flags) })
unfolding set_entry
set_real k pte phys flags ne = rw (ne→== pte 0 ne) refl

fresh_step :
    (n : ℕ) (k : Pages) (pgdir addr phys flags : ℕ)
    → IsTableFor pgdir addr k.freelist_head
    → k.memory (pde_slot pgdir addr) % 2 ≡ 0
    → map_loop (suc n) k pgdir addr phys flags
      ≡ map_loop n
          (with_entry
            (prepared k pgdir addr flags)
            pgdir
            addr
            (bit_and flags pt_user)
            k.freelist_head
            phys
            flags)
          pgdir
          (add32 addr page_size)
          (add32 phys page_size)
          flags
unfolding map_loop enter_table
fresh_step n k pgdir addr phys flags tf absent =
    let head = k.freelist_head in
    let user = bit_and flags pt_user in
    let m = clear_words 1024 head k.memory in
    let pde = bit_or (virt2phys head) (pde_flags user) in
    let slot = head + 4 * pt_idx addr in
    let pte = bit_or (bit_or phys pt_present) flags in
    let rest : Pages → Run Pages =
      λ k. map_loop n k pgdir (add32 addr page_size) (add32 phys page_size) flags in
    ap (λ (p : ℕ × Pages). set_entry p.1 p.0 phys flags >>= rest)
      (alloc_fresh k pgdir addr user tf.0 absent)
    ∙ ap (λ r. r >>= rest)
        (set_real (record (cleared k) { memory = write m (pde_slot pgdir addr) pde }) slot phys
          flags (λ e. tf.0 (omega (arith, e))))
    ∙ ap (λ (x : Memory). rest (record (cleared k) { memory = write x slot pte }))
        (sym (write_twice m (pde_slot pgdir addr) pde))

round_fresh :
    (n : ℕ) (k : Pages) (pgdir addr phys flags : ℕ)
    → IsTableFor pgdir addr k.freelist_head
    → k.memory (pde_slot pgdir addr) % 2 ≡ 0
    → map_loop (suc n) k pgdir addr phys flags
      ≡ map_loop (suc n) (prepared k pgdir addr flags) pgdir addr phys flags
round_fresh n k pgdir addr phys flags tf absent =
    fresh_step n k pgdir addr phys flags tf absent
    ∙ sym (
        round-Present pgdir k.freelist_head flags n (prepared k pgdir addr flags) addr phys tf
          (prepared-Present k pgdir addr flags tf))

-- The first mapping of such a range whose entry of the directory is absent, with a page on the free
-- list for its page table, which does not overlap that entry: `map_continous` returns, and the walk of the processor takes every address of
-- the range to its physical address.
pub map_continous-fresh :
    (k : Pages) (pgdir addr size phys flags : ℕ)
    → IsTableFor pgdir addr k.freelist_head
    → k.memory (pde_slot pgdir addr) % 2 ≡ 0
    → addr % 4096 ≡ 0
    → phys % 4096 ≡ 0
    → 0 < size
    → size + page_size ≤ 2 ^ 32
    → pt_idx addr + page_count size ≤ 1024
    → addr + page_count size * 4096 < 2 ^ 32
    → phys + page_count size * 4096 < 2 ^ 32
    → flags < 4096
    → flags % 2 ≡ 0
    → (k' : Pages) × (map_continous k pgdir addr size phys flags ≡ ok k')
      × ((a : ℕ)
          → addr ≤ a
          → a < addr + size
          → translate k'.memory pgdir a ≡ some (phys + (a - addr)))
unfolding map_continous
map_continous-fresh k pgdir addr size phys flags tf absent va pa pos room fits ve pe small even =
    let n = page_count size in
    let down : rounddown addr ≡ addr = rounddown_lem addr (omega arith) ∙ omega arith in
    let down' : rounddown phys ≡ phys = rounddown_lem phys (omega arith) ∙ omega arith in
    let some_pages : suc (n - 1) ≡ n = omega (arith, roundup_lem size room) in
    let start = round_fresh (n - 1) k pgdir addr phys flags tf absent in
    let k₀ = prepared k pgdir addr flags in
    let (k', run, walks, framed) =
      map_continous-translate k₀ pgdir k.freelist_head addr size phys flags tf
        (prepared-Present k pgdir addr flags tf) va pa room fits ve pe small even in
    (
      k',
      ap (λ x. map_loop n k pgdir x (rounddown phys) flags) down
          ∙ ap (λ y. map_loop n k pgdir addr y flags) down'
          ∙ subst (λ j. map_loop j k pgdir addr phys flags ≡ map_loop j k₀ pgdir addr phys flags)
              some_pages start
          ∙ ap (λ y. map_loop n k₀ pgdir addr y flags) (sym down')
          ∙ ap (λ x. map_loop n k₀ pgdir x (rounddown phys) flags) (sym down)
          ∙ run,
      walks,
    )
