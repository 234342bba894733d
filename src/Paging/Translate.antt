-- ===== src/Paging/Translate.antt =====
-- The walk of the processor through the page tables, and the entry that `map_continous` makes.
use low_flex_programming.Base.{
  ℕ, ◌+◌, ◌-◌, ◌*◌, ◌/◌, ◌%◌, ◌^◌, ◌<◌, ◌≡◌, ◌≢◌, refl, ap, ◌∙◌, true, ◌==◌, not, if◌then◌else◌,
  Option, some, none, bit_and, bit_or, has, arith, ne→==, eq→==,
}
use low_flex_programming.Base.Bits.{bit_and-mask, bit_and-high, bit_or_digit, shifted-bit_or}
use low_flex_programming.Common.{Memory, write}
use low_flex_programming.Paging.{
  pgdir_idx, pt_idx, rounddown, virt2phys, phys2virt, pt_present, pt_user,
}

abbrev pub pde_slot : ℕ → ℕ → ℕ
pde_slot pgdir a = pgdir + 4 * pgdir_idx a

abbrev pub table_of : ℕ → ℕ
table_of pde = phys2virt (rounddown pde)

-- The physical address for `a`, with the directory at `pgdir`. An entry of the directory whose bit 7 is
-- set stands for 4 MB of memory and has no page table.
pub translate : Memory → ℕ → ℕ → Option ℕ
translate m pgdir a =
    let pde = m (pde_slot pgdir a) in
    let pte = m (table_of pde + 4 * pt_idx a) in
    if has pde 1
    then (if pde / 2 ^ 7 % 2 == 1
        then some (pde / 2 ^ 22 * 2 ^ 22 + a % 2 ^ 22)
        else if has pte 1
        then some (rounddown pte + a % 4096)
        else none)
    else none

pub rounddown_lem : (a : ℕ) → a < 2 ^ 32 → rounddown a ≡ a - a % 4096
unfolding rounddown
rounddown_lem a h = bit_and-high 12 32 a (omega arith) h

-- An entry: the address of a page, and flags below it.
pub entry_sum : (page flags : ℕ) → page % 4096 ≡ 0 → flags < 4096 → bit_or page flags ≡ page + flags
entry_sum page flags aligned small =
    let e : page ≡ page / 4096 * 2 ^ 12 = omega arith in
    ap (λ p. bit_or p flags) e ∙ shifted-bit_or 12 (page / 4096) flags small ∙ omega arith

pub odd_has : (a : ℕ) → a % 2 ≡ 1 → has a 1 ≡ true
odd_has a odd = ap (λ x. not (x == 0)) (bit_and-mask 1 a ∙ odd)

same_indices : (a b : ℕ) → a / 4096 ≡ b / 4096 → (pgdir_idx a ≡ pgdir_idx b) × (pt_idx a ≡ pt_idx b)
unfolding pgdir_idx pt_idx
same_indices a b e =
    let high : a / 2 ^ 22 ≡ b / 2 ^ 22 = omega arith in
    (ap (λ x. bit_and x 1023) high, ap (λ x. bit_and x 1023) e)

-- The walk, from the two entries on its way.
pub translate_entries :
    (m : Memory) (pgdir a table pde pte page flags : ℕ)
    → m (pde_slot pgdir a) ≡ pde
    → pde % 2 ≡ 1
    → pde / 2 ^ 7 % 2 ≡ 0
    → table_of pde ≡ table
    → m (table + 4 * pt_idx a) ≡ pte
    → pte ≡ page + flags
    → page % 4096 ≡ 0
    → page < 2 ^ 32
    → flags < 4096
    → flags % 2 ≡ 1
    → translate m pgdir a ≡ some (page + a % 4096)
unfolding translate
translate_entries m pgdir a table pde pte page flags d odd whole t e sum aligned small low one =
    let down : rounddown pte ≡ page = rounddown_lem pte (omega arith) ∙ omega arith in
    rw (d, odd_has pde odd, whole, t, e, odd_has pte (omega arith), down) refl

-- The value of a page's entry with even flags.
pub pte_value :
    (phys flags : ℕ)
    → phys % 4096 ≡ 0
    → flags < 4096
    → flags % 2 ≡ 0
    → bit_or (bit_or phys pt_present) flags ≡ phys + (flags + 1)
pte_value phys flags aligned small even =
    let one = entry_sum phys 1 aligned (omega arith) in
    let sum = entry_sum phys flags aligned small in
    let half : (phys + 1) / 2 ≡ phys / 2 = omega arith in
    ap (λ x. bit_or x flags) one
    ∙ omega (
      arith,
      bit_or_digit (phys + 1) flags,
      bit_or_digit phys flags,
      sum,
      ap (λ h. bit_or h (flags / 2)) half,
    )

-- The flags of the directory's entry.
abbrev pub pde_flags : ℕ → ℕ
pde_flags user = if user == 0 then pt_present else bit_or pt_present pt_user

pub pde_flags_lem : (user : ℕ) → (pde_flags user < 128) × (pde_flags user % 2 ≡ 1)
pde_flags_lem user = (ground arith, ground arith)

pub pde_value :
    (table user : ℕ)
    → table % 4096 ≡ 0
    → table < 2 ^ 32
    → bit_or (virt2phys table) (pde_flags user) ≡ virt2phys table + pde_flags user
pde_value table user aligned small =
    entry_sum (virt2phys table) (pde_flags user) (omega arith)
      (omega (arith, (pde_flags_lem user).0))

pub table_of_pde :
    (table user : ℕ)
    → table % 4096 ≡ 0
    → table < 2 ^ 32
    → table_of (virt2phys table + pde_flags user) ≡ table
table_of_pde table user aligned small =
    let f = pde_flags_lem user in
    let down : rounddown (virt2phys table + pde_flags user) ≡ virt2phys table =
      rounddown_lem (virt2phys table + pde_flags user) (omega (arith, f.0)) ∙ omega (arith, f.0) in
    ap phys2virt down ∙ omega arith

pub write_self : (m : Memory) (a v : ℕ) → write m a v a ≡ v
unfolding write
write_self m a v = rw (eq→== a a refl) refl

pub write_other : (m : Memory) (a v b : ℕ) → b ≢ a → write m a v b ≡ m b
unfolding write
write_other m a v b ne = rw (ne→== b a ne) refl

-- The two writes for a page.
abbrev pub entered : Memory → ℕ → ℕ → ℕ → ℕ → ℕ → ℕ → Memory
entered m pgdir addr user table phys flags =
    write (write m (pde_slot pgdir addr) (bit_or (virt2phys table) (pde_flags user)))
      (table + 4 * pt_idx addr) (bit_or (bit_or phys pt_present) flags)
