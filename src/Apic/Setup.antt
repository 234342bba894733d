-- ===== src/Apic/Setup.antt =====
-- apic_init: the walk over the firmware's table of interrupt controllers, and the registers that
-- are set. The I/O controller is a log of register numbers and values, the last write first.
use low_flex_programming.Base.{
  ℕ, zero, suc, ◌+◌, ◌*◌, ◌≤◌, ◌<◌, ◌≡◌, List, [], ◌∷◌, ◌==◌, leb, if◌then◌else◌, Run, ok, panic,
  fault, ◌>>=◌, bit_or,
}
use low_flex_programming.Common.{Memory}
use low_flex_programming.Paging.{page_size}
use low_flex_programming.Acpi.{read32, header_length, acpi_find_sdt}
use low_flex_programming.Apic.{
  Lapic, lapic_write, apic_spurious, apic_sw_enable, apic_lvt_perf, apic_lvt_lint0, apic_lvt_lint1,
  apic_disable, apic_eoi_reg, apic_taskprior, apic_tmrdiv, apic_lvt_tmr, tmr_periodic,
  apic_tmrinitcnt,
}

abbrev pub type_ioapic : ℕ
type_ioapic = 1

-- The place of `lapic_addr` in the table, and of its first entry.
abbrev pub madt_lapic_addr : ℕ
madt_lapic_addr = 36

abbrev pub madt_first_entry : ℕ
madt_first_entry = 44

-- The loop over the entries, on fuel: `stop` is the end of the table.
pub madt_loop : ℕ → Memory → ℕ → ℕ → ℕ → Run ℕ
madt_loop zero m stop entry ioapic = fault
madt_loop (suc fuel) m stop entry ioapic =
    let ioapic' = if m entry == type_ioapic then read32 m (entry + 4) else ioapic in
    let rest = madt_loop fuel m stop (entry + m (entry + 1)) ioapic' in
    if leb stop entry then ok ioapic else rest

abbrev pub ioapic_reg_table : ℕ
ioapic_reg_table = 0x10

pub ioapic_write : List (ℕ × ℕ) → ℕ → ℕ → List (ℕ × ℕ)
ioapic_write io reg value = (reg, value) ∷ io

pub ioapic_enable : List (ℕ × ℕ) → ℕ → ℕ → List (ℕ × ℕ)
ioapic_enable io irq target_irq =
    ioapic_write (ioapic_write io (ioapic_reg_table + 2 * irq) target_irq)
      (ioapic_reg_table + 2 * irq + 1) 0

-- The writes to the local controller.
pub lapic_setup : Lapic → Lapic
lapic_setup l =
    let l = lapic_write l apic_spurious (bit_or 39 apic_sw_enable) in
    let l = lapic_write l apic_lvt_perf apic_disable in
    let l = lapic_write l apic_lvt_lint0 apic_disable in
    let l = lapic_write l apic_lvt_lint1 apic_disable in
    let l = lapic_write l apic_eoi_reg 0 in
    let l = lapic_write l apic_taskprior 0 in
    let l = lapic_write l apic_tmrdiv 0xb in
    let l = lapic_write l apic_lvt_tmr (bit_or 32 tmr_periodic) in
    lapic_write l apic_tmrinitcnt 10000000

pub ioapic_setup : List (ℕ × ℕ) → List (ℕ × ℕ)
ioapic_setup io = ioapic_enable (ioapic_enable (ioapic_enable io 1 40) 14 41) 15 42

-- What `apic_init` leaves behind: the two pointers, what is mapped, and the writes to the ports and to
-- the two controllers.
pub record ApicState : Type 0 where
  pub lapic_ptr : ℕ
  pub ioapic_ptr : ℕ
  pub mapped : List (ℕ × ℕ)
  pub ports : List (ℕ × ℕ)
  pub lapic : Lapic
  pub ioapic : List (ℕ × ℕ)

-- `name` is the address of the string "APIC". Every entry moves on by a byte at least, so the
-- table's length is fuel enough.
pub apic_init : Memory → ℕ → ℕ → Run ApicState
apic_init m rsdt name = do
  let (header, maps) = acpi_find_sdt m rsdt name
  let size = header_length m header
  h ← if header == 0 then panic else ok header
  ioapic_ptr ← madt_loop (size + 1) m (h + size) (h + madt_first_entry) 0
  io ← if ioapic_ptr == 0 then panic else ok ioapic_ptr
  let lapic_addr = read32 m (h + madt_lapic_addr)
  la ← if lapic_addr == 0 then panic else ok lapic_addr
  ok (record {
    lapic_ptr = la;
    ioapic_ptr = io;
    mapped = (io, 2 * page_size) ∷ (la, 2 * page_size) ∷ maps;
    ports = (0xa0 + 1, 0xff) ∷ (0x20 + 1, 0xff) ∷ [];
    lapic = lapic_setup [];
    ioapic = ioapic_setup [];
  })

-- An entry of the table.
pub record MadtEntry : Type 0 where
  pub kind : ℕ
  pub size : ℕ
  pub address : ℕ

-- The memory from `entry` up to `stop` holds these entries, none of them empty.
abbrev pub Holds : Memory → ℕ → ℕ → List MadtEntry → Type 0
Holds m stop entry [] = entry ≡ stop
Holds m stop entry (e ∷ es) =
    (m entry ≡ e.kind)
    × (m (entry + 1) ≡ e.size)
    × (0 < e.size)
    × (read32 m (entry + 4) ≡ e.address)
    × (entry + e.size ≤ stop)
    × Holds m stop (entry + e.size) es

-- The address of the last I/O controller of the list.
abbrev pub last_ioapic : List MadtEntry → ℕ → ℕ
last_ioapic [] ioapic = ioapic
last_ioapic (e ∷ es) ioapic = last_ioapic es (if e.kind == type_ioapic then e.address else ioapic)
