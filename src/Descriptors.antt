-- ===== src/Descriptors.antt =====
-- gdt.c, gdt.h and idt.c: the descriptors of segments and of interrupt gates. A table is a list of
-- its entries; of the instructions that load registers, the one for the task register is
-- modelled, which writes to the table.
pub mod Segments
pub mod Gates
mod Examples
use low_flex_programming.Base.{
  ℕ, ◌+◌, ◌-◌, ◌*◌, ◌/◌, ◌%◌, ◌^◌, List, [], ◌∷◌, bit_and, bit_or, ◌>>>◌, set, get_elem?, Option,
  none, some, Run, ok, fault, ◌>>=◌, has, if◌then◌else◌, checked, u8, u16,
}
use low_flex_programming.Apic.{Lapic, apic_eoi}

pub record GdtEntry : Type 0 where
  pub limit_low : ℕ
  pub base_low : ℕ
  pub base_middle : ℕ
  pub access : ℕ
  pub limit_high : ℕ
  pub base_high : ℕ

abbrev pub access_present : ℕ
access_present = 0b10000000

abbrev pub access_ring0 : ℕ
access_ring0 = 0

abbrev pub access_ring3 : ℕ
access_ring3 = 0b01100000

abbrev pub access_segment : ℕ
access_segment = 0b00010000

abbrev pub access_exec : ℕ
access_exec = 0b00001000

abbrev pub access_rw : ℕ
access_rw = 0b00000010

-- The entry that `gdt_register` writes.
unfoldable pub gdt_entry : ℕ → ℕ → ℕ → GdtEntry
gdt_entry base limit access = record {
  limit_low = bit_and limit 0xffff;
  base_low = bit_and base 0xffff;
  base_middle = bit_and (base >>> 16) 0xff;
  access = bit_or access access_present;
  limit_high = bit_or (bit_and (limit >>> 16) 0x0f) 0b11000000;
  base_high = bit_and (base >>> 24) 0xff;
}

unfoldable pub gdt_register : List GdtEntry → ℕ → ℕ → ℕ → ℕ → List GdtEntry
gdt_register gdt idx base limit access = set gdt idx (gdt_entry base limit access)

-- The instruction that loads the task register: the processor refuses a descriptor that is busy, and
-- marks the one that it loads.
unfoldable pub ltr : GdtEntry → Run GdtEntry
ltr entry =
    if has entry.access 2 then fault else ok (record entry { access = bit_or entry.access 2 })

-- The busy bit of entry 5 is cleared, and the selector 0x2b loads that entry.
unfoldable pub reload_tss : List GdtEntry → Run (List GdtEntry)
reload_tss gdt = do
  entry ← checked (get_elem? gdt 5)
  loaded ← ltr (record entry { access = bit_and entry.access 0b11111101 })
  ok (set gdt 5 loaded)

-- The `struct tss` of gdt.h.
abbrev pub sizeof_tss : ℕ
sizeof_tss = 4 + 4 + 2 + 2 + 4 * 21 + 2 + 2

-- `tss` is the address of TSS.
unfoldable pub init_gdt : ℕ → List GdtEntry → Run (List GdtEntry)
init_gdt tss gdt =
    let code = bit_or (bit_or access_segment access_exec) access_rw in
    let plain = bit_or access_segment access_rw in
    let gdt = gdt_register gdt 0 0 0 0 in
    let gdt = gdt_register gdt 1 0 0xffffffff (bit_or access_ring0 code) in
    let gdt = gdt_register gdt 2 0 0xffffffff (bit_or access_ring0 plain) in
    let gdt = gdt_register gdt 3 0 0xffffffff (bit_or access_ring3 code) in
    let gdt = gdt_register gdt 4 0 0xffffffff (bit_or access_ring3 plain) in
    reload_tss (gdt_register gdt 5 tss (sizeof_tss - 1) (bit_or access_exec 1))

pub record IdtEntry : Type 0 where
  pub base_lo : ℕ
  pub selector : ℕ
  pub zero_byte : ℕ
  pub flags : ℕ
  pub base_hi : ℕ

unfoldable pub gate : ℕ → ℕ → ℕ → IdtEntry
gate base sel flags = record {
  base_lo = bit_and base 0xffff;
  selector = sel;
  zero_byte = 0;
  flags = flags;
  base_hi = bit_and (base >>> 16) 0xffff;
}

unfoldable pub idt_register : List IdtEntry → ℕ → ℕ → ℕ → ℕ → List IdtEntry
idt_register idt pos base sel flags = set idt pos (gate base sel flags)

abbrev pub gate_interrupt : ℕ
gate_interrupt = 0b1110

abbrev pub gate_trap : ℕ
gate_trap = 0b1111

abbrev pub dpl_user : ℕ
dpl_user = 0b01100000

-- The macro REGISTER_IRQ
unfoldable pub register_irq : List IdtEntry → ℕ → ℕ → ℕ → ℕ → List IdtEntry
register_irq idt n entry sel flags = idt_register idt n entry sel (bit_or flags 0b10000000)

-- The addresses of the entry code, which is assembly.
pub record Handlers : Type 0 where
  pub pagefault_irq : ℕ
  pub timer_irq : ℕ
  pub spurious_irq : ℕ
  pub keyboard_irq : ℕ
  pub ide_irq1 : ℕ
  pub ide_irq2 : ℕ
  pub syscall_irq : ℕ

unfoldable pub init_idt : Handlers → List IdtEntry → List IdtEntry
init_idt h idt =
    let idt = register_irq idt 14 h.pagefault_irq 0x08 gate_interrupt in
    let idt = register_irq idt 32 h.timer_irq 0x08 gate_interrupt in
    let idt = register_irq idt 39 h.spurious_irq 0x08 gate_interrupt in
    let idt = register_irq idt 40 h.keyboard_irq 0x08 gate_interrupt in
    let idt = register_irq idt 41 h.ide_irq1 0x08 gate_interrupt in
    let idt = register_irq idt 42 h.ide_irq2 0x08 gate_interrupt in
    register_irq idt 128 h.syscall_irq 0x08 (bit_or gate_trap dpl_user)

pub dummy_irq : Lapic → Lapic
dummy_irq lapic = lapic

pub spurious_irq : Lapic → Lapic
spurious_irq lapic = apic_eoi lapic
