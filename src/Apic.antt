-- ===== src/Apic.antt =====
-- apic.c: the writes to the registers of the local interrupt controller. The device is a record of
-- what was written to it, the last write first, and a function for what is read from it; a register is the index of a 32-bit word from
-- `lapic_ptr` on. The read of register 0 behind each write has no effect on it.
pub mod Setup
pub mod Calibrate
mod Examples
use low_flex_programming.Base.{ℕ, ◌/◌, List, ◌∷◌}

abbrev pub Lapic : Type 0
Lapic = List (ℕ × ℕ)

unfoldable pub lapic_write : Lapic → ℕ → ℕ → Lapic
lapic_write l idx value = (idx / 4, value) ∷ l

-- The register's value when it is read.
abbrev pub lapic_read : (ℕ → ℕ) → ℕ → ℕ
lapic_read registers idx = registers (idx / 4)

abbrev pub apic_taskprior : ℕ
apic_taskprior = 0x080

abbrev pub apic_eoi_reg : ℕ
apic_eoi_reg = 0x0b0

abbrev pub apic_spurious : ℕ
apic_spurious = 0x0f0

abbrev pub apic_lvt_tmr : ℕ
apic_lvt_tmr = 0x320

abbrev pub apic_lvt_perf : ℕ
apic_lvt_perf = 0x340

abbrev pub apic_lvt_lint0 : ℕ
apic_lvt_lint0 = 0x350

abbrev pub apic_lvt_lint1 : ℕ
apic_lvt_lint1 = 0x360

abbrev pub apic_tmrinitcnt : ℕ
apic_tmrinitcnt = 0x380

abbrev pub apic_tmrcurrcnt : ℕ
apic_tmrcurrcnt = 0x390

abbrev pub apic_tmrdiv : ℕ
apic_tmrdiv = 0x3e0

abbrev pub apic_disable : ℕ
apic_disable = 0x10000

abbrev pub apic_sw_enable : ℕ
apic_sw_enable = 0x100

abbrev pub tmr_periodic : ℕ
tmr_periodic = 0x20000

unfoldable pub apic_eoi : Lapic → Lapic
unfolding lapic_write
apic_eoi l = lapic_write l apic_eoi_reg 0
