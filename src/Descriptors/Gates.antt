-- ===== src/Descriptors/Gates.antt =====
-- What the processor reads from the interrupt gates.
use low_flex_programming.Base.{
  ℕ, ◌+◌, ◌*◌, ◌/◌, ◌^◌, ◌<◌, ◌≡◌, refl, subst, List, length, get_elem?, set, Option, some, arith,
  bit_or, get_elem?-set_self, get_elem?-set_ne, length-set, ◌==◌, ==→eq, ==→ne, if◌then◌else◌,
  Bool-cases, inl, inr,
}
use low_flex_programming.Base.Bits.{bit_and-mask}
use low_flex_programming.Descriptors.{
  IdtEntry, gate, idt_register, register_irq, init_idt, Handlers, gate_interrupt, gate_trap,
  dpl_user,
}

abbrev pub offset_of : IdtEntry → ℕ
offset_of e = e.base_lo + e.base_hi * 2 ^ 16

-- The address of the handler is read back from the gate.
pub gate-offset_of : (base sel flags : ℕ) → base < 2 ^ 32 → offset_of (gate base sel flags) ≡ base
unfolding gate
gate-offset_of base sel flags small =
    omega (arith, bit_and-mask 16 base, bit_and-mask 16 (base / 2 ^ 16))

get_elem?-register :
    (idt : List IdtEntry) (n entry sel flags pos : ℕ)
    → n < length idt
    → get_elem? (register_irq idt n entry sel flags) pos
      ≡ (if n == pos then some (gate entry sel (bit_or flags 128)) else get_elem? idt pos)
unfolding register_irq idt_register
get_elem?-register idt n entry sel flags pos inside =
    let new = gate entry sel (bit_or flags 128) in
    elim (Bool-cases (n == pos)) [
      | inl same ↦ rw same (
          subst (λ p. get_elem? (set idt n new) p ≡ some new) (==→eq n pos same)
            (get_elem?-set_self idt n new inside))
      | inr other ↦ rw other (get_elem?-set_ne idt n pos new (==→ne n pos other))
    ]

-- The handler and the flags of a vector of the kernel.
abbrev pub installed : Handlers → ℕ → Option IdtEntry → Option IdtEntry
installed h pos before =
    if 128 == pos
    then some (gate h.syscall_irq 0x08 0b11101111)
    else if 42 == pos
    then some (gate h.ide_irq2 0x08 0b10001110)
    else if 41 == pos
    then some (gate h.ide_irq1 0x08 0b10001110)
    else if 40 == pos
    then some (gate h.keyboard_irq 0x08 0b10001110)
    else if 39 == pos
    then some (gate h.spurious_irq 0x08 0b10001110)
    else if 32 == pos
    then some (gate h.timer_irq 0x08 0b10001110)
    else if 14 == pos
    then some (gate h.pagefault_irq 0x08 0b10001110)
    else before

length-register :
    (idt : List IdtEntry) (n entry sel flags : ℕ)
    → length (register_irq idt n entry sel flags) ≡ length idt
unfolding register_irq idt_register
length-register idt n entry sel flags = length-set idt n (gate entry sel (bit_or flags 128))

-- In a table of 256 entries, `init_idt` sets exactly the vectors 14, 32, 39 to 42 and 128, each with
-- its handler and in the kernel's code segment: interrupt gates that only the kernel may call, and for
-- 128 a trap gate that user code may call.
pub init_idt-installed :
    (h : Handlers) (idt : List IdtEntry) (pos : ℕ)
    → length idt ≡ 256
    → get_elem? (init_idt h idt) pos ≡ installed h pos (get_elem? idt pos)
unfolding init_idt
init_idt-installed h idt pos full =
    let t₁ = register_irq idt 14 h.pagefault_irq 0x08 gate_interrupt in
    let l₁ = length-register idt 14 h.pagefault_irq 0x08 gate_interrupt in
    let t₂ = register_irq t₁ 32 h.timer_irq 0x08 gate_interrupt in
    let l₂ = length-register t₁ 32 h.timer_irq 0x08 gate_interrupt in
    let t₃ = register_irq t₂ 39 h.spurious_irq 0x08 gate_interrupt in
    let l₃ = length-register t₂ 39 h.spurious_irq 0x08 gate_interrupt in
    let t₄ = register_irq t₃ 40 h.keyboard_irq 0x08 gate_interrupt in
    let l₄ = length-register t₃ 40 h.keyboard_irq 0x08 gate_interrupt in
    let t₅ = register_irq t₄ 41 h.ide_irq1 0x08 gate_interrupt in
    let l₅ = length-register t₄ 41 h.ide_irq1 0x08 gate_interrupt in
    let t₆ = register_irq t₅ 42 h.ide_irq2 0x08 gate_interrupt in
    let l₆ = length-register t₅ 42 h.ide_irq2 0x08 gate_interrupt in
    rw
      (
        get_elem?-register t₆ 128 h.syscall_irq 0x08 (bit_or gate_trap dpl_user) pos
            (omega (arith, l₁, l₂, l₃, l₄, l₅, l₆)),
        get_elem?-register t₅ 42 h.ide_irq2 0x08 gate_interrupt pos
            (omega (arith, l₁, l₂, l₃, l₄, l₅)),
        get_elem?-register t₄ 41 h.ide_irq1 0x08 gate_interrupt pos (omega (arith, l₁, l₂, l₃, l₄)),
        get_elem?-register t₃ 40 h.keyboard_irq 0x08 gate_interrupt pos (omega (arith, l₁, l₂, l₃)),
        get_elem?-register t₂ 39 h.spurious_irq 0x08 gate_interrupt pos (omega (arith, l₁, l₂)),
        get_elem?-register t₁ 32 h.timer_irq 0x08 gate_interrupt pos (omega (arith, l₁)),
        get_elem?-register idt 14 h.pagefault_irq 0x08 gate_interrupt pos (omega arith),
      )
      refl
