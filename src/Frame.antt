-- ===== src/Frame.antt =====
-- irq.h: the frame of an interrupt, `struct regs`, in a memory of 32-bit words, and the interrupt
-- flag. A register is the offset of its word from the frame's address; the segment registers gs and
-- fs, es and ds share a word each.
mod Examples
use low_flex_programming.Base.{
  ℕ, ◌+◌, ◌^◌, ◌≡◌, bit_and, has, Bool, true, false, ◌==◌, if◌then◌else◌, arith,
}
use low_flex_programming.Common.{Memory}

abbrev pub size : ℕ
size = 60

abbrev pub ebx : ℕ
ebx = 20

abbrev pub eax : ℕ
eax = 24

abbrev pub gs_fs : ℕ
gs_fs = 28

abbrev pub es_ds : ℕ
es_ds = 32

abbrev pub eip : ℕ
eip = 40

abbrev pub cs : ℕ
cs = 44

abbrev pub eflags : ℕ
eflags = 48

abbrev pub ss : ℕ
ss = 56

unfoldable pub is_userspace : Memory → ℕ → Bool
is_userspace m regs = bit_and (m (regs + cs)) 3 == 3

-- The interrupt flag behind the two instructions.
abbrev pub disable_irq : Bool → Bool
disable_irq enabled = false

abbrev pub enable_irq : Bool → Bool
enable_irq enabled = true

-- The processor's flags before the call give `*state`; the result is that and the interrupt flag
-- behind it.
unfoldable pub disable_irq_safe : ℕ → Bool → ℕ × Bool
disable_irq_safe flags enabled =
    let state = bit_and flags (2 ^ 9) in
    (state, if state == 0 then enabled else disable_irq enabled)

unfoldable pub restore_irq : ℕ → Bool → Bool
restore_irq state enabled = if state == 0 then enabled else enable_irq enabled

-- The macros around a critical section.
abbrev pub disable_irq_begin : ℕ → Bool → ℕ × Bool
disable_irq_begin flags enabled = disable_irq_safe flags enabled

abbrev pub disable_irq_end : ℕ → Bool → Bool
disable_irq_end irq_state enabled = restore_irq irq_state enabled

-- With flags that say whether interrupts are on: they are off in a critical section, and behind it
-- they are on exactly if they were before.
pub disable_irq-restored :
    (flags : ℕ) (enabled : Bool)
    → has flags (2 ^ 9) ≡ enabled
    → let (state, within) = disable_irq_begin flags enabled in
      (within ≡ false) × (disable_irq_end state within ≡ enabled)
unfolding disable_irq_safe restore_irq
disable_irq-restored flags enabled h = ground (arith, h)
