-- ===== src/Frame/Examples.antt =====
-- A critical section with interrupts on before it.
use low_flex_programming.Base.{◌≡◌, refl, true, false}
use low_flex_programming.Frame.{disable_irq_begin, disable_irq_end, disable_irq-restored}

disable_irq-restored_example :
    let (state, within) = disable_irq_begin 0x246 true in
    (within ≡ false) × (disable_irq_end state within ≡ true)
disable_irq-restored_example = disable_irq-restored 0x246 true refl
