-- ===== src/Syscall/Dispatch.antt =====
-- The guards of `syscall_irq` and its dispatch by number.
use low_flex_programming.Base.{
  ℕ, ◌+◌, ◌≤◌, ◌≡◌, refl, ap, ◌∙◌, [], ◌∷◌, true, false, leb, if◌then◌else◌, none, some, Run, ok,
  panic, minus32, arith,
}
use low_flex_programming.Frame
use low_flex_programming.Terminal.{vga_entry_color, vga_color_light_grey, vga_color_black}
use low_flex_programming.Terminal.Print.{print_all, terminal_writestring_lem}
use low_flex_programming.Syscall.{
  Kernel, frame_word, set_frame_word, syscall_print, print_text, syscall_table, table_size,
  call_numbered, syscall_irq, enosys,
}

-- A call from kernel code is a panic.
pub syscall_irq-kernel :
    (sector regs : ℕ) (k : Kernel)
    → Frame.is_userspace k.disk.sched.pages.memory regs ≡ false
    → syscall_irq sector regs k ≡ panic
unfolding syscall_irq
syscall_irq-kernel sector regs k h = rw h refl

-- A call from user code with a task current is dispatched by its number.
pub syscall_irq-user :
    (sector regs i : ℕ) (k : Kernel)
    → Frame.is_userspace k.disk.sched.pages.memory regs ≡ true
    → k.disk.sched.current ≡ some i
    → syscall_irq sector regs k ≡ call_numbered sector regs k
unfolding syscall_irq
syscall_irq-user sector regs i k user cur =
    rw user (ap (λ o. elim o [ none ↦ Run.panic | some j ↦ call_numbered sector regs k ]) cur)

-- From user code, a number that the table does not have gives -ENOSYS in the caller's eax, and
-- nothing else changes.
pub syscall_irq-unknown :
    (sector regs i : ℕ) (k : Kernel)
    → Frame.is_userspace k.disk.sched.pages.memory regs ≡ true
    → k.disk.sched.current ≡ some i
    → table_size ≤ frame_word k (regs + Frame.eax)
    → syscall_irq sector regs k ≡ ok (set_frame_word (regs + Frame.eax) (minus32 enosys) k)
unfolding call_numbered
syscall_irq-unknown sector regs i k user cur big =
    syscall_irq-user sector regs i k user cur
    ∙ (let out : leb table_size (frame_word k (regs + Frame.eax)) ≡ true = ground arith in
        rw out refl)

-- The character that call 1 shows: the digit of an argument from 1 to 4, and x for any other.
abbrev pub shown : ℕ → ℕ
shown n = if leb 1 n then (if leb n 4 then b'0' + n else b'x') else b'x'

print_text-shown : (n : ℕ) → print_text n ≡ shown n
unfolding print_text
print_text-shown n = ground arith

shown_nonzero : (n : ℕ) → shown n ≡ 0 → ⊥
shown_nonzero n e = ground arith

-- From user code, call 1 shows one character for its argument, and returns 0 to the caller.
pub syscall_irq-print :
    (sector regs i : ℕ) (k : Kernel)
    → Frame.is_userspace k.disk.sched.pages.memory regs ≡ true
    → k.disk.sched.current ≡ some i
    → frame_word k (regs + Frame.eax) ≡ 1
    → syscall_irq sector regs k
      ≡ ok (
          set_frame_word (regs + Frame.eax) 0 (record k {
            terminal =
                print_all k.terminal
                  (shown (frame_word k (regs + Frame.ebx)) ∷ [])
                  (vga_entry_color vga_color_light_grey vga_color_black);
          }))
unfolding call_numbered syscall_table syscall_print
syscall_irq-print sector regs i k user cur one =
    syscall_irq-user sector regs i k user cur
    ∙ (let c = frame_word k (regs + Frame.ebx) in
        rw
          (
            one,
            print_text-shown c,
            terminal_writestring_lem k.terminal (shown c ∷ []) [] (shown_nonzero c, tt),
          )
          refl)
