-- ===== src/Syscall.antt =====
-- syscall.c, syscall.h and errno.h: the system calls. The frame of the call is in the memory of the
-- scheduler's pages. A call that gives up the processor stores its result when the task runs again;
-- the frame is the task's own, so the model stores it at once.
pub mod Dispatch
pub mod Wait
mod Examples
use low_flex_programming.Base.{
  ℕ, ◌+◌, ◌-◌, ◌%◌, ◌^◌, List, [], ◌∷◌, Bool, true, false, ◌==◌, ltb, leb, ◌||◌, not, if◌then◌else◌,
  Option, none, some, get_elem?, set, Run, ok, panic, fault, ◌>>=◌, checked, minus32,
}
use low_flex_programming.Common.{write}
use low_flex_programming.Frame
use low_flex_programming.Terminal.{Terminal, terminal_writestring}
use low_flex_programming.Sched.{Task, TaskState, waiting, Sched, reschedule}
use low_flex_programming.Ata.{Disk, ata_read}

abbrev pub enosys : ℕ
enosys = 1

abbrev pub einval : ℕ
einval = 4

-- What the system calls change: the disk with the scheduler, and the screen.
pub record Kernel : Type 0 where
  pub disk : Disk
  pub terminal : Terminal

-- A word of the frame at `regs`.
abbrev pub frame_word : Kernel → ℕ → ℕ
frame_word k a = k.disk.sched.pages.memory a

unfoldable pub set_frame_word : ℕ → ℕ → Kernel → Kernel
set_frame_word a v k = record k {
  disk = record k.disk {
    sched = record k.disk.sched {
      pages = record k.disk.sched.pages { memory = write k.disk.sched.pages.memory a v };
    };
  };
}

abbrev pub with_sched : Kernel → Sched → Kernel
with_sched k s = record k { disk = record k.disk { sched = s } }

-- A call returns its result, or gives up the processor with it.
unfoldable pub wait_as : ℕ → ℕ → Kernel → Run (ℕ × Kernel)
wait_as i ticks k = do
  task ← checked (get_elem? k.disk.sched.tasks i)
  let waits : Task = record task { ticks_remaining = ticks; state = waiting }
  s ← reschedule (record k.disk.sched { tasks = set k.disk.sched.tasks i waits })
  ok (0, with_sched k s)

unfoldable pub syscall_wait : ℕ → Kernel → Run (ℕ × Kernel)
syscall_wait regs k =
    let ticks = frame_word k (regs + Frame.ebx) in
    if ticks == 0 || leb (2 ^ 31) ticks
    then ok (minus32 einval, k)
    else elim k.disk.sched.current [ none ↦ fault | some i ↦ wait_as i ticks k ]

-- The string of the call's argument.
unfoldable pub print_text : ℕ → ℕ
print_text ebx =
    if ebx == 1
    then b'1'
    else if ebx == 2
    then b'2'
    else if ebx == 3
    then b'3'
    else if ebx == 4
    then b'4'
    else b'x'

unfoldable pub syscall_print : ℕ → Kernel → Run (ℕ × Kernel)
syscall_print regs k = do
  t ← terminal_writestring k.terminal (print_text (frame_word k (regs + Frame.ebx)) ∷ 0 ∷ [])
  ok (0, record k { terminal = t })

-- `sector` is the address of the buffer on the task's stack.
unfoldable pub syscall_read : ℕ → ℕ → Kernel → Run (ℕ × Kernel)
syscall_read sector regs k = do
  (result, d) ← ata_read sector 12 4 k.disk
  ok (result, record k { disk = d })

-- The entries of `syscall_table`, for a number below its size.
unfoldable pub syscall_table : ℕ → ℕ → ℕ → Kernel → Run (ℕ × Kernel)
syscall_table sector number regs k =
    if number == 0
    then syscall_wait regs k
    else if number == 1
    then syscall_print regs k
    else syscall_read sector regs k

abbrev pub table_size : ℕ
table_size = 3

unfoldable pub call_numbered : ℕ → ℕ → Kernel → Run Kernel
call_numbered sector regs k =
    let number = frame_word k (regs + Frame.eax) in
    if leb table_size number then ok (set_frame_word (regs + Frame.eax) (minus32 enosys) k) else (do
      (result, k') ← syscall_table sector number regs k
      ok (set_frame_word (regs + Frame.eax) result k'))

unfoldable pub syscall_irq : ℕ → ℕ → Kernel → Run Kernel
syscall_irq sector regs k =
    if not (Frame.is_userspace k.disk.sched.pages.memory regs)
    then panic
    else elim k.disk.sched.current [ none ↦ panic | some i ↦ call_numbered sector regs k ]
