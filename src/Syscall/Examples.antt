-- ===== src/Syscall/Examples.antt =====
-- System calls from a user task.
use low_flex_programming.Base.{ℕ, ◌≡◌, refl, [], ◌∷◌, none, some, get_elem?, ok, panic, arith}
use low_flex_programming.Common.{write}
use low_flex_programming.Frame
use low_flex_programming.Sched.{Task, running, Sched}
use low_flex_programming.Sched.Ticks.{ticks, after}
use low_flex_programming.Syscall.{Kernel, syscall_irq}
use low_flex_programming.Syscall.Dispatch.{syscall_irq-kernel}
use low_flex_programming.Syscall.Wait.{syscall_irq-wakes}

abbrev task : Task
task = record {
  pid = 1;
  state = running;
  context = record { esp = 0; ebp = 0; esi = 0; edi = 0; ebx = 0 };
  regs = 0x1000;
  kstack = 0;
  ticks_remaining = 0;
  exitcode = 0;
}

-- A frame at 0x1000 with the code segment `cs`, the number `eax` and the argument `ebx`.
abbrev kernel : ℕ → ℕ → ℕ → Kernel
kernel cs eax ebx = record {
  disk = record {
    dev = record { io_base = 0x1f0; io_ctrl_base = 0x3f6 };
    req_queue = [];
    ports = [];
    memory = λ a. 0;
    sched = record {
      tasks = task ∷ [];
      current = some 0;
      pages = record {
        memory = write (write (write (λ a. 0) 0x102c cs) 0x1018 eax) 0x1014 ebx;
        freelist_head = 0;
        kernel_pgdir = 0;
      };
    };
  };
  terminal = record { row = 0; column = 0; buffer = λ a. 0 };
}

syscall_irq-kernel_example : syscall_irq 0 0x1000 (kernel 8 0 0) ≡ panic
unfolding Frame.is_userspace write
syscall_irq-kernel_example = syscall_irq-kernel 0 0x1000 (kernel 8 0 0) refl

syscall_irq-wakes_example :
    (k' : Kernel) × (s : Sched) × (syscall_irq 0 0x1000 (kernel 0x1b 0 5) ≡ ok k')
    × (k'.disk.sched.current ≡ none)
    × (ticks 5 k'.disk.sched ≡ ok s)
    × (get_elem? s.tasks 0 ≡ some (after 5 5 task))
unfolding Frame.is_userspace write
syscall_irq-wakes_example =
    syscall_irq-wakes 0 0x1000 0 5 task (kernel 0x1b 0 5) refl refl refl refl (omega arith)
      (omega arith) (omega arith)
