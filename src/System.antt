-- ===== src/System.antt =====
-- The kernel as a whole: the scheduler, the system calls and the disk on one state, with each of their
-- operations as a step. The processor is the scheduler's while no task is current.
pub mod Tasks
pub mod Queue
pub mod Kept
pub mod Calls
pub mod Invariant
mod Examples
use low_flex_programming.Base.{ℕ, List, true, Option, none, some, get_elem?, ◌≡◌, ok, ◌≢◌}
use low_flex_programming.Sched.{
  Task, Sched, running, disk_read, is_running, task_allocate, scheduler_tick, switch_to,
}
use low_flex_programming.Ata.{Request, Disk, ata_read, ata_process_request}
use low_flex_programming.Syscall.{Kernel, syscall_irq, with_sched}

-- One step: an allocation of a task, the timer, a switch to a runnable task, a read of the disk for the
-- task that is current, an interrupt of the disk, and a system call.
pub data Step (jump_userspace task_init : ℕ) : Kernel → Kernel → Type 0 where
  allocate :
      (k : Kernel) (err : ℕ) (slot : Option ℕ) (s : Sched)
      → task_allocate jump_userspace task_init k.disk.sched ≡ ok (err, slot, s)
      → Step jump_userspace task_init k (with_sched k s)
  tick :
      (k : Kernel) (s : Sched)
      → scheduler_tick k.disk.sched ≡ ok s
      → Step jump_userspace task_init k (with_sched k s)
  switch :
      (k : Kernel) (i esp0 : ℕ) (task : Task) (s : Sched)
      → get_elem? k.disk.sched.tasks i ≡ some task
      → is_running task.state ≡ true
      → switch_to i k.disk.sched ≡ ok (esp0, s)
      → Step jump_userspace task_init k (with_sched k s)
  read :
      (k : Kernel) (buf lba seccount ret : ℕ) (d : Disk)
      → ata_read buf lba seccount k.disk ≡ ok (ret, d)
      → Step jump_userspace task_init k (record k { disk = d })
  transfer :
      (k : Kernel) (words : ℕ → ℕ) (d : Disk)
      → ata_process_request words k.disk ≡ ok d
      → Step jump_userspace task_init k (record k { disk = d })
  call :
      (k k' : Kernel) (sector regs : ℕ)
      → syscall_irq sector regs k ≡ ok k'
      → Step jump_userspace task_init k k'

pub data Reach (jump_userspace task_init : ℕ) : Kernel → Kernel → Type 0 where
  here : (k : Kernel) → Reach jump_userspace task_init k k
  more :
      (k l m : Kernel)
      → Reach jump_userspace task_init k l
      → Step jump_userspace task_init l m
      → Reach jump_userspace task_init k m
