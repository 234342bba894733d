-- ===== src/Sched.antt =====
-- sched.c and sched.h, with the saved registers of irq.h and the timer's interrupt: the table of
-- tasks. A `struct task*` is an index of the table, and NULL is `none`. The switch of the stack
-- (`__switch_to`, in assembly) is not a step of its own: what a task does from its switch to the
-- next `reschedule` is an argument.
pub mod Allocate
pub mod Ticks
pub mod Round
pub mod Start
mod Examples
use low_flex_programming.Base.{
  ℕ, zero, suc, ◌+◌, ◌-◌, ◌*◌, ◌/◌, ◌%◌, ◌^◌, List, [], ◌∷◌, Bool, true, false, ◌==◌, ltb,
  if◌then◌else◌, Option, none, some, get_elem?, set, length, Run, ok, panic, fault, ◌>>=◌, checked,
  add32, sub32, minus32,
}
use low_flex_programming.Common.{Memory, write}
use low_flex_programming.Frame
use low_flex_programming.Paging.{Pages, kalloc, clear_words}
use low_flex_programming.Apic.{Lapic, apic_eoi}

abbrev pub max_tasks : ℕ
max_tasks = 256

abbrev pub kernel_stack_size : ℕ
kernel_stack_size = 4096

abbrev pub enomem : ℕ
enomem = 2

abbrev pub eagain : ℕ
eagain = 3

-- state_t
pub data TaskState : Type 0 where
  not_allocated running waiting disk_read : TaskState

unfoldable pub is_not_allocated : TaskState → Bool
is_not_allocated not_allocated = true
is_not_allocated running = false
is_not_allocated waiting = false
is_not_allocated disk_read = false

unfoldable pub is_running : TaskState → Bool
is_running not_allocated = false
is_running running = true
is_running waiting = false
is_running disk_read = false

unfoldable pub is_waiting : TaskState → Bool
is_waiting not_allocated = false
is_waiting running = false
is_waiting waiting = true
is_waiting disk_read = false

pub record Context : Type 0 where
  pub esp : ℕ
  pub ebp : ℕ
  pub esi : ℕ
  pub edi : ℕ
  pub ebx : ℕ

pub record Task : Type 0 where
  pub pid : ℕ
  pub state : TaskState
  pub context : Context
  pub regs : ℕ
  pub kstack : ℕ
  pub ticks_remaining : ℕ
  pub exitcode : ℕ

-- The kernel's state, as far as the scheduler goes.
pub record Sched : Type 0 where
  pub tasks : List Task
  pub current : Option ℕ
  pub pages : Pages

-- A write to a 16-bit half of the word at `a`, the low one or the high one.
unfoldable pub write_low : Memory → ℕ → ℕ → Memory
write_low m a v = write m a (m a / 2 ^ 16 * 2 ^ 16 + v)

unfoldable pub write_high : Memory → ℕ → ℕ → Memory
write_high m a v = write m a (v * 2 ^ 16 + m a % 2 ^ 16)

-- The frame that `task_setup` makes up at `regs`, and the two return addresses beneath it.
unfoldable pub first_frame : ℕ → ℕ → ℕ → Memory → Memory
first_frame jump_userspace task_init regs m =
    let m = clear_words 15 regs m in
    let m = write m (regs + Frame.cs) 0x1b in
    let m = write_high m (regs + Frame.es_ds) 0x23 in
    let m = write_low m (regs + Frame.es_ds) 0x23 in
    let m = write_high m (regs + Frame.gs_fs) 0x23 in
    let m = write_low m (regs + Frame.gs_fs) 0x23 in
    let m = write m (regs + Frame.ss) 0x23 in
    let m = write m (regs + Frame.eflags) (2 ^ 9) in
    let m = write m (regs - 4) jump_userspace in write m (regs - 8) task_init

-- The rest of `task_setup`, for a stack at `kstack`.
unfoldable pub ready : ℕ → Task → Task
ready kstack task =
    let regs = kstack + kernel_stack_size - Frame.size in
    record task {
      kstack = kstack;
      regs = regs;
      context = record { esp = regs - 8; ebp = regs - 8; esi = 0; edi = 0; ebx = 0 };
    }

-- The addresses of the two functions that are linked from assembly.
module _ (jump_userspace task_init : ℕ) where
  -- The returned `int` and the new state.
  pub task_setup : ℕ → Sched → Run (ℕ × Sched)
  task_setup pid s = do
    task ← checked (get_elem? s.tasks (pid - 1))
    let (kstack, pages) = kalloc s.pages
    let task' : Task = record task { pid = pid; state = running; kstack = kstack }
    let regs = kstack + kernel_stack_size - Frame.size
    if kstack == 0
        then ok (minus32 enomem, record s { tasks = set s.tasks (pid - 1) task'; pages = pages })
        else ok (
          0,
          record s {
            tasks = set s.tasks (pid - 1) (ready kstack task');
            pages = record pages {
              memory = first_frame jump_userspace task_init regs pages.memory;
            };
          },
        )

  -- The loop of `task_allocate`, by the slots that are left, from the slot `i` on.
  pub allocate_loop : List Task → ℕ → Sched → Run (ℕ × Option ℕ × Sched)
  allocate_loop [] i s = ok (minus32 eagain, none, s)
  allocate_loop (task ∷ rest) i s =
      let next = allocate_loop rest (i + 1) s in
      if is_not_allocated task.state
      then (do
        (err, s') ← task_setup (i + 1) s
        if err == 0 then ok (0, some i, s') else ok (err, none, s'))
      else next

  -- The returned `int`, what the caller's pointer is set to, and the new state.
  pub task_allocate : Sched → Run (ℕ × Option ℕ × Sched)
  task_allocate s = allocate_loop s.tasks 0 s

-- A task whose ticks have run out becomes runnable.
unfoldable pub tick_task : Task → Task
tick_task task =
    let t : Task = record task { ticks_remaining = sub32 task.ticks_remaining 1 } in
    if is_waiting task.state
    then (if t.ticks_remaining == 0 then record t { state = running } else t)
    else task

pub tick_tasks : List Task → List Task
tick_tasks [] = []
tick_tasks (task ∷ tasks) = tick_task task ∷ tick_tasks tasks

-- The current task stops being current, and the scheduler goes on.
unfoldable pub reschedule : Sched → Run Sched
reschedule s = elim s.current [ none ↦ panic | some i ↦ ok (record s { current = none }) ]

pub scheduler_tick : Sched → Run Sched
scheduler_tick s =
    let s' : Sched = record s { tasks = tick_tasks s.tasks } in
    elim s'.current [ none ↦ ok s' | some i ↦ reschedule s' ]

-- What the timer's interrupt changes.
pub record TimerState : Type 0 where
  pub timer_ticks : ℕ
  pub lapic : Lapic
  pub sched : Sched

pub timer_irq : TimerState → Run TimerState
timer_irq t = do
  let lapic = apic_eoi t.lapic
  sched ← scheduler_tick t.sched
  ok (record { timer_ticks = (t.timer_ticks + 1) % 2 ^ 64; lapic = lapic; sched = sched })

-- The scheduler's view of the processor: the task state segment's stack pointer.
unfoldable pub switch_to : ℕ → Sched → Run (ℕ × Sched)
switch_to i s = do
  task ← checked (get_elem? s.tasks i)
  ok (task.kstack + kernel_stack_size, record s { current = some i })

-- `run esp0 s` is the state when the task that is current in `s` has rescheduled.
module _ (run : ℕ → Sched → Sched) where
  -- The inner loop of `scheduler_start`, by the slots that are left: whether a task was found.
  pub round_loop : ℕ → ℕ → Bool → Sched → Run (Bool × Sched)
  round_loop zero i found s = ok (found, s)
  round_loop (suc slots) i found s = do
    task ← checked (get_elem? s.tasks i)
    if is_running task.state
        then (do (esp0, s') ← switch_to i s; round_loop slots (i + 1) true (run esp0 s'))
        else round_loop slots (i + 1) found s

  pub scheduler_round : Sched → Run (Bool × Sched)
  scheduler_round s = round_loop max_tasks 0 false s
