-- ===== src/Sched/Examples.antt =====
-- The scheduler on small tables of tasks.
use low_flex_programming.Base.{
  ℕ, true, ◌+◌, ◌-◌, ◌<◌, ◌≤◌, ◌≡◌, refl, List, [], ◌∷◌, none, some, get_elem?, ok, arith, minus32,
  replicate,
}
use low_flex_programming.Paging.{Pages}
use low_flex_programming.Sched.{
  Task, TaskState, not_allocated, running, waiting, disk_read, Sched, task_allocate, enomem,
  is_not_allocated, scheduler_round,
}
use low_flex_programming.Sched.Allocate.{
  named, fresh_task, UserFrame, task_allocate-first, task_allocate-enomem,
}
use low_flex_programming.Sched.Ticks.{ticks, after, ticks-after}
use low_flex_programming.Frame
use low_flex_programming.Sched.Start.{
  start_init, start_rounds, after_rounds, start_init-user, start_rounds-returns,
}
use low_flex_programming.Sched.Round.{served, any_running, scheduler_round-served}

abbrev blank : TaskState → Task
blank state = record {
  pid = 0;
  state = state;
  context = record { esp = 0; ebp = 0; esi = 0; edi = 0; ebx = 0 };
  regs = 0;
  kstack = 0;
  ticks_remaining = 3;
  exitcode = 0;
}

abbrev pages : ℕ → Pages
pages head = record { memory = λ a. 0; freelist_head = head; kernel_pgdir = 0 }

-- The first slot is taken.
abbrev table : List Task
table = blank waiting ∷ blank not_allocated ∷ []

abbrev idle : ℕ → Sched
idle head = record { tasks = table; current = none; pages = pages head }

task_allocate-first_example :
    (s' : Sched) × (task_allocate 11 22 (idle 0xc0300000) ≡ ok (0, some 1, s'))
    × (s'.tasks ≡ blank waiting ∷ fresh_task 2 0xc0300000 (blank not_allocated) ∷ [])
    × (s'.current ≡ none)
    × (s'.pages.freelist_head ≡ 0)
    × UserFrame s'.pages.memory (0xc0300000 + 4096 - 60) 0 11 22
    × ((a : ℕ) → a < 0xc0300000 → s'.pages.memory a ≡ 0)
    × ((a : ℕ) → 0xc0300000 + 4096 ≤ a → s'.pages.memory a ≡ 0)
unfolding is_not_allocated
task_allocate-first_example =
    task_allocate-first 11 22 (blank waiting ∷ []) [] (blank not_allocated) (idle 0xc0300000)
      0xc0300000 refl (refl, tt) refl refl (λ e. absurd (omega arith))

task_allocate-enomem_example :
    task_allocate 11 22 (idle 0)
    ≡ ok (
      minus32 enomem,
      none,
      record (idle 0) {
        tasks = blank waiting ∷ record (named 2 (blank not_allocated)) { kstack = 0 } ∷ [];
      },
    )
unfolding is_not_allocated
task_allocate-enomem_example =
    task_allocate-enomem 11 22 (blank waiting ∷ []) [] (blank not_allocated) (idle 0) refl
      (refl, tt) refl refl

abbrev busy : Sched
busy = record { tasks = blank running ∷ blank disk_read ∷ []; current = some 0; pages = pages 4096 }

ticks-after_example :
    (s' : Sched) × (ticks 2 (idle 0) ≡ ok s')
    × (get_elem? s'.tasks 0 ≡ some (after 3 2 (blank waiting)))
ticks-after_example =
    ticks-after 3 2 0 (blank waiting) (idle 0) (omega arith) (omega arith) (omega arith) refl refl
      refl

-- A full table with two runnable tasks; a task that runs puts the stack it was given into the
-- memory's place for the directory.
abbrev full_table : Sched
full_table = record {
  tasks = blank running ∷ blank waiting ∷ blank running ∷ replicate 253 (blank not_allocated);
  current = none;
  pages = pages 0;
}

abbrev mark : ℕ → Sched → Sched
mark esp0 s = record s { pages = record s.pages { kernel_pgdir = esp0 }; current = none }

scheduler_round-served_example :
    scheduler_round mark full_table
    ≡ ok (any_running mark full_table.tasks, served mark full_table.tasks 0 full_table)
scheduler_round-served_example = scheduler_round-served mark full_table (λ esp0 s. refl) refl

-- A table whose first slot is free.
abbrev fresh : Sched
fresh = record { tasks = blank not_allocated ∷ []; current = none; pages = pages 0xc0300000 }

start_init-user_example :
    (s' : Sched) × (start_init 11 22 33 fresh ≡ ok s')
    × (s'.tasks ≡ fresh_task 1 0xc0300000 (blank not_allocated) ∷ [])
    × (let m = s'.pages.memory in
        let init = fresh_task 1 0xc0300000 (blank not_allocated) in
        UserFrame m init.regs 33 11 22
        × (Frame.is_userspace m init.regs ≡ true)
        × (m init.context.esp ≡ 22)
        × (m (init.context.esp + 4) ≡ 11))
unfolding is_not_allocated
start_init-user_example =
    start_init-user 11 22 33 0xc0300000 (blank not_allocated) [] fresh refl refl refl
      (λ e. absurd (omega arith))

start_rounds-returns_example :
    start_rounds mark (λ s. s) 5 full_table ≡ ok (after_rounds mark (λ s. s) 5 full_table)
start_rounds-returns_example =
    start_rounds-returns mark (λ s. s) 5 full_table (λ esp0 s. refl) (λ s. refl) refl
