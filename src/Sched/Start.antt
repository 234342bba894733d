-- ===== src/Sched/Start.antt =====
-- scheduler_start: the first task, and the endless loop by its rounds.
use low_flex_programming.Base.{
  ℕ, zero, suc, ◌+◌, ◌-◌, ◌≡◌, ◌≢◌, refl, ap, ◌∙◌, List, [], ◌∷◌, length, Bool, true, false, ◌==◌,
  if◌then◌else◌, some, get_elem?, Run, ok, panic, ◌>>=◌, checked, arith, not, ◌||◌, Bool-cases, inl,
  inr,
}
use low_flex_programming.Common.{write}
use low_flex_programming.Frame
use low_flex_programming.Sched.{
  Task, Sched, task_allocate, is_not_allocated, kernel_stack_size, scheduler_round, is_running,
  max_tasks,
}
use low_flex_programming.Sched.Allocate.{
  fresh_task, UserFrame, UserFrame-eip, task_allocate-first, task_allocate-enomem,
}
use low_flex_programming.Sched.Round.{served, any_running, scheduler_round-served}

-- A write to the frame of a task.
unfoldable pub set_frame : ℕ → ℕ → Sched → Sched
set_frame a v s = record s { pages = record s.pages { memory = write s.pages.memory a v } }

-- The first task, whose frame returns to `userspace_fn`.
unfoldable pub start_init : (jump_userspace task_init userspace_fn : ℕ) → Sched → Run Sched
start_init jump_userspace task_init userspace_fn s = do
  (err, init, s) ← task_allocate jump_userspace task_init s
  i ← if not (err == 0) then panic else checked init
  task ← checked (get_elem? s.tasks i)
  ok (set_frame (task.regs + Frame.eip) userspace_fn s)

-- `run` is what a task does until it reschedules, and `idle` the interrupt that ends the `hlt` of
-- `do_idle`.
module _ (run : ℕ → Sched → Sched) (idle : Sched → Sched) where
  unfoldable pub start_round : Sched → Run Sched
  start_round s = do (found, s) ← scheduler_round run s; ok (if not found then idle s else s)

  -- The first `n` rounds of the endless loop.
  unfoldable pub start_rounds : ℕ → Sched → Run Sched
  start_rounds zero s = ok s
  start_rounds (suc n) s = do s ← start_round s; start_rounds n s

-- With the first slot free and a page on the free list: `start_init` returns, the first task is number 1
-- and runnable on that page, and its frame returns to user code at `userspace_fn`, with interrupts on
-- and the user's segments. The switch to it goes through `task_init` and then `__jump_userspace`, which
-- its stack pointer finds one behind the other.
pub start_init-user :
    (jump_userspace task_init userspace_fn page : ℕ) (slot : Task) (rest : List Task) (s : Sched)
    → s.tasks ≡ slot ∷ rest
    → is_not_allocated slot.state ≡ true
    → s.pages.freelist_head ≡ page
    → page ≢ 0
    → (s' : Sched) × (start_init jump_userspace task_init userspace_fn s ≡ ok s')
      × (s'.tasks ≡ fresh_task 1 page slot ∷ rest)
      × (let m = s'.pages.memory in
          let init = fresh_task 1 page slot in
          UserFrame m init.regs userspace_fn jump_userspace task_init
          × (Frame.is_userspace m init.regs ≡ true)
          × (m init.context.esp ≡ task_init)
          × (m (init.context.esp + 4) ≡ jump_userspace))
unfolding start_init set_frame Frame.is_userspace
start_init-user jump_userspace task_init userspace_fn page slot rest s tasks spare head ne =
    let (s', run, table, current, free, made, under, over) =
      task_allocate-first jump_userspace task_init [] rest slot s page tasks tt spare head ne in
    let regs = page + 4096 - 60 in
    let frame =
      UserFrame-eip s'.pages.memory regs userspace_fn jump_userspace task_init (omega arith) made in
    let beneath : regs - 8 + 4 ≡ regs - 4 = omega arith in
    (
      set_frame (regs + 40) userspace_fn s',
      rw (run, table) refl,
      table,
      (frame, rw (frame.4) refl, frame.8, rw beneath frame.7),
    )

-- Without a page for its stack, there is no first task, and the kernel panics.
pub start_init-panic :
    (jump_userspace task_init userspace_fn : ℕ) (slot : Task) (rest : List Task) (s : Sched)
    → s.tasks ≡ slot ∷ rest
    → is_not_allocated slot.state ≡ true
    → s.pages.freelist_head ≡ 0
    → start_init jump_userspace task_init userspace_fn s ≡ panic
unfolding start_init
start_init-panic jump_userspace task_init userspace_fn slot rest s tasks spare head =
    rw (task_allocate-enomem jump_userspace task_init [] rest slot s tasks tt spare head) refl

both_false : (a b : Bool) → a || b ≡ false → (a ≡ false) × (b ≡ false)
both_false false b e = (refl, e)
both_false true b e = absurd (cc)

module _ (run : ℕ → Sched → Sched) (idle : Sched → Sched) where
  switched-tasks :
      (runs : Bool) (esp0 i : ℕ) (s : Sched)
      → ((esp0 : ℕ) (s : Sched) → (run esp0 s).tasks ≡ s.tasks)
      → (if runs then run esp0 (record s { current = some i }) else s).tasks ≡ s.tasks
  switched-tasks true esp0 i s quiet = quiet esp0 (record s { current = some i })
  switched-tasks false esp0 i s quiet = refl

  served-tasks :
      (tasks : List Task) (i : ℕ) (s : Sched)
      → ((esp0 : ℕ) (s : Sched) → (run esp0 s).tasks ≡ s.tasks)
      → (served run tasks i s).tasks ≡ s.tasks
  unfolding served
  served-tasks [] i s quiet = refl
  served-tasks (task ∷ tasks) i s quiet =
      served-tasks tasks (i + 1) _ quiet
      ∙ switched-tasks (is_running task.state) (task.kstack + kernel_stack_size) i s quiet

  -- Without a runnable task, a round serves none.
  served-none :
      (tasks : List Task) (i : ℕ) (s : Sched)
      → any_running run tasks ≡ false
      → served run tasks i s ≡ s
  unfolding served any_running
  served-none [] i s none_runs = refl
  served-none (task ∷ tasks) i s none_runs =
      let (rests, others) = both_false (is_running task.state) (any_running run tasks) none_runs in
      rw rests (served-none tasks (i + 1) s others)

  -- What a round is to do: serve the tasks that are runnable, each once and in order, and wait for an
  -- interrupt only if there is none.
  unfoldable pub after_round : Sched → Sched
  after_round s = if any_running run s.tasks then served run s.tasks 0 s else idle s

  unfoldable pub after_rounds : ℕ → Sched → Sched
  after_rounds zero s = s
  after_rounds (suc n) s = after_rounds n (after_round s)

  start_round-served :
      (s : Sched)
      → ((esp0 : ℕ) (s : Sched) → (run esp0 s).tasks ≡ s.tasks)
      → length s.tasks ≡ max_tasks
      → start_round run idle s ≡ ok (after_round s)
  unfolding start_round after_round
  start_round-served s quiet full = elim (Bool-cases (any_running run s.tasks)) [
    | inl found ↦ rw (scheduler_round-served run s quiet full, found) refl
    | inr none_runs ↦
        rw (scheduler_round-served run s quiet full, none_runs, served-none s.tasks 0 s none_runs)
          refl
  ]

  after_round-length :
      (s : Sched)
      → ((esp0 : ℕ) (s : Sched) → (run esp0 s).tasks ≡ s.tasks)
      → ((s : Sched) → length (idle s).tasks ≡ length s.tasks)
      → length (after_round s).tasks ≡ length s.tasks
  unfolding after_round
  after_round-length s quiet still = elim (Bool-cases (any_running run s.tasks)) [
    | inl found ↦ rw found (ap length (served-tasks s.tasks 0 s quiet))
    | inr none_runs ↦ rw none_runs (still s)
  ]

  -- With a full table, tasks that leave the table as it is, and interrupts that leave its length: the
  -- loop of `scheduler_start` goes on for ever. Any number of its rounds returns, and in each of them
  -- every task that is runnable at its start has been switched to once, in the order of the slots, or
  -- the processor has waited for an interrupt, exactly if no task was runnable.
  pub start_rounds-returns :
      (n : ℕ) (s : Sched)
      → ((esp0 : ℕ) (s : Sched) → (run esp0 s).tasks ≡ s.tasks)
      → ((s : Sched) → length (idle s).tasks ≡ length s.tasks)
      → length s.tasks ≡ max_tasks
      → start_rounds run idle n s ≡ ok (after_rounds n s)
  unfolding start_rounds after_rounds
  start_rounds-returns zero s quiet still full = refl
  start_rounds-returns (suc n) s quiet still full =
      ap (λ r. r >>= start_rounds run idle n) (start_round-served s quiet full)
      ∙ start_rounds-returns n (after_round s) quiet still (after_round-length s quiet still ∙ full)
