-- ===== src/Sched/Allocate.antt =====
-- `task_allocate`: which slot it takes, and what becomes of it on every branch.
use low_flex_programming.Base.{
  ℕ, zero, suc, ◌+◌, ◌-◌, ◌*◌, ◌^◌, ◌<◌, ◌≤◌, ◌≡◌, ◌≢◌, refl, ap, ◌∙◌, List, [], ◌∷◌, ◌++◌, true,
  false, ◌==◌, none, some, get_elem?, set, length, ok, minus32, arith, get_elem?-middle, set-middle,
  ne→==, eq→==,
}
use low_flex_programming.Common.{Memory, write}
use low_flex_programming.Paging.{kalloc, clear_words}
use low_flex_programming.Paging.Translate.{write_other}
use low_flex_programming.Sched.{
  Task, running, is_not_allocated, Sched, task_setup, allocate_loop, task_allocate, ready,
  first_frame, write_low, write_high, kernel_stack_size, eagain, enomem,
}
use low_flex_programming.Frame

-- Every slot is taken.
abbrev pub Busy : List Task → Type 0
Busy [] = Unit
Busy (task ∷ tasks) = (is_not_allocated task.state ≡ false) × Busy tasks

abbrev pub named : ℕ → Task → Task
named pid task = record task { pid = pid; state = running }

-- A task that has not run yet, on a stack of its own: its frame is at the stack's end, with the two
-- addresses to return to beneath it.
abbrev pub fresh_task : (pid page : ℕ) → Task → Task
fresh_task pid page slot = record {
  pid = pid;
  state = running;
  context = record {
    esp = page + 4096 - 60 - 8;
    ebp = page + 4096 - 60 - 8;
    esi = 0;
    edi = 0;
    ebx = 0;
  };
  regs = page + 4096 - 60;
  kstack = page;
  ticks_remaining = slot.ticks_remaining;
  exitcode = slot.exitcode;
}

-- A frame that returns to user code at `eip`: the code segment is the fourth entry of the table, the
-- data segments the fifth, each with the rights of user code, interrupts are on, and the seven general
-- registers are 0. Beneath it are the two addresses.
abbrev pub UserFrame : (m : Memory) (regs eip jump_userspace task_init : ℕ) → Type 0
UserFrame m regs eip jump_userspace task_init =
    ((i : ℕ) → i < 7 → m (regs + 4 * i) ≡ 0)
    × (m (regs + 28) ≡ 0x230023)
    × (m (regs + 32) ≡ 0x230023)
    × (m (regs + 40) ≡ eip)
    × (m (regs + 44) ≡ 0x1b)
    × (m (regs + 48) ≡ 2 ^ 9)
    × (m (regs + 56) ≡ 0x23)
    × (m (regs - 4) ≡ jump_userspace)
    × (m (regs - 8) ≡ task_init)

first_frame-UserFrame :
    (jump_userspace task_init regs : ℕ) (m : Memory)
    → 8 ≤ regs
    → UserFrame (first_frame jump_userspace task_init regs m) regs 0 jump_userspace task_init
unfolding first_frame write write_low write_high clear_words
first_frame-UserFrame jump_userspace task_init regs m h = (
  λ i lt. ground arith,
  ground arith,
  ground arith,
  ground arith,
  ground arith,
  ground arith,
  ground arith,
  ground arith,
  ground arith,
)

clear_words-under : (n p a : ℕ) (m : Memory) → a < p → clear_words n p m a ≡ m a
unfolding clear_words
clear_words-under zero p a m lt = refl
clear_words-under (suc n) p a m lt =
    clear_words-under n (p + 4) a (write m p 0) (omega arith)
    ∙ write_other m p 0 a (λ e. absurd (omega (arith, e)))

clear_words-over : (n p a : ℕ) (m : Memory) → p + 4 * n ≤ a → clear_words n p m a ≡ m a
unfolding clear_words
clear_words-over zero p a m le = refl
clear_words-over (suc n) p a m le =
    clear_words-over n (p + 4) a (write m p 0) (omega arith)
    ∙ write_other m p 0 a (λ e. absurd (omega (arith, e)))

-- The frame and the two addresses are all that is written.
first_frame-kept :
    (jump_userspace task_init regs a : ℕ) (m : Memory)
    → ((i : ℕ) → i < 68 → a + 8 ≢ regs + i)
    → clear_words 15 regs m a ≡ m a
    → 8 ≤ regs
    → first_frame jump_userspace task_init regs m a ≡ m a
unfolding first_frame write_low write_high
first_frame-kept jump_userspace task_init regs a m apart cleared room =
    write_other _ (regs - 8) task_init a (λ e. apart 0 (omega arith) (omega (arith, e)))
    ∙ write_other _ (regs - 4) jump_userspace a (λ e. apart 4 (omega arith) (omega (arith, e)))
    ∙ write_other _ (regs + 48) (2 ^ 9) a (λ e. apart 56 (omega arith) (omega (arith, e)))
    ∙ write_other _ (regs + 56) 0x23 a (λ e. apart 64 (omega arith) (omega (arith, e)))
    ∙ write_other _ (regs + 28) _ a (λ e. apart 36 (omega arith) (omega (arith, e)))
    ∙ write_other _ (regs + 28) _ a (λ e. apart 36 (omega arith) (omega (arith, e)))
    ∙ write_other _ (regs + 32) _ a (λ e. apart 40 (omega arith) (omega (arith, e)))
    ∙ write_other _ (regs + 32) _ a (λ e. apart 40 (omega arith) (omega (arith, e)))
    ∙ write_other _ (regs + 44) 0x1b a (λ e. apart 52 (omega arith) (omega (arith, e)))
    ∙ cleared

-- The address of the first instruction, written into the frame.
pub UserFrame-eip :
    (m : Memory) (regs eip jump_userspace task_init : ℕ)
    → 8 ≤ regs
    → UserFrame m regs 0 jump_userspace task_init
    → UserFrame (write m (regs + 40) eip) regs eip jump_userspace task_init
unfolding write
UserFrame-eip m regs eip jump_userspace task_init h f = (
  λ i lt. ground (arith, f.0 i lt),
  ground (arith, f.1),
  ground (arith, f.2),
  ground arith,
  ground (arith, f.4),
  ground (arith, f.5),
  ground (arith, f.6),
  ground (arith, f.7),
  ground (arith, f.8),
)

module _ (jump_userspace task_init : ℕ) where
  skip-Busy :
      (before rest : List Task) (i : ℕ) (s : Sched)
      → Busy before
      → allocate_loop jump_userspace task_init (before ++ rest) i s
        ≡ allocate_loop jump_userspace task_init rest (length before + i) s
  unfolding allocate_loop
  skip-Busy [] rest i s h = ap (λ n. allocate_loop jump_userspace task_init rest n s) (omega arith)
  skip-Busy (task ∷ before) rest i s h = rw h.0 (
      skip-Busy before rest (i + 1) s h.1
      ∙ ap (λ n. allocate_loop jump_userspace task_init rest n s) (omega arith))

  full_loop :
      (tasks : List Task) (i : ℕ) (s : Sched)
      → Busy tasks
      → allocate_loop jump_userspace task_init tasks i s ≡ ok (minus32 eagain, none, s)
  unfolding allocate_loop
  full_loop [] i s h = refl
  full_loop (task ∷ tasks) i s h = rw h.0 (full_loop tasks (i + 1) s h.1)

  -- The search comes to the first slot that is not allocated.
  reach_slot :
      (before rest : List Task) (slot : Task) (s : Sched)
      → s.tasks ≡ before ++ slot ∷ rest
      → Busy before
      → task_allocate jump_userspace task_init s
        ≡ allocate_loop jump_userspace task_init (slot ∷ rest) (length before) s
  unfolding task_allocate
  reach_slot before rest slot s e busy =
      ap (λ tasks. allocate_loop jump_userspace task_init tasks 0 s) e
      ∙ skip-Busy before (slot ∷ rest) 0 s busy
      ∙ ap (λ n. allocate_loop jump_userspace task_init (slot ∷ rest) n s) (omega arith)

  setup_slot :
      (before rest : List Task) (slot : Task) (s : Sched)
      → s.tasks ≡ before ++ slot ∷ rest
      → get_elem? s.tasks (length before + 1 - 1) ≡ some slot
  setup_slot before rest slot s e =
      let i : length before + 1 - 1 ≡ length before = omega arith in
      rw (e, i) (get_elem?-middle before slot rest)

  set_slot :
      (before rest : List Task) (slot new : Task) (s : Sched)
      → s.tasks ≡ before ++ slot ∷ rest
      → set s.tasks (length before + 1 - 1) new ≡ before ++ new ∷ rest
  set_slot before rest slot new s e =
      let i : length before + 1 - 1 ≡ length before = omega arith in
      rw (e, i) (set-middle before slot new rest)

  -- With every slot taken, `task_allocate` returns -EAGAIN and changes nothing.
  pub task_allocate-full :
      (s : Sched)
      → Busy s.tasks
      → task_allocate jump_userspace task_init s ≡ ok (minus32 eagain, none, s)
  unfolding task_allocate allocate_loop
  task_allocate-full s h = full_loop s.tasks 0 s h

  -- The state behind an allocation with a page, in the terms of the code.
  pub task_allocate-slot :
      (before rest : List Task) (slot : Task) (s : Sched) (page : ℕ)
      → s.tasks ≡ before ++ slot ∷ rest
      → Busy before
      → is_not_allocated slot.state ≡ true
      → s.pages.freelist_head ≡ page
      → page ≢ 0
      → task_allocate jump_userspace task_init s
        ≡ ok (
          0,
          some (length before),
          record {
            tasks = before ++ ready page (named (length before + 1) slot) ∷ rest;
            current = s.current;
            pages = record {
              memory =
                  first_frame jump_userspace task_init
                    (page + kernel_stack_size - Frame.size)
                    s.pages.memory;
              freelist_head = s.pages.memory page;
              kernel_pgdir = s.pages.kernel_pgdir;
            };
          },
        )
  unfolding task_allocate task_setup allocate_loop kalloc ready
  task_allocate-slot before rest slot s page e busy spare head ne =
      reach_slot before rest slot s e busy
      ∙ (let some_page : (s.pages.freelist_head == 0) ≡ false = rw head (ne→== page 0 ne) in
          rw
            (
              spare,
              setup_slot before rest slot s e,
              some_page,
              head,
              ne→== page 0 ne,
              set_slot before rest slot
                  (ready page (record (named (length before + 1) slot) { kstack = page })) s e,
            )
            refl)

  -- With a page on the free list, `task_allocate` returns 0 and the index of the first slot that is
  -- not allocated. The slot's pid is its index plus 1, it is runnable, its stack is the page, and its
  -- context is that of the frame made up at the stack's end: with the user's segments, interrupts on and
  -- no address yet. The page leaves the free list, no other slot changes, and no memory apart from the
  -- page.
  pub task_allocate-first :
      (before rest : List Task) (slot : Task) (s : Sched) (page : ℕ)
      → s.tasks ≡ before ++ slot ∷ rest
      → Busy before
      → is_not_allocated slot.state ≡ true
      → s.pages.freelist_head ≡ page
      → page ≢ 0
      → (s' : Sched) × (task_allocate jump_userspace task_init s ≡ ok (0, some (length before), s'))
        × (s'.tasks ≡ before ++ fresh_task (length before + 1) page slot ∷ rest)
        × (s'.current ≡ s.current)
        × (s'.pages.freelist_head ≡ s.pages.memory page)
        × UserFrame s'.pages.memory (page + 4096 - 60) 0 jump_userspace task_init
        × ((a : ℕ) → a < page → s'.pages.memory a ≡ s.pages.memory a)
        × ((a : ℕ) → page + 4096 ≤ a → s'.pages.memory a ≡ s.pages.memory a)
  unfolding ready
  task_allocate-first before rest slot s page e busy spare head ne =
      let regs = page + 4096 - 60 in
      let m' = first_frame jump_userspace task_init regs s.pages.memory in
      let kept = λ (a : ℕ). first_frame-kept jump_userspace task_init regs a s.pages.memory in
      (
        record {
          tasks = before ++ fresh_task (length before + 1) page slot ∷ rest;
          current = s.current;
          pages = record {
            memory = m';
            freelist_head = s.pages.memory page;
            kernel_pgdir = s.pages.kernel_pgdir;
          };
        },
        task_allocate-slot before rest slot s page e busy spare head ne,
        refl,
        refl,
        refl,
        first_frame-UserFrame jump_userspace task_init regs s.pages.memory (omega arith),
        λ a lt.
            kept a (λ i small e. absurd (omega (arith, e)))
              (clear_words-under 15 regs a s.pages.memory (omega arith)) (omega arith),
        λ a le.
            kept a (λ i small e. absurd (omega (arith, e)))
              (clear_words-over 15 regs a s.pages.memory (omega arith)) (omega arith),
      )

  -- Without a page, `task_allocate` returns -ENOMEM, and yet the slot is runnable from then on, with
  -- the stack NULL and the context it had.
  pub task_allocate-enomem :
      (before rest : List Task) (slot : Task) (s : Sched)
      → s.tasks ≡ before ++ slot ∷ rest
      → Busy before
      → is_not_allocated slot.state ≡ true
      → s.pages.freelist_head ≡ 0
      → task_allocate jump_userspace task_init s
        ≡ ok (
          minus32 enomem,
          none,
          record s {
            tasks = before ++ record (named (length before + 1) slot) { kstack = 0 } ∷ rest;
          },
        )
  unfolding task_allocate task_setup allocate_loop kalloc
  task_allocate-enomem before rest slot s e busy spare head =
      reach_slot before rest slot s e busy
      ∙ (let no_page : (s.pages.freelist_head == 0) ≡ true = eq→== s.pages.freelist_head 0 head in
          rw
            (
              spare,
              setup_slot before rest slot s e,
              no_page,
              head,
              set_slot before rest slot (record (named (length before + 1) slot) { kstack = 0 }) s
                  e,
            )
            refl)
