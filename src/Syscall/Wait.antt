-- ===== src/Syscall/Wait.antt =====
-- The call that waits, up to the tick that wakes its task.
use low_flex_programming.Base.{
  ℕ, zero, suc, ◌+◌, ◌^◌, ◌≤◌, ◌<◌, ◌≡◌, refl, ◌∙◌, List, [], ◌∷◌, true, false, ◌==◌, leb, ◌||◌,
  none, some, get_elem?, set, ok, arith,
}
use low_flex_programming.Frame
use low_flex_programming.Sched.{Task, waiting, Sched, reschedule}
use low_flex_programming.Sched.Ticks.{ticks, after, ticks-after}
use low_flex_programming.Syscall.{
  Kernel, frame_word, set_frame_word, with_sched, wait_as, syscall_wait, syscall_table,
  call_numbered, syscall_irq,
}
use low_flex_programming.Syscall.Dispatch.{syscall_irq-user}

get_elem?-set_there :
    (tasks : List Task) (i : ℕ) (old new : Task)
    → get_elem? tasks i ≡ some old
    → get_elem? (set tasks i new) i ≡ some new
get_elem?-set_there [] i old new e = ground arith
get_elem?-set_there (t ∷ tasks) zero old new e = refl
get_elem?-set_there (t ∷ tasks) (suc i) old new e = get_elem?-set_there tasks i old new e

-- The state behind the call from the task `i`: the task waits for its ticks, none is current, and
-- the result is 0.
abbrev pub waits : ℕ → ℕ → Task → Kernel → Kernel
waits regs i task k = set_frame_word (regs + Frame.eax) 0 (
    with_sched k (record k.disk.sched {
      tasks =
          set k.disk.sched.tasks i
            (record task { ticks_remaining = frame_word k (regs + Frame.ebx); state = waiting });
      current = none;
    }))

call_waits :
    (sector regs i : ℕ) (task : Task) (k : Kernel)
    → Frame.is_userspace k.disk.sched.pages.memory regs ≡ true
    → k.disk.sched.current ≡ some i
    → get_elem? k.disk.sched.tasks i ≡ some task
    → frame_word k (regs + Frame.eax) ≡ 0
    → 0 < frame_word k (regs + Frame.ebx)
    → frame_word k (regs + Frame.ebx) < 2 ^ 31
    → syscall_irq sector regs k ≡ ok (waits regs i task k)
unfolding call_numbered syscall_table syscall_wait wait_as reschedule
call_waits sector regs i task k user cur here number pos small =
    syscall_irq-user sector regs i k user cur
    ∙ (let n = frame_word k (regs + Frame.ebx) in
        let good : (n == 0 || leb (2 ^ 31) n) ≡ false = ground arith in
        rw (number, good, cur, here, cur) refl)

-- From user code, call 0 with a positive number of ticks puts the caller to sleep and lets the
-- scheduler go on: the task is still waiting after fewer ticks, and runnable after exactly as many.
pub syscall_irq-wakes :
    (sector regs i j : ℕ) (task : Task) (k : Kernel)
    → Frame.is_userspace k.disk.sched.pages.memory regs ≡ true
    → k.disk.sched.current ≡ some i
    → get_elem? k.disk.sched.tasks i ≡ some task
    → frame_word k (regs + Frame.eax) ≡ 0
    → 0 < frame_word k (regs + Frame.ebx)
    → frame_word k (regs + Frame.ebx) < 2 ^ 31
    → j ≤ frame_word k (regs + Frame.ebx)
    → (k' : Kernel) × (s : Sched) × (syscall_irq sector regs k ≡ ok k')
      × (k'.disk.sched.current ≡ none)
      × (ticks j k'.disk.sched ≡ ok s)
      × (get_elem? s.tasks i ≡ some (after (frame_word k (regs + Frame.ebx)) j task))
unfolding set_frame_word
syscall_irq-wakes sector regs i j task k user cur here number pos small le =
    let n = frame_word k (regs + Frame.ebx) in
    let asleep : Task = record task { ticks_remaining = n; state = waiting } in
    let k' : Kernel = waits regs i task k in
    let (s, run, there) =
      ticks-after n j i asleep k'.disk.sched pos small le refl refl
        (get_elem?-set_there k.disk.sched.tasks i task asleep here) in
    (k', s, call_waits sector regs i task k user cur here number pos small, refl, run, there)
