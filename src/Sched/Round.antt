-- ===== src/Sched/Round.antt =====
-- A round of the scheduler.
use low_flex_programming.Base.{
  ℕ, ◌+◌, ◌≡◌, refl, ap, ◌∙◌, List, [], ◌∷◌, ◌++◌, Bool, true, false, ◌||◌, if◌then◌else◌, some,
  get_elem?, length, ok, arith, get_elem?-middle, append_assoc, length-append, Bool-cases, inl, inr,
  subst, sym,
}
use low_flex_programming.Sched.{
  Task, is_running, Sched, switch_to, round_loop, scheduler_round, kernel_stack_size, max_tasks,
}

one_more : (before : List Task) (task : Task) → length (before ++ task ∷ []) ≡ length before + 1
one_more before task = length-append before (task ∷ [])

or_true : (b : Bool) → true ≡ b || true
or_true false = refl
or_true true = refl

module _ (run : ℕ → Sched → Sched) where
  -- The states of a round: every runnable task of `tasks`, whose first slot is `i`, is switched to
  -- once, in the order of the slots, each with its own stack.
  unfoldable pub served : List Task → ℕ → Sched → Sched
  served [] i s = s
  served (task ∷ tasks) i s = served tasks (i + 1) (
      if is_running task.state
      then run (task.kstack + kernel_stack_size) (record s { current = some i })
      else s)

  unfoldable pub any_running : List Task → Bool
  any_running [] = false
  any_running (task ∷ tasks) = is_running task.state || any_running tasks

  round_loop-served :
      ((esp0 : ℕ) (s : Sched) → (run esp0 s).tasks ≡ s.tasks)
      → (before tasks : List Task) (found : Bool) (s : Sched) → s.tasks ≡ before ++ tasks
      → round_loop run (length tasks) (length before) found s
        ≡ ok (found || any_running tasks, served tasks (length before) s)
  unfolding round_loop served any_running switch_to
  round_loop-served quiet before [] found s e = ground arith
  round_loop-served quiet before (task ∷ tasks) found s e =
      let here : get_elem? s.tasks (length before) ≡ some task =
        ap (λ l. get_elem? l (length before)) e ∙ get_elem?-middle before task tasks in
      let split : before ++ task ∷ tasks ≡ (before ++ task ∷ []) ++ tasks =
        sym (append_assoc before (task ∷ []) tasks) in
      let esp0 = task.kstack + kernel_stack_size in
      let s' : Sched = record s { current = some (length before) } in
      elim (Bool-cases (is_running task.state)) [
        | inl runs ↦
            rw (here, runs)
              (subst (from true (run esp0 s')) (one_more before task) (
                  round_loop-served quiet (before ++ task ∷ []) tasks true (run esp0 s')
                    (quiet esp0 s' ∙ e ∙ split))
                ∙ ap (λ b. ok (b, served tasks (length before + 1) (run esp0 s'))) (or_true found))
        | inr rests ↦
            rw (here, rests)
              (subst (from found s) (one_more before task)
                (round_loop-served quiet (before ++ task ∷ []) tasks found s (e ∙ split)))
      ]
    where
      from : Bool → Sched → ℕ → Type 0
      from f t n =
          round_loop run (length tasks) n f t ≡ ok (f || any_running tasks, served tasks n t)

  -- A full table, and tasks that leave the table as it is: a round switches once to each task that
  -- is runnable at its start, in the order of the slots and each on its own stack, and reports
  -- whether there was one.
  pub scheduler_round-served :
      (s : Sched)
      → ((esp0 : ℕ) (s : Sched) → (run esp0 s).tasks ≡ s.tasks)
      → length s.tasks ≡ max_tasks
      → scheduler_round run s ≡ ok (any_running s.tasks, served s.tasks 0 s)
  unfolding scheduler_round
  scheduler_round-served s quiet full =
      subst (λ n. round_loop run n 0 false s ≡ ok (any_running s.tasks, served s.tasks 0 s)) full
        (round_loop-served quiet [] s.tasks false s refl)
