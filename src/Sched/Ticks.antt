-- ===== src/Sched/Ticks.antt =====
-- The timer: a task that waits is woken after the ticks it has asked for.
use low_flex_programming.Base.{
  ℕ, zero, suc, ◌+◌, ◌-◌, ◌^◌, ◌≤◌, ◌<◌, ◌≡◌, refl, ap, ap₂, ◌∙◌, List, [], ◌∷◌, ltb, if◌then◌else◌,
  Option, none, some, get_elem?, Run, ok, ◌>>=◌, arith, lt→ltb,
}
use low_flex_programming.Paging.{Pages}
use low_flex_programming.Sched.{
  Task, running, waiting, is_waiting, Sched, tick_task, tick_tasks, scheduler_tick, reschedule,
}

tick_fields :
    (tasks : List Task) (current : Option ℕ) (pages : Pages)
    → scheduler_tick (record { tasks = tasks; current = current; pages = pages })
      ≡ ok (record { tasks = tick_tasks tasks; current = none; pages = pages })
unfolding scheduler_tick reschedule
tick_fields tasks none pages = refl
tick_fields tasks (some i) pages = refl

-- Whether or not a task is current, a tick returns, and no task is current behind it.
pub scheduler_tick_lem :
    (s : Sched) → scheduler_tick s ≡ ok (record s { tasks = tick_tasks s.tasks; current = none })
scheduler_tick_lem s = tick_fields s.tasks s.current s.pages

-- A run of ticks with no other step between them.
pub ticks : ℕ → Sched → Run Sched
ticks zero s = ok s
ticks (suc n) s = do s' ← scheduler_tick s; ticks n s'

abbrev pub ticked : Option Task → Option Task
ticked none = none
ticked (some task) = some (tick_task task)

pub get_elem?-tick :
    (tasks : List Task) (i : ℕ) → get_elem? (tick_tasks tasks) i ≡ ticked (get_elem? tasks i)
unfolding tick_tasks
get_elem?-tick [] i = refl
get_elem?-tick (t ∷ tasks) zero = refl
get_elem?-tick (t ∷ tasks) (suc i) = get_elem?-tick tasks i

-- A task that waits for `n` ticks, with `k` of them gone.
abbrev pub after : ℕ → ℕ → Task → Task
after n k task =
    if ltb k n
    then record task { ticks_remaining = n - k; state = waiting }
    else record task { ticks_remaining = 0; state = running }

tick_after :
    (n k : ℕ) (task : Task) → k < n → n < 2 ^ 31 → tick_task (after n k task) ≡ after n (k + 1) task
unfolding tick_task is_waiting
tick_after n k task lt small = ground arith

ticks_from :
    (n k j i : ℕ) (task : Task) (s : Sched)
    → n < 2 ^ 31
    → j + k ≤ n
    → get_elem? s.tasks i ≡ some (after n j task)
    → (s' : Sched) × (ticks k s ≡ ok s') × (get_elem? s'.tasks i ≡ some (after n (j + k) task))
unfolding ticks
ticks_from n zero j i task s small le e =
    let j0 : j ≡ j + 0 = omega arith in (s, refl, e ∙ ap (λ m. some (after n m task)) j0)
ticks_from n (suc k) j i task s small le e =
    let next : Sched = record s { tasks = tick_tasks s.tasks; current = none } in
    let here =
      get_elem?-tick s.tasks i ∙ ap ticked e ∙ ap some (tick_after n j task (omega arith) small) in
    let (s', run, there) = ticks_from n k (j + 1) i task next small (omega arith) here in
    let j1 : j + 1 + k ≡ j + suc k = omega arith in
    (
      s',
      ap (λ r. r >>= ticks k) (scheduler_tick_lem s) ∙ run,
      there ∙ ap (λ m. some (after n m task)) j1,
    )

-- A task that waits for `n` ticks is still waiting after fewer of them, the ticks left counted down,
-- and it is runnable after exactly `n`.
pub ticks-after :
    (n k i : ℕ) (task : Task) (s : Sched)
    → 0 < n
    → n < 2 ^ 31
    → k ≤ n
    → task.state ≡ waiting
    → task.ticks_remaining ≡ n
    → get_elem? s.tasks i ≡ some task
    → (s' : Sched) × (ticks k s ≡ ok s') × (get_elem? s'.tasks i ≡ some (after n k task))
unfolding ticks
ticks-after n k i task s pos small le w r e =
    let n0 : n ≡ n - 0 = omega arith in
    let k0 : 0 + k ≡ k = omega arith in
    let start : task ≡ after n 0 task =
      rw (lt→ltb 0 n pos)
        (ap₂ (λ x y. record task { ticks_remaining = x; state = y }) (r ∙ n0) w) in
    let (s', run, there) = ticks_from n k 0 i task s small (omega arith) (e ∙ ap some start) in
    (s', run, there ∙ ap (λ m. some (after n m task)) k0)
