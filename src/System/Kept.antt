-- ===== src/System/Kept.antt =====
-- The scheduler's steps keep the invariant.
use low_flex_programming.Base.{
  ℕ, ◌≡◌, refl, ap, ◌∙◌, sym, subst, List, [], ◌∷◌, ◌++◌, length, Bool-cases, inl, inr, true, false,
  ◌==◌, Option, some, get_elem?, ok, arith, get_elem?-set_ne, get_elem?-middle, set-middle, ◌⊎◌,
  ==→eq, ==→ne,
}
use low_flex_programming.Base.Inversion.{ok_inj}
use low_flex_programming.Sched.{
  Task, TaskState, not_allocated, running, waiting, disk_read, is_not_allocated, is_running,
  is_waiting, Sched, task_allocate, tick_task, tick_tasks, scheduler_tick, switch_to,
}
use low_flex_programming.Sched.Allocate.{
  Busy, task_allocate-full, task_allocate-slot, task_allocate-enomem,
}
use low_flex_programming.Sched.Ticks.{ticked, get_elem?-tick, scheduler_tick_lem}
use low_flex_programming.Ata.{Request}
use low_flex_programming.System.Tasks.{InState, Waiting, Waiting-mono, state_of}

-- The task that is current is runnable; the requests are those of different tasks that wait for the disk.
pub record SoundSched (s : Sched) (queue : List Request) : Type 0 where
  pub current_runs : (i : ℕ) → s.current ≡ some i → InState s.tasks i running
  pub requests_wait : Waiting s.tasks queue

tick_disk_read : (task : Task) → task.state ≡ disk_read → tick_task task ≡ task
unfolding tick_task is_waiting
tick_disk_read task e = rw e refl

pub tick-Sound :
    (s s' : Sched) (queue : List Request)
    → scheduler_tick s ≡ ok s'
    → SoundSched s queue
    → SoundSched s' queue
tick-Sound s s' queue e h =
    let result = ok_inj _ _ (sym (scheduler_tick_lem s) ∙ e) in
    subst (λ t. SoundSched t queue) result
      (record {
        current_runs = λ i c. absurd (cc);
        requests_wait =
            Waiting-mono s.tasks (tick_tasks s.tasks) queue
              (λ i (task, at, state). (
                task,
                get_elem?-tick s.tasks i ∙ ap ticked at ∙ ap some (tick_disk_read task state),
                state,
              ))
              h.requests_wait;
      })

is_running-eq : (state : TaskState) → is_running state ≡ true → state ≡ running
unfolding is_running
is_running-eq not_allocated e = absurd (cc)
is_running-eq running e = refl
is_running-eq waiting e = absurd (cc)
is_running-eq disk_read e = absurd (cc)

some_inj : (i j : ℕ) → some i ≡ some j → i ≡ j
some_inj i j e = ground arith

pub switch-Sound :
    (s s' : Sched) (queue : List Request) (i esp0 : ℕ) (task : Task)
    → get_elem? s.tasks i ≡ some task
    → is_running task.state ≡ true
    → switch_to i s ≡ ok (esp0, s')
    → SoundSched s queue
    → SoundSched s' queue
unfolding switch_to
switch-Sound s s' queue i esp0 task at runs e h =
    let done = rw at at e in
    let result : record s { current = some i } ≡ s' = ap (λ p. p.1) (ok_inj _ _ done) in
    subst (λ t. SoundSched t queue) result
      (record {
        current_runs = λ j c.
            subst (λ n. InState s.tasks n running) (some_inj i j c)
              (task, at, is_running-eq task.state runs);
        requests_wait = h.requests_wait;
      })

-- A slot that was free may take any task.
slot-InState :
    (before rest : List Task) (slot new : Task) (state : TaskState) (i : ℕ)
    → is_not_allocated slot.state ≡ true
    → is_not_allocated state ≡ false
    → InState (before ++ slot ∷ rest) i state
    → InState (before ++ new ∷ rest) i state
slot-InState before rest slot new state i spare other (task, at, e) =
    let here : i ≡ length before → ⊥ = λ same.
      let it : some slot ≡ some task =
        sym (get_elem?-middle before slot rest)
        ∙ ap (get_elem? (before ++ slot ∷ rest)) (sym same)
        ∙ at in
      let free : is_not_allocated state ≡ true =
        ap is_not_allocated (sym e) ∙ sym (ap (λ o. is_not_allocated (state_of o)) it) ∙ spare in
      absurd (cc) in
    (
      task,
      ap (λ l. get_elem? l i) (sym (set-middle before slot new rest))
          ∙ get_elem?-set_ne (before ++ slot ∷ rest) (length before) i new (λ n. here (sym n))
          ∙ at,
      e,
    )

slot-Sound :
    (before rest : List Task) (slot new : Task) (s s' : Sched) (queue : List Request)
    → s.tasks ≡ before ++ slot ∷ rest
    → is_not_allocated slot.state ≡ true
    → s'.tasks ≡ before ++ new ∷ rest
    → s'.current ≡ s.current
    → SoundSched s queue
    → SoundSched s' queue
unfolding is_not_allocated
slot-Sound before rest slot new s s' queue was spare now current h =
    let keeps : (state : TaskState)
        → is_not_allocated state ≡ false
        → (i : ℕ) → InState s.tasks i state
        → InState s'.tasks i state =
      λ state other i t.
        subst (λ l. InState l i state) (sym now)
          (slot-InState before rest slot new state i spare other
            (subst (λ l. InState l i state) was t)) in
    record {
      current_runs = λ i c. keeps running refl i (h.current_runs i (sym current ∙ c));
      requests_wait = Waiting-mono s.tasks s'.tasks queue (keeps disk_read refl) h.requests_wait;
    }

-- Whether a slot is free, and the first one that is.
free_slot :
    (tasks : List Task)
    → Busy tasks
      ⊎ ((before : List Task) × (slot : Task) × (rest : List Task) × (tasks ≡ before ++ slot ∷ rest)
          × Busy before
          × (is_not_allocated slot.state ≡ true))
free_slot [] = inl tt
free_slot (task ∷ tasks) = elim (Bool-cases (is_not_allocated task.state)) [
  | inl spare ↦ inr ([], task, tasks, refl, tt, spare)
  | inr taken ↦ elim (free_slot tasks) [
    | inl busy ↦ inl (taken, busy)
    | inr (before, slot, rest, split, busy, spare) ↦
        inr (task ∷ before, slot, rest, ap (λ l. task ∷ l) split, (taken, busy), spare)
  ]
]

module _ (jump_userspace task_init : ℕ) where
  pub allocate-Sound :
      (s s' : Sched) (queue : List Request) (err : ℕ) (slot : Option ℕ)
      → task_allocate jump_userspace task_init s ≡ ok (err, slot, s')
      → SoundSched s queue
      → SoundSched s' queue
  allocate-Sound s s' queue err slot e h = elim (free_slot s.tasks) [
    | inl busy ↦
        subst (λ t. SoundSched t queue) (third (task_allocate-full jump_userspace task_init s busy))
          h
    | inr (before, free, rest, split, busy, spare) ↦
        elim (Bool-cases (s.pages.freelist_head == 0)) [
          | inl none_left ↦
              let run =
                task_allocate-enomem jump_userspace task_init before rest free s split busy spare
                  (==→eq s.pages.freelist_head 0 none_left) in
              subst (λ t. SoundSched t queue) (third run)
                (slot-Sound before rest free _ s _ queue split spare refl refl h)
          | inr some_left ↦
              let run =
                task_allocate-slot jump_userspace task_init before rest free s s.pages.freelist_head
                  split busy spare refl (==→ne s.pages.freelist_head 0 some_left) in
              subst (λ t. SoundSched t queue) (third run)
                (slot-Sound before rest free _ s _ queue split spare refl refl h)
        ]
  ]
    where
      third :
          {err' : ℕ} {slot' : Option ℕ} {t : Sched}
          → task_allocate jump_userspace task_init s ≡ ok (err', slot', t)
          → t ≡ s'
      third {err'} {slot'} {t} run =
          ap (λ p. p.2) (ok_inj (err', slot', t) (err, slot, s') (sym run ∙ e))
