-- ===== src/System/Calls.antt =====
-- The system calls keep the invariant.
use low_flex_programming.Base.{
  ℕ, ◌+◌, ◌^◌, ◌≡◌, refl, ap, subst, [], ◌∷◌, Bool, true, false, ◌==◌, leb, ◌||◌, not,
  if◌then◌else◌, Option, none, some, set, Run, ok, panic, fault, ◌>>=◌, minus32,
}
use low_flex_programming.Base.Inversion.{ok_inj, panic-eq-ok, fault-eq-ok, guard-eq-ok, bind-eq-ok}
use low_flex_programming.Frame
use low_flex_programming.Terminal.{terminal_writestring}
use low_flex_programming.Sched.{Task, waiting, Sched, reschedule}
use low_flex_programming.Ata.{ata_read}
use low_flex_programming.Syscall.{
  Kernel, frame_word, set_frame_word, with_sched, wait_as, syscall_wait, print_text, syscall_print,
  syscall_read, syscall_table, table_size, call_numbered, syscall_irq, einval, enosys,
}
use low_flex_programming.System.Tasks.{Waiting-set, Waiting-Fresh}
use low_flex_programming.System.Kept.{SoundSched}
use low_flex_programming.System.Queue.{SoundDisk, read-Sound, reschedule-none}

-- A result in the caller's frame.
frame-Sound : (a v : ℕ) (k : Kernel) → SoundDisk k.disk → SoundDisk (set_frame_word a v k).disk
unfolding set_frame_word
frame-Sound a v k h = record { current_runs = h.current_runs; requests_wait = h.requests_wait }

wait_as-Sound :
    (i ticks ret : ℕ) (k k' : Kernel)
    → k.disk.sched.current ≡ some i
    → wait_as i ticks k ≡ ok (ret, k')
    → SoundDisk k.disk
    → SoundDisk k'.disk
unfolding wait_as
wait_as-Sound i ticks ret k k' cur e h =
    let (task, at, runs) = h.current_runs i cur in
    let waits : Task = record task { ticks_remaining = ticks; state = waiting } in
    let sleeping : Sched = record k.disk.sched { tasks = set k.disk.sched.tasks i waits } in
    let (s, gave_up, done) =
      bind-eq-ok (reschedule sleeping) (λ s. ok (0, with_sched k s)) (ret, k') (rw at at e) in
    let fresh =
      Waiting-Fresh k.disk.sched.tasks i task k.disk.req_queue at (λ w. absurd (cc))
        h.requests_wait in
    let result : with_sched k s ≡ k' = ap (λ p. p.1) (ok_inj _ (ret, k') done) in
    subst (λ k. SoundDisk k.disk) result
      (subst (λ s. SoundSched s k.disk.req_queue) (reschedule-none sleeping s gave_up)
        (record {
          current_runs = λ j c. absurd (cc);
          requests_wait =
              Waiting-set k.disk.sched.tasks i waits k.disk.req_queue fresh h.requests_wait;
        }))

wait-Sound :
    (regs ret : ℕ) (k k' : Kernel)
    → syscall_wait regs k ≡ ok (ret, k')
    → SoundDisk k.disk
    → SoundDisk k'.disk
unfolding syscall_wait
wait-Sound regs ret k k' e h =
    let ticks = frame_word k (regs + Frame.ebx) in
    go (ticks == 0 || leb (2 ^ 31) ticks) k.disk.sched.current refl e
  where
    go :
        (bad : Bool) (current : Option ℕ)
        → k.disk.sched.current ≡ current
        → (if bad then ok (minus32 einval, k) else elim current [
          | none ↦ fault
          | some i ↦ wait_as i (frame_word k (regs + Frame.ebx)) k
        ])
          ≡ ok (ret, k')
        → SoundDisk k'.disk
    go true current cur e =
        subst (λ k. SoundDisk k.disk) (ap (λ p. p.1) (ok_inj (minus32 einval, k) (ret, k') e)) h
    go false none cur e = absurd (fault-eq-ok (ret, k') e)
    go false (some i) cur e = wait_as-Sound i (frame_word k (regs + Frame.ebx)) ret k k' cur e h

print-Sound :
    (regs ret : ℕ) (k k' : Kernel)
    → syscall_print regs k ≡ ok (ret, k')
    → SoundDisk k.disk
    → SoundDisk k'.disk
unfolding syscall_print
print-Sound regs ret k k' e h =
    let text = print_text (frame_word k (regs + Frame.ebx)) ∷ 0 ∷ [] in
    let (t, written, done) =
      bind-eq-ok (terminal_writestring k.terminal text) (λ t. ok (0, record k { terminal = t }))
        (ret, k') e in
    subst (λ k. SoundDisk k.disk)
      (ap (λ p. p.1) (ok_inj (0, record k { terminal = t }) (ret, k') done)) h

sys_read-Sound :
    (sector regs ret : ℕ) (k k' : Kernel)
    → syscall_read sector regs k ≡ ok (ret, k')
    → SoundDisk k.disk
    → SoundDisk k'.disk
unfolding syscall_read
sys_read-Sound sector regs ret k k' e h =
    let ((result, d), run, done) =
      bind-eq-ok (ata_read sector 12 4 k.disk) (λ p. ok (p.0, record k { disk = p.1 })) (ret, k')
        e in
    subst (λ k. SoundDisk k.disk)
      (ap (λ p. p.1) (ok_inj (result, record k { disk = d }) (ret, k') done))
      (read-Sound sector 12 4 result k.disk d run h)

table-Sound :
    (sector number regs ret : ℕ) (k k' : Kernel)
    → syscall_table sector number regs k ≡ ok (ret, k')
    → SoundDisk k.disk
    → SoundDisk k'.disk
unfolding syscall_table
table-Sound sector number regs ret k k' e h = go (number == 0) (number == 1) e
  where
    go :
        (zeroth first : Bool)
        → (if zeroth
            then syscall_wait regs k
            else if first
            then syscall_print regs k
            else syscall_read sector regs k)
          ≡ ok (ret, k')
        → SoundDisk k'.disk
    go true first e = wait-Sound regs ret k k' e h
    go false true e = print-Sound regs ret k k' e h
    go false false e = sys_read-Sound sector regs ret k k' e h

numbered-Sound :
    (sector regs : ℕ) (k k' : Kernel)
    → call_numbered sector regs k ≡ ok k'
    → SoundDisk k.disk
    → SoundDisk k'.disk
unfolding call_numbered
numbered-Sound sector regs k k' e h = go (leb table_size number) e
  where
    number : ℕ
    number = frame_word k (regs + Frame.eax)

    store : ℕ × Kernel → Run Kernel
    store p = ok (set_frame_word (regs + Frame.eax) p.0 p.1)

    go :
        (unknown : Bool)
        → (if unknown
            then ok (set_frame_word (regs + Frame.eax) (minus32 enosys) k)
            else syscall_table sector number regs k >>= store)
          ≡ ok k'
        → SoundDisk k'.disk
    go true e =
        subst (λ k. SoundDisk k.disk) (ok_inj _ k' e)
          (frame-Sound (regs + Frame.eax) (minus32 enosys) k h)
    go false e =
        let ((ret, k₁), run, done) = bind-eq-ok (syscall_table sector number regs k) store k' e in
        subst (λ k. SoundDisk k.disk) (ok_inj _ k' done)
          (frame-Sound (regs + Frame.eax) ret k₁ (table-Sound sector number regs ret k k₁ run h))

pub call-Sound :
    (sector regs : ℕ) (k k' : Kernel)
    → syscall_irq sector regs k ≡ ok k'
    → SoundDisk k.disk
    → SoundDisk k'.disk
unfolding syscall_irq
call-Sound sector regs k k' e h =
    let (user, e₁) =
      guard-eq-ok (not (Frame.is_userspace k.disk.sched.pages.memory regs))
        (elim k.disk.sched.current [ none ↦ panic | some i ↦ call_numbered sector regs k ]) k' e in
    go k.disk.sched.current e₁
  where
    go :
        (current : Option ℕ)
        → elim current [ none ↦ panic | some i ↦ call_numbered sector regs k ] ≡ ok k'
        → SoundDisk k'.disk
    go none e = absurd (panic-eq-ok k' e)
    go (some i) e = numbered-Sound sector regs k k' e h
