-- ===== src/System/Invariant.antt =====
-- The invariant of the kernel, and what it is good for.
use low_flex_programming.Base.{
  ℕ, ◌≡◌, ◌≢◌, sym, subst, List, [], ◌∷◌, Bool, true, false, ◌==◌, if◌then◌else◌, none, some,
  Option, Run, refl, ◌++◌, ◌>>=◌, get_elem?, ok, panic, fault, ltb, leb, ◌&&◌, add32, sub32, set,
  ◌^◌,
}
use low_flex_programming.Sched.{Task, Sched, running, disk_read, reschedule}
use low_flex_programming.Ata.{
  Request, Disk, ata_read, read_as, enqueue, ata_process_request, process_head, finish_request,
  set_state, ata_issue_read_sectors, issue_writes, read_words, read_sector,
}
use low_flex_programming.Syscall.{Kernel}
use low_flex_programming.System.{Step, Reach}
use low_flex_programming.System.Kept.{SoundSched, allocate-Sound, tick-Sound, switch-Sound}
use low_flex_programming.System.Queue.{SoundDisk, read-Sound, transfer-Sound}
use low_flex_programming.System.Calls.{call-Sound}

step-Sound :
    (jump_userspace task_init : ℕ) (k l : Kernel)
    → Step jump_userspace task_init k l
    → SoundDisk k.disk
    → SoundDisk l.disk
step-Sound j t k l (Step.allocate k' err slot s e) h =
    allocate-Sound j t k'.disk.sched s k'.disk.req_queue err slot e h
step-Sound j t k l (Step.tick k' s e) h = tick-Sound k'.disk.sched s k'.disk.req_queue e h
step-Sound j t k l (Step.switch k' i esp0 task s at runs e) h =
    switch-Sound k'.disk.sched s k'.disk.req_queue i esp0 task at runs e h
step-Sound j t k l (Step.read k' buf lba seccount ret d e) h =
    read-Sound buf lba seccount ret k'.disk d e h
step-Sound j t k l (Step.transfer k' words d e) h = transfer-Sound words k'.disk d e h
step-Sound j t k l (Step.call k' l' sector regs e) h = call-Sound sector regs k' l' e h

-- From a state in which no task is current and no request waits, whatever steps follow in whatever
-- order: the task that is current is in the table and runnable, and the requests of the disk's queue are
-- those of different tasks, each of which is in the table and waits for the disk.
pub Reach-Sound :
    (jump_userspace task_init : ℕ) (k l : Kernel)
    → Reach jump_userspace task_init k l
    → k.disk.sched.current ≡ none
    → k.disk.req_queue ≡ []
    → SoundDisk l.disk
Reach-Sound j t k l (Reach.here k') idle empty =
    subst (SoundSched k'.disk.sched) (sym empty)
      (record { current_runs = λ i c. absurd (cc); requests_wait = tt })
Reach-Sound j t k l (Reach.more k' l' m reach step) idle empty =
    step-Sound j t l' m step (Reach-Sound j t k' l' reach idle empty)

command-no_fault : (req : Request) (d : Disk) → ata_issue_read_sectors req d ≡ fault → ⊥
unfolding ata_issue_read_sectors
command-no_fault req d e = go (leb 256 req.sectors_count && ltb req.sectors_count (2 ^ 31)) e
  where
    go : (b : Bool) → (if b then panic else ok (issue_writes req d)) ≡ fault → ⊥
    go true e = absurd (cc)
    go false e = absurd (cc)

finish-no_fault :
    (req : Request) (rest : List Request) (task : Task) (d : Disk)
    → get_elem? d.sched.tasks req.task ≡ some task
    → finish_request req rest d ≡ fault
    → ⊥
unfolding finish_request set_state
finish-no_fault req rest task d at e = go rest (rw at at e)
  where
    woken : List Request → Disk
    woken rest = record d {
      sched = record d.sched {
        tasks = set d.sched.tasks req.task (record task { state = running });
      };
      req_queue = rest;
    }

    go :
        (next : List Request)
        → elim next [ [] ↦ ok (woken rest) | first ∷ _ ↦ ata_issue_read_sectors first (woken rest) ]
          ≡ fault
        → ⊥
    go [] e = absurd (cc)
    go (first ∷ later) e = command-no_fault first (woken rest) e

head-no_fault :
    (words : ℕ → ℕ) (req : Request) (rest : List Request) (task : Task) (d : Disk)
    → get_elem? d.sched.tasks req.task ≡ some task
    → process_head words req rest d ≡ fault
    → ⊥
unfolding process_head read_sector
head-no_fault words req rest task d at e =
    go (req.buf == 0) (req.sectors_count == 0) (req'.sectors_count == 0) e
  where
    req' : Request
    req' = record req { buf = add32 req.buf 512; sectors_count = sub32 req.sectors_count 1 }

    filled : Disk
    filled = record d { memory = read_words 256 0 words req.buf d.memory; req_queue = req' ∷ rest }

    go :
        (no_buf no_sectors over : Bool)
        → (if no_buf
            then panic
            else if no_sectors
            then panic
            else ((if no_buf then fault else ok (read_words 256 0 words req.buf d.memory)) >>= λ m.
                if over
                then finish_request req' rest (record d { memory = m; req_queue = req' ∷ rest })
                else ok (record d { memory = m; req_queue = req' ∷ rest })))
          ≡ fault
        → ⊥
    go true no_sectors over e = absurd (cc)
    go false true over e = absurd (cc)
    go false false true e = finish-no_fault req' rest task filled at e
    go false false false e = absurd (cc)

process-no_fault :
    (words : ℕ → ℕ) (d : Disk) → SoundDisk d → ata_process_request words d ≡ fault → ⊥
unfolding ata_process_request
process-no_fault words d h e = go d.req_queue h e
  where
    go :
        (queue : List Request)
        → SoundSched d.sched queue
        → elim queue [ [] ↦ panic | req ∷ rest ↦ process_head words req rest d ] ≡ fault
        → ⊥
    go [] h e = absurd (cc)
    go (req ∷ rest) h e =
        let (task, at, state) = h.requests_wait.0 in head-no_fault words req rest task d at e

bind-no_fault :
    {A B : Type 0}
    → (r : Run A) (next : A → Run B) → (r ≡ fault → ⊥)
    → ((x : A) → next x ≡ fault → ⊥)
    → (r >>= next) ≡ fault
    → ⊥
bind-no_fault (ok x) next first later e = later x e
bind-no_fault panic next first later e = absurd (cc)
bind-no_fault fault next first later e = first refl

enqueue-no_fault : (req : Request) (d : Disk) → enqueue req d ≡ fault → ⊥
unfolding enqueue
enqueue-no_fault req d e = go d.req_queue e
  where
    go :
        (queue : List Request)
        → elim queue [
          | [] ↦ ata_issue_read_sectors req (record d { req_queue = req ∷ [] })
          | first ∷ rest ↦ ok (record d { req_queue = first ∷ rest ++ req ∷ [] })
        ]
          ≡ fault
        → ⊥
    go [] e = command-no_fault req (record d { req_queue = req ∷ [] }) e
    go (first ∷ rest) e = absurd (cc)

reschedule-no_fault : (s : Sched) → reschedule s ≡ fault → ⊥
unfolding reschedule
reschedule-no_fault s e = go s.current e
  where
    go :
        (current : Option ℕ)
        → elim current [ none ↦ panic | some i ↦ ok (record s { current = none }) ] ≡ fault
        → ⊥
    go none e = absurd (cc)
    go (some i) e = absurd (cc)

read-no_fault :
    (buf lba seccount : ℕ) (d : Disk) → SoundDisk d → ata_read buf lba seccount d ≡ fault → ⊥
unfolding ata_read read_as set_state
read-no_fault buf lba seccount d h e = go d.sched.current refl e
  where
    given_up : Disk → Run (ℕ × Disk)
    given_up d = do sched ← reschedule d.sched; ok (0, record d { sched = sched })

    go :
        (current : Option ℕ)
        → d.sched.current ≡ current
        → elim current [ none ↦ panic | some task ↦ read_as task buf lba seccount d ] ≡ fault
        → ⊥
    go none cur e = absurd (cc)
    go (some i) cur e =
        let (task, at, runs) = h.current_runs i cur in
        let req : Request = record { buf = buf; lba = lba; sectors_count = seccount; task = i } in
        let waits : Task = record task { state = disk_read } in
        let asleep : Disk = record d {
          sched = record d.sched { tasks = set d.sched.tasks i waits };
        } in
        bind-no_fault (enqueue req asleep) given_up (enqueue-no_fault req asleep)
          (λ d' f.
            bind-no_fault (reschedule d'.sched) (λ s. ok (0, record d' { sched = s }))
              (reschedule-no_fault d'.sched) (λ s z. absurd (cc)) f)
          (rw at at e)

-- From a state in which no task is current and no request waits, whatever steps follow in whatever
-- order: an interrupt of the disk neither writes a sector through NULL nor wakes a task that the table
-- does not have, and a read puts no task to sleep that the table does not have.
pub Reach-no_fault :
    (jump_userspace task_init : ℕ) (words : ℕ → ℕ) (buf lba seccount : ℕ) (k l : Kernel)
    → Reach jump_userspace task_init k l
    → k.disk.sched.current ≡ none
    → k.disk.req_queue ≡ []
    → (ata_process_request words l.disk ≢ fault) × (ata_read buf lba seccount l.disk ≢ fault)
Reach-no_fault j t words buf lba seccount k l reach idle empty =
    let h = Reach-Sound j t k l reach idle empty in
    (process-no_fault words l.disk h, read-no_fault buf lba seccount l.disk h)
