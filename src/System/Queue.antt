-- ===== src/System/Queue.antt =====
-- The disk's steps keep the invariant.
use low_flex_programming.Base.{
  ℕ, ◌^◌, ◌≡◌, refl, ap, ◌∙◌, sym, subst, List, [], ◌∷◌, ◌++◌, Bool, Bool-cases, inl, inr, true,
  false, ◌==◌, ltb, leb, ◌&&◌, if◌then◌else◌, Option, none, some, get_elem?, set, Run, ok, panic,
  fault, ◌>>=◌, get_elem?-set_ne, add32, sub32, ==→eq, ==→ne,
}
use low_flex_programming.Base.Inversion.{ok_inj, panic-eq-ok, guard-eq-ok, bind-eq-ok}
use low_flex_programming.Sched.{Task, running, disk_read, Sched, reschedule}
use low_flex_programming.Ata.{
  Request, Disk, ata_read, read_as, enqueue, ata_issue_read_sectors, issue_writes, outb, set_state,
  read_words, read_sector, finish_request, process_head, ata_process_request,
}
use low_flex_programming.System.Tasks.{
  InState, InState-set, Fresh, Waiting, Waiting-set, Waiting-append, Waiting-Fresh,
}
use low_flex_programming.System.Kept.{SoundSched}

abbrev pub SoundDisk : Disk → Type 0
SoundDisk d = SoundSched d.sched d.req_queue

-- What of the disk the invariant is about.
abbrev SameQueue : Disk → Sched → List Request → Type 0
SameQueue d sched queue = (d.sched ≡ sched) × (d.req_queue ≡ queue)

-- A command changes only the ports.
issue-SameQueue :
    (req : Request) (d d' : Disk)
    → ata_issue_read_sectors req d ≡ ok d'
    → SameQueue d' d.sched d.req_queue
unfolding ata_issue_read_sectors issue_writes outb
issue-SameQueue req d d' e =
    let (small, done) =
      guard-eq-ok (leb 256 req.sectors_count && ltb req.sectors_count (2 ^ 31))
        (ok (issue_writes req d)) d' e in
    let same = sym (ok_inj (issue_writes req d) d' done) in
    (ap (λ x. x.sched) same, ap (λ x. x.req_queue) same)

-- The request is at the end of the queue then.
enqueue-SameQueue :
    (req : Request) (d d' : Disk)
    → enqueue req d ≡ ok d'
    → SameQueue d' d.sched (d.req_queue ++ req ∷ [])
unfolding enqueue
enqueue-SameQueue req d d' e = go d.req_queue e
  where
    go :
        (queue : List Request)
        → elim queue [
          | [] ↦ ata_issue_read_sectors req (record d { req_queue = req ∷ [] })
          | first ∷ rest ↦ ok (record d { req_queue = first ∷ rest ++ req ∷ [] })
        ]
          ≡ ok d'
        → SameQueue d' d.sched (queue ++ req ∷ [])
    go [] e = issue-SameQueue req (record d { req_queue = req ∷ [] }) d' e
    go (first ∷ rest) e =
        let same = sym (ok_inj _ d' e) in (ap (λ x. x.sched) same, ap (λ x. x.req_queue) same)

pub reschedule-none : (s s' : Sched) → reschedule s ≡ ok s' → record s { current = none } ≡ s'
unfolding reschedule
reschedule-none s s' e = go s.current e
  where
    go :
        (current : Option ℕ)
        → elim current [ none ↦ panic | some i ↦ ok (record s { current = none }) ] ≡ ok s'
        → record s { current = none } ≡ s'
    go none e = absurd (panic-eq-ok s' e)
    go (some i) e = ok_inj _ s' e

-- The end of `ata_read`.
abbrev given_up : Disk → Run (ℕ × Disk)
given_up d = do sched ← reschedule d.sched; ok (0, record d { sched = sched })

-- The task `i` waits for the disk with a request of its own, and no task is current.
read_as-Sound :
    (i buf lba seccount ret : ℕ) (d d' : Disk)
    → d.sched.current ≡ some i
    → read_as i buf lba seccount d ≡ ok (ret, d')
    → SoundDisk d
    → SoundDisk d'
unfolding read_as set_state
read_as-Sound i buf lba seccount ret d d' cur e h =
    let (task, at, runs) = h.current_runs i cur in
    let req : Request = record { buf = buf; lba = lba; sectors_count = seccount; task = i } in
    let waits : Task = record task { state = disk_read } in
    let d₀ : Disk = record d { sched = record d.sched { tasks = set d.sched.tasks i waits } } in
    let (d₁, queued, later) = bind-eq-ok (enqueue req d₀) given_up (ret, d') (rw at at e) in
    let (s, gave_up, done) =
      bind-eq-ok (reschedule d₁.sched) (λ s. ok (0, record d₁ { sched = s })) (ret, d') later in
    let (sched, queue) = enqueue-SameQueue req d₀ d₁ queued in
    let result : record d₁ { sched = s } ≡ d' = ap (λ p. p.1) (ok_inj _ (ret, d') done) in
    let left : record d₀.sched { current = none } ≡ s =
      ap (λ (x : Sched). record x { current = none }) (sym sched)
      ∙ reschedule-none d₁.sched s gave_up in
    let fresh =
      Waiting-Fresh d.sched.tasks i task d.req_queue at (λ w. absurd (cc)) h.requests_wait in
    let waiting : Waiting d₀.sched.tasks (d.req_queue ++ req ∷ []) =
      Waiting-append d₀.sched.tasks d.req_queue req
        (InState-set d.sched.tasks i task waits disk_read at refl) fresh
        (Waiting-set d.sched.tasks i waits d.req_queue fresh h.requests_wait) in
    subst SoundDisk result (
      subst (λ q. SoundSched s q) (sym queue)
        (subst (λ t. SoundSched t (d.req_queue ++ req ∷ [])) left
          (record { current_runs = λ j c. absurd (cc); requests_wait = waiting })))

pub read-Sound :
    (buf lba seccount ret : ℕ) (d d' : Disk)
    → ata_read buf lba seccount d ≡ ok (ret, d')
    → SoundDisk d
    → SoundDisk d'
unfolding ata_read
read-Sound buf lba seccount ret d d' e h = go d.sched.current refl e
  where
    go :
        (current : Option ℕ)
        → d.sched.current ≡ current
        → elim current [ none ↦ panic | some task ↦ read_as task buf lba seccount d ] ≡ ok (ret, d')
        → SoundDisk d'
    go none cur e = absurd (panic-eq-ok (ret, d') e)
    go (some i) cur e = read_as-Sound i buf lba seccount ret d d' cur e h

-- A transfer that is complete: the first request leaves the queue, and its task is runnable.
woken-Sound :
    (d : Disk) (req : Request) (rest : List Request) (task : Task)
    → get_elem? d.sched.tasks req.task ≡ some task
    → SoundSched d.sched (req ∷ rest)
    → SoundSched
        (record d.sched { tasks = set d.sched.tasks req.task (record task { state = running }) })
        rest
woken-Sound d req rest task at h =
    let i = req.task in
    let runs : Task = record task { state = running } in
    record {
      current_runs = λ j c. elim (Bool-cases (j == i)) [
        | inl same ↦
            subst (λ n. InState (set d.sched.tasks i runs) n running) (sym (==→eq j i same))
              (InState-set d.sched.tasks i task runs running at refl)
        | inr other ↦
            let (t, there, state) = h.current_runs j c in
            (
              t,
              get_elem?-set_ne d.sched.tasks i j runs (λ n. ==→ne j i other (sym n)) ∙ there,
              state,
            )
      ];
      requests_wait = Waiting-set d.sched.tasks i runs rest h.requests_wait.1 h.requests_wait.2;
    }

-- The next request gets its command, if there is one.
abbrev next_command : List Request → Disk → Run Disk
next_command rest d = elim rest [ [] ↦ ok d | next ∷ _ ↦ ata_issue_read_sectors next d ]

next-SameQueue :
    (rest : List Request) (d d' : Disk)
    → next_command rest d ≡ ok d'
    → SameQueue d' d.sched d.req_queue
next-SameQueue [] d d' e =
    let same = sym (ok_inj d d' e) in (ap (λ x. x.sched) same, ap (λ x. x.req_queue) same)
next-SameQueue (next ∷ rest) d d' e = issue-SameQueue next d d' e

finish-Sound :
    (req : Request) (rest : List Request) (task : Task) (d d' : Disk)
    → get_elem? d.sched.tasks req.task ≡ some task
    → finish_request req rest d ≡ ok d'
    → SoundSched d.sched (req ∷ rest)
    → SoundDisk d'
unfolding finish_request set_state
finish-Sound req rest task d d' at e h =
    let woken : Sched = record d.sched {
      tasks = set d.sched.tasks req.task (record task { state = running });
    } in
    let done : next_command rest (record d { sched = woken; req_queue = rest }) ≡ ok d' =
      rw at at e in
    let (sched, queue) =
      next-SameQueue rest (record d { sched = woken; req_queue = rest }) d' done in
    subst (λ s. SoundSched s d'.req_queue) (sym sched)
      (subst (SoundSched woken) (sym queue) (woken-Sound d req rest task at h))

-- A request with less to read is still that of its task.
advanced-Sound :
    (s : Sched) (req req' : Request) (rest : List Request)
    → req'.task ≡ req.task
    → SoundSched s (req ∷ rest)
    → SoundSched s (req' ∷ rest)
advanced-Sound s req req' rest same h = record {
  current_runs = h.current_runs;
  requests_wait = (
    subst (λ i. InState s.tasks i disk_read) (sym same) h.requests_wait.0,
    subst (λ i. Fresh i rest) (sym same) h.requests_wait.1,
    h.requests_wait.2,
  );
}

head-Sound :
    (words : ℕ → ℕ) (req : Request) (rest : List Request) (d d' : Disk)
    → process_head words req rest d ≡ ok d'
    → SoundSched d.sched (req ∷ rest)
    → SoundDisk d'
unfolding process_head read_sector
head-Sound words req rest d d' e h =
    let req' : Request = record req {
      buf = add32 req.buf 512;
      sectors_count = sub32 req.sectors_count 1;
    } in
    let h' = advanced-Sound d.sched req req' rest refl h in
    let (task, at, state) = h.requests_wait.0 in
    go (req.buf == 0) (req.sectors_count == 0) (req'.sectors_count == 0) req' h' at e
  where
    filled : Request → Disk
    filled req' = record d {
      memory = read_words 256 0 words req.buf d.memory;
      req_queue = req' ∷ rest;
    }

    go :
        {task : Task} (no_buf no_sectors over : Bool) (req' : Request)
        → SoundSched d.sched (req' ∷ rest)
        → get_elem? d.sched.tasks req'.task ≡ some task
        → (if no_buf
            then panic
            else if no_sectors
            then panic
            else ((if no_buf then fault else ok (read_words 256 0 words req.buf d.memory)) >>= λ m.
                if over
                then finish_request req' rest (record d { memory = m; req_queue = req' ∷ rest })
                else ok (record d { memory = m; req_queue = req' ∷ rest })))
          ≡ ok d'
        → SoundDisk d'
    go true no_sectors over req' h at e = absurd (panic-eq-ok d' e)
    go false true over req' h at e = absurd (panic-eq-ok d' e)
    go {task} false false true req' h at e = finish-Sound req' rest task (filled req') d' at e h
    go {task} false false false req' h at e = subst SoundDisk (ok_inj (filled req') d' e) h

pub transfer-Sound :
    (words : ℕ → ℕ) (d d' : Disk) → ata_process_request words d ≡ ok d' → SoundDisk d → SoundDisk d'
unfolding ata_process_request
transfer-Sound words d d' e h = go d.req_queue h e
  where
    go :
        (queue : List Request)
        → SoundSched d.sched queue
        → elim queue [ [] ↦ panic | req ∷ rest ↦ process_head words req rest d ] ≡ ok d'
        → SoundDisk d'
    go [] h e = absurd (panic-eq-ok d' e)
    go (req ∷ rest) h e = head-Sound words req rest d d' e h
