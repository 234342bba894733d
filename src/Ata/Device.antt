-- ===== src/Ata/Device.antt =====
-- A disk behind the ports, and a read from the call to its return: the device takes the sector
-- number and the count from its registers, and there is one interrupt for each sector.
use low_flex_programming.Base.{
  ℕ, zero, suc, ◌+◌, ◌*◌, ◌^◌, ◌<◌, ◌≡◌, refl, ap, sym, ◌++◌, ◌∙◌, List, [], ◌∷◌, ◌&&◌, ltb, leb,
  false, if◌then◌else◌, none, some, get_elem?, get_elem?-bound, set-back, set, get_elem?-set_self,
  length, ◌/◌, ◌==◌, Run, ok, panic, fault, ◌>>=◌, arith,
}
use low_flex_programming.Sched.{Task, running, disk_read, switch_to, Sched}
use low_flex_programming.Ata.{
  Request, Disk, ata_read, ata_seccount_reg, ata_command_reg, ata_drive_reg, issue_writes,
  ata_issue_read_sectors,
}
use low_flex_programming.Ata.Command.{register, addressed, ata_issue_read_sectors-addressed}
use low_flex_programming.Ata.Queue.{ata_read-waiting_for}
use low_flex_programming.Ata.Transfer.{process_all, stored, process_all-completed}
use low_flex_programming.Ata.Image.{Image, IsBytes, sectors_at, HoldsDisk, stored-HoldsDisk}

-- The sectors that the device has ready, one after the other: those that its registers name, for the
-- command to read and the mode that takes sector numbers. With anything else in them it delivers no
-- sector, and the task waits for ever.
pub delivered : Image → Disk → Run (List (ℕ → ℕ))
delivered image d =
    if register d.ports (ata_command_reg d.dev) == 0x20
      && register d.ports (ata_drive_reg d.dev) / 16 == 0xe
    then ok (sectors_at image (addressed d.dev d.ports) (register d.ports (ata_seccount_reg d.dev)))
    else fault

-- The call, the transfer, and the switch back to the task that called.
pub blocking_read : Image → ℕ → ℕ → ℕ → Disk → Run (ℕ × Disk)
blocking_read image buf lba seccount d = do
  (ret, d1) ← ata_read buf lba seccount d
  sectors ← delivered image d1
  d2 ← process_all sectors d1
  elim d.sched.current [
    | none ↦ panic
    | some i ↦ do (esp0, s) ← switch_to i d2.sched; ok (ret, record d2 { sched = s })
  ]

-- A task that may read: it is current and runnable, and no request waits.
pub record Ready (d : Disk) : Type 0 where
  pub idle : d.req_queue ≡ []
  pub index : ℕ
  pub task : Task
  pub current : d.sched.current ≡ some index
  pub listed : get_elem? d.sched.tasks index ≡ some task
  pub runs : task.state ≡ running

-- The disk behind the call: the request is with the device.
abbrev asked : Request → Task → Disk → List (ℕ × ℕ) → Disk
asked req task d ports = record d {
  req_queue = req ∷ [];
  ports = ports;
  sched = record d.sched {
    tasks = set d.sched.tasks req.task (record task { state = disk_read });
    current = none;
  };
}

-- The disk behind the call, by the queue that the call finds.
abbrev begun : List Request → Request → Task → Disk → Disk
begun queue req task d =
    let d' : Disk = record (asked req task d d.ports) { req_queue = queue ++ req ∷ [] } in
    elim queue [ [] ↦ issue_writes req d' | _ ∷ _ ↦ d' ]

value_of : Run Disk → Disk → Disk
value_of (ok d) e = d
value_of panic e = e
value_of fault e = e

ata_read-asked :
    (buf lba n : ℕ) (d : Disk) (r : Ready d)
    → lba < 2 ^ 28
    → n < 256
    → let req : Request = record { buf = buf; lba = lba; sectors_count = n; task = r.index } in
      (ports : List (ℕ × ℕ)) × (ata_read buf lba n d ≡ ok (0, asked req r.task d ports))
      × (addressed d.dev ports ≡ lba)
      × (register ports (ata_seccount_reg d.dev) ≡ n)
      × (register ports (ata_command_reg d.dev) ≡ 0x20)
      × (register ports (ata_drive_reg d.dev) / 16 ≡ 0xe)
unfolding ata_issue_read_sectors value_of
ata_read-asked buf lba n d r small few =
    let req : Request = record { buf = buf; lba = lba; sectors_count = n; task = r.index } in
    let d' = asked req r.task d d.ports in
    let (ports, issued, at, mode, count, command) =
      ata_issue_read_sectors-addressed req d' small few in
    let passes : (leb 256 n && ltb n (2 ^ 31)) ≡ false = ground arith in
    let same : issue_writes req d' ≡ record d' { ports = ports } =
      sym (ap (λ b. value_of (if b then panic else ok (issue_writes req d')) d') passes)
      ∙ ap (λ o. value_of o d') issued in
    let start = ata_read-waiting_for buf lba n r.index r.task d r.current r.listed few in
    (
      ports,
      start ∙ ap (λ q. ok (0, begun q req r.task d)) r.idle ∙ ap (λ x. ok (0, x)) same,
      at,
      count,
      command,
      mode,
    )

length-sectors : (image : Image) (lba n : ℕ) → length (sectors_at image lba n) ≡ n
length-sectors image lba zero = refl
length-sectors image lba (suc n) = ap suc (length-sectors image (lba + 1) n)

-- For 1 to 255 sectors from a 28-bit sector number on, a buffer that does not wrap around, and a
-- current, runnable task with no request waiting: a read returns 0 once the device has interrupted for
-- each sector, with the sectors of the disk in the buffer; no other byte of the memory is changed, the
-- scheduler is as before, and the task may read again.
pub blocking_read-HoldsDisk :
    (image : Image) (buf lba n : ℕ) (d : Disk)
    → IsBytes image
    → Ready d
    → 0 < buf
    → buf + 512 * n < 2 ^ 32
    → lba < 2 ^ 28
    → 0 < n
    → n < 256
    → (d' : Disk) × (blocking_read image buf lba n d ≡ ok (0, d'))
      × Ready d'
      × HoldsDisk image (512 * lba) (512 * n) buf d.memory d'.memory
      × (d'.sched ≡ d.sched)
unfolding blocking_read delivered switch_to
blocking_read-HoldsDisk image buf lba n d bytes r pos room small some_sectors few =
    let req : Request = record { buf = buf; lba = lba; sectors_count = n; task = r.index } in
    let (ports, called, at, count, command, mode) = ata_read-asked buf lba n d r small few in
    let waiting : Task = record r.task { state = disk_read } in
    let here =
      get_elem?-set_self d.sched.tasks r.index waiting
        (get_elem?-bound d.sched.tasks r.index r.task r.listed) in
    let done =
      process_all-completed (sectors_at image lba n) req [] waiting (asked req r.task d ports) refl
        (length-sectors image lba n) some_sectors few pos room tt here in
    let same : record r.task { state = running } ≡ r.task =
      ap (λ s. record r.task { state = s }) (sym r.runs) in
    let back : set (set d.sched.tasks r.index waiting) r.index (record r.task { state = running })
        ≡ d.sched.tasks =
      rw same (set-back d.sched.tasks r.index waiting r.task r.listed) in
    let sched_back : Sched = record d.sched { current = some r.index } in
    let kept : sched_back ≡ d.sched = ap (λ c. record d.sched { current = c }) (sym r.current) in
    let d' : Disk = record d {
      memory = stored (sectors_at image lba n) buf d.memory;
      ports = ports;
      req_queue = [];
      sched = sched_back;
    } in
    (
      d',
      rw (called, command, mode, at, count, done, r.current, back, r.listed) refl,
      record {
        idle = refl;
        index = r.index;
        task = r.task;
        current = refl;
        listed = r.listed;
        runs = r.runs;
      },
      stored-HoldsDisk image lba n buf d.memory bytes,
      kept,
    )

-- What the clients of the driver rely on: for 1 to 255 sectors from a 28-bit sector number on, and a buffer that
-- does not wrap around, a call by a task that may read returns 0, with the sectors of the disk in
-- the buffer, and nothing else of the memory or of the scheduler is changed.
abbrev pub Reads : Image → (ℕ → ℕ → ℕ → Disk → Run (ℕ × Disk)) → Type 0
Reads image read =
    (buf lba n : ℕ) (d : Disk)
    → Ready d
    → 0 < buf
    → buf + 512 * n < 2 ^ 32
    → lba < 2 ^ 28
    → 0 < n
    → n < 256
    → (d' : Disk) × (read buf lba n d ≡ ok (0, d'))
      × Ready d'
      × HoldsDisk image (512 * lba) (512 * n) buf d.memory d'.memory
      × (d'.sched ≡ d.sched)

-- The driver and the device together do what a client relies on.
pub blocking_read-Reads : (image : Image) → IsBytes image → Reads image (blocking_read image)
blocking_read-Reads image bytes buf lba n d r pos room small some_sectors few =
    blocking_read-HoldsDisk image buf lba n d bytes r pos room small some_sectors few
