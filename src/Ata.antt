-- ===== src/Ata.antt =====
-- ata.c and ata.h: the driver of the disk. What it writes to the ports is a log, the last write
-- first; what it reads from them are arguments. The queue of requests, which the code links through
-- the stacks of the tasks that wait, is a list; a task's index stands for the pointer to it.
pub mod Queue
pub mod Command
pub mod Transfer
pub mod Image
pub mod Device
pub mod Init
mod Examples
use low_flex_programming.Base.{
  ℕ, zero, suc, ◌+◌, ◌-◌, ◌*◌, ◌/◌, ◌%◌, ◌^◌, List, [], ◌∷◌, ◌++◌, Bool, true, false, ◌==◌, ltb,
  leb, ◌&&◌, ◌||◌, not, if◌then◌else◌, Option, none, some, get_elem?, set, Run, ok, panic, fault,
  ◌>>=◌, checked, add32, sub32, u8, has, bit_and, bit_or, ◌>>>◌,
}
use low_flex_programming.Common.{Memory, write}
use low_flex_programming.Apic.{Lapic, apic_eoi}
use low_flex_programming.Pci.{
  PciDev, pci_find_device, pci_class_mass_storage_controller, pci_subclass_ide,
}
use low_flex_programming.Sched.{Task, TaskState, running, disk_read, Sched, reschedule}

pub record AtaDev : Type 0 where
  pub io_base : ℕ
  pub io_ctrl_base : ℕ

abbrev pub ata_feat_reg : AtaDev → ℕ
ata_feat_reg dev = dev.io_base + 1

abbrev pub ata_seccount_reg : AtaDev → ℕ
ata_seccount_reg dev = dev.io_base + 2

abbrev pub ata_lba_lo_reg : AtaDev → ℕ
ata_lba_lo_reg dev = dev.io_base + 3

abbrev pub ata_lba_mid_reg : AtaDev → ℕ
ata_lba_mid_reg dev = dev.io_base + 4

abbrev pub ata_lba_hi_reg : AtaDev → ℕ
ata_lba_hi_reg dev = dev.io_base + 5

abbrev pub ata_drive_reg : AtaDev → ℕ
ata_drive_reg dev = dev.io_base + 6

abbrev pub ata_command_reg : AtaDev → ℕ
ata_command_reg dev = dev.io_base + 7

abbrev pub ata_control_reg : AtaDev → ℕ
ata_control_reg dev = dev.io_ctrl_base

abbrev pub ata_status_err : ℕ
ata_status_err = 1

abbrev pub ata_status_drq : ℕ
ata_status_drq = 8

abbrev pub ata_status_bsy : ℕ
ata_status_bsy = 128

abbrev pub ata_cmd_identify : ℕ
ata_cmd_identify = 0xec

abbrev pub ata_cmd_read_sectors : ℕ
ata_cmd_read_sectors = 0x20

abbrev pub ata_select_master : ℕ
ata_select_master = 0xa0

-- struct ata_req, without its link
pub record Request : Type 0 where
  pub buf : ℕ
  pub lba : ℕ
  pub sectors_count : ℕ
  pub task : ℕ

-- `memory` is that of the buffers, by bytes.
pub record Disk : Type 0 where
  pub dev : AtaDev
  pub req_queue : List Request
  pub ports : List (ℕ × ℕ)
  pub memory : Memory
  pub sched : Sched

-- A port takes a byte.
unfoldable pub outb : ℕ → ℕ → Disk → Disk
outb port value d = record d { ports = (port, u8 value) ∷ d.ports }

-- The writes of `ata_issue_read_sectors`, behind its check.
unfoldable pub issue_writes : Request → Disk → Disk
issue_writes req d =
    let d =
      outb (ata_drive_reg d.dev)
        (bit_or (bit_or ata_select_master 0x40) (bit_and (req.lba >>> 24) 0x0f)) d in
    let d = outb (ata_feat_reg d.dev) 0 d in
    let d = outb (ata_seccount_reg d.dev) req.sectors_count d in
    let d = outb (ata_lba_lo_reg d.dev) (bit_and req.lba 0xff) d in
    let d = outb (ata_lba_mid_reg d.dev) (bit_and (req.lba >>> 8) 0xff) d in
    let d = outb (ata_lba_hi_reg d.dev) (bit_and (req.lba >>> 16) 0xff) d in
    outb (ata_command_reg d.dev) ata_cmd_read_sectors d

-- `sectors_count` is an `int`, and 256 or more is a bug.
unfoldable pub ata_issue_read_sectors : Request → Disk → Run Disk
ata_issue_read_sectors req d =
    if leb 256 req.sectors_count && ltb req.sectors_count (2 ^ 31)
    then panic
    else ok (issue_writes req d)

-- The rounds of the loop over a sector's words, from `i` on; `words` is what `inw` gives, call after
-- call, and each word is stored low byte first.
unfoldable pub read_words : ℕ → ℕ → (ℕ → ℕ) → ℕ → Memory → Memory
read_words zero i words buf m = m
read_words (suc rounds) i words buf m =
    read_words rounds (i + 1) words buf
      (write (write m (buf + 2 * i) (words i % 2 ^ 8)) (buf + 2 * i + 1) (words i / 2 ^ 8 % 2 ^ 8))

-- A write through NULL is undefined behaviour.
unfoldable pub read_sector : (ℕ → ℕ) → ℕ → Memory → Run Memory
read_sector words buf m = if buf == 0 then fault else ok (read_words 256 0 words buf m)

unfoldable pub set_state : ℕ → TaskState → Sched → Run Sched
set_state i state s = do
  task ← checked (get_elem? s.tasks i)
  ok (record s { tasks = set s.tasks i (record task { state = state }) })

-- The end of `ata_process_request`, once the first request has all its sectors.
unfoldable pub finish_request : Request → List Request → Disk → Run Disk
finish_request req rest d = do
  sched ← set_state req.task running d.sched
  let d' : Disk = record d { sched = sched; req_queue = rest }
  elim rest [ [] ↦ ok d' | next ∷ _ ↦ ata_issue_read_sectors next d' ]

unfoldable pub process_head : (ℕ → ℕ) → Request → List Request → Disk → Run Disk
process_head words req rest d =
    let req' : Request = record req {
      buf = add32 req.buf 512;
      sectors_count = sub32 req.sectors_count 1;
    } in
    let filled : Memory → Disk = λ m. record d { memory = m; req_queue = req' ∷ rest } in
    if req.buf == 0 then panic else if req.sectors_count == 0 then panic else (do
      m ← read_sector words req.buf d.memory
      if req'.sectors_count == 0 then finish_request req' rest (filled m) else ok (filled m))

-- `words` is the sector that the device has ready.
unfoldable pub ata_process_request : (ℕ → ℕ) → Disk → Run Disk
ata_process_request words d = elim d.req_queue [
  | [] ↦ panic
  | req ∷ rest ↦ process_head words req rest d
]

pub ide_irq1 : (ℕ → ℕ) → Disk × Lapic → Run (Disk × Lapic)
ide_irq1 words (d, lapic) = do d' ← ata_process_request words d; ok (d', apic_eoi lapic)

pub ide_irq2 : Lapic → Lapic
ide_irq2 lapic = apic_eoi lapic

-- `statuses` are the values that the status register takes, read after read; a device that is never
-- ready uses them up.
pub ata_poll : List ℕ → ℕ → Run ℕ
ata_poll [] error = fault
ata_poll (status ∷ statuses) error =
    let again = ata_poll statuses error in
    let drq = has status ata_status_drq in
    let err = has status ata_status_err in
    let bsy = has status ata_status_bsy in
    if bsy || (not drq && not err) then again else if err then ok error else ok 0

-- The queue with a request at its end, and the command to the device if it was idle.
unfoldable pub enqueue : Request → Disk → Run Disk
enqueue req d = elim d.req_queue [
  | [] ↦ ata_issue_read_sectors req (record d { req_queue = req ∷ [] })
  | first ∷ rest ↦ ok (record d { req_queue = first ∷ rest ++ req ∷ [] })
]

-- The returned `int` is that of the task when it runs again. The change of the task's state and of the
-- queue, which the code makes with interrupts off, is one step with the reschedule behind it.
unfoldable pub read_as : ℕ → ℕ → ℕ → ℕ → Disk → Run (ℕ × Disk)
read_as task buf lba seccount d = do
  let req : Request = record { buf = buf; lba = lba; sectors_count = seccount; task = task }
  sched ← set_state task disk_read d.sched
  d' ← enqueue req (record d { sched = sched })
  sched' ← reschedule d'.sched
  ok (0, record d' { sched = sched' })

unfoldable pub ata_read : ℕ → ℕ → ℕ → Disk → Run (ℕ × Disk)
ata_read buf lba seccount d = elim d.sched.current [
  | none ↦ panic
  | some task ↦ read_as task buf lba seccount d
]

-- What the device answers while it is set up.
pub record Answers : Type 0 where
  pub alt_status : ℕ
  pub lba_lo : ℕ
  pub lba_hi : ℕ
  pub statuses : List ℕ
  pub error : ℕ

pub ata_init_dev : Answers → Disk → Run Disk
ata_init_dev answers d = do
  let dev : AtaDev = record { io_base = 0x1f0; io_ctrl_base = 0x3f6 }
  let d = record d { dev = dev }
  let d = outb (ata_drive_reg dev) ata_select_master d
  let d = outb (ata_control_reg dev) 2 d
  let d = outb (ata_seccount_reg dev) 0 d
  let d = outb (ata_lba_lo_reg dev) 0 d
  let d = outb (ata_lba_mid_reg dev) 0 d
  let d = outb (ata_lba_hi_reg dev) 0 d
  let d = outb (ata_command_reg dev) ata_cmd_identify d
  d ← if answers.alt_status == 0 then panic else ok d
  d ← if not (answers.lba_lo == 0) || not (answers.lba_hi == 0) then panic else ok d
  err ← ata_poll answers.statuses answers.error
  if err == 0 then ok (outb (ata_control_reg dev) 0 d) else panic

-- `config` is the configuration space, and `found_dev` what stands in the uninitialised `pci_dev`.
unfoldable pub ata_init : (ℕ → ℕ) → PciDev → Answers → Disk → Run Disk
ata_init config found_dev answers d = do
  (found, _) ← pci_find_device config pci_class_mass_storage_controller pci_subclass_ide found_dev
  if found then ata_init_dev answers d else panic

-- The timer calls it, and it does nothing.
unfoldable pub ata_tick : Disk → Disk
ata_tick d = d
