-- ===== src/Ata/Examples.antt =====
-- The driver of the disk on concrete requests.
use low_flex_programming.Base.{ℕ, ◌+◌, ◌%◌, ◌≡◌, refl, List, [], ◌∷◌, some, ok, arith}
use low_flex_programming.Sched.{Task, TaskState, running, disk_read}
use low_flex_programming.Ata.{Request, Disk}
use low_flex_programming.Ata.Image.{Image, IsBytes, HoldsDisk}
use low_flex_programming.Ata.Device.{Ready, blocking_read, blocking_read-HoldsDisk}
use low_flex_programming.Ata.Transfer.{process_all, completed, process_all-completed}

abbrev task : TaskState → Task
task state = record {
  pid = 1;
  state = state;
  context = record { esp = 0; ebp = 0; esi = 0; edi = 0; ebx = 0 };
  regs = 0;
  kstack = 0;
  ticks_remaining = 0;
  exitcode = 0;
}

abbrev request : ℕ → Request
request count = record { buf = 0x1000; lba = 0x1234567; sectors_count = count; task = 0 }

abbrev disk : List Request → TaskState → Disk
disk queue state = record {
  dev = record { io_base = 0x1f0; io_ctrl_base = 0x3f6 };
  req_queue = queue;
  ports = [];
  memory = λ a. 0;
  sched = record {
    tasks = task state ∷ [];
    current = some 0;
    pages = record { memory = λ a. 0; freelist_head = 0; kernel_pgdir = 0 };
  };
}

abbrev sectors : List (ℕ → ℕ)
sectors = (λ i. i + 1) ∷ (λ i. 3) ∷ []

process_all-completed_example :
    process_all sectors (disk (request 2 ∷ request 7 ∷ []) disk_read)
    ≡ ok (
        completed sectors
          (request 2)
          (request 7 ∷ [])
          (task disk_read)
          (disk (request 2 ∷ request 7 ∷ []) disk_read))
process_all-completed_example =
    process_all-completed sectors (request 2) (request 7 ∷ []) (task disk_read)
      (disk (request 2 ∷ request 7 ∷ []) disk_read) refl refl (omega arith) (omega arith)
      (omega arith) (omega arith) (omega arith) refl

-- A disk whose bytes count up, over and over.
abbrev counting : Image
counting o = o % 256

counting-IsBytes : IsBytes counting
counting-IsBytes o = omega arith

abbrev idle_disk : Ready (disk [] running)
idle_disk = record {
  idle = refl;
  index = 0;
  task = task running;
  current = refl;
  listed = refl;
  runs = refl;
}

blocking_read-HoldsDisk_example :
    (d' : Disk) × (blocking_read counting 0x1000 12 4 (disk [] running) ≡ ok (0, d'))
    × Ready d'
    × HoldsDisk counting 6144 2048 0x1000 (λ a. 0) d'.memory
    × (d'.sched ≡ (disk [] running).sched)
blocking_read-HoldsDisk_example =
    blocking_read-HoldsDisk counting 0x1000 12 4 (disk [] running) counting-IsBytes idle_disk
      (omega arith) (omega arith) (omega arith) (omega arith) (omega arith)
