-- ===== src/System/Examples.antt =====
-- A kernel with one runnable task, which is switched to and reads from the disk.
use low_flex_programming.Base.{◌≢◌, refl, [], ◌∷◌, none, some, fault, arith}
use low_flex_programming.Sched.{Task, TaskState, running, is_running, switch_to}
use low_flex_programming.Ata.{Request, ata_read, ata_process_request}
use low_flex_programming.Ata.Queue.{waiting_for, ata_read-waiting_for}
use low_flex_programming.Syscall.{Kernel}
use low_flex_programming.System.{Step, Reach}
use low_flex_programming.System.Queue.{SoundDisk}
use low_flex_programming.System.Invariant.{Reach-Sound, Reach-no_fault}

abbrev task : TaskState → Task
task state = record {
  pid = 1;
  state = state;
  context = record { esp = 0; ebp = 0; esi = 0; edi = 0; ebx = 0 };
  regs = 0;
  kstack = 0x1000;
  ticks_remaining = 0;
  exitcode = 0;
}

abbrev start : Kernel
start = record {
  disk = record {
    dev = record { io_base = 0x1f0; io_ctrl_base = 0x3f6 };
    req_queue = [];
    ports = [];
    memory = λ a. 0;
    sched = record {
      tasks = task running ∷ [];
      current = none;
      pages = record { memory = λ a. 0; freelist_head = 0; kernel_pgdir = 0 };
    };
  };
  terminal = record { row = 0; column = 0; buffer = λ a. 0 };
}

abbrev switched : Kernel
switched = record start {
  disk = record start.disk { sched = record start.disk.sched { current = some 0 } };
}

abbrev request : Request
request = record { buf = 0x2000; lba = 12; sectors_count = 4; task = 0 }

abbrev asleep : Kernel
asleep = record switched { disk = waiting_for 0 (task running) request switched.disk }

run : Reach 11 22 start asleep
unfolding is_running switch_to
run =
    Reach.more start switched asleep
      (Reach.more start start switched (Reach.here start)
        (Step.switch start 0 0x2000 (task running) switched.disk.sched refl refl refl))
      (Step.read switched 0x2000 12 4 0 asleep.disk
        (ata_read-waiting_for 0x2000 12 4 0 (task running) switched.disk refl refl (omega arith)))

Reach-Sound_example : SoundDisk asleep.disk
Reach-Sound_example = Reach-Sound 11 22 start asleep run refl refl

Reach-no_fault_example :
    (ata_process_request (λ i. i) asleep.disk ≢ fault) × (ata_read 0x2000 12 4 asleep.disk ≢ fault)
Reach-no_fault_example = Reach-no_fault 11 22 (λ i. i) 0x2000 12 4 start asleep run refl refl
