-- ===== src/Start.antt =====
-- kernel.c and init.c: the start of the kernel, part after part, and what the first task does before it
-- leaves for user code. What the linker, the firmware and the devices give is a record of its own.
use low_flex_programming.Base.{
  ℕ, List, [], ◌∷◌, ◌==◌, if◌then◌else◌, none, some, get_elem?, Run, ok, panic, fault, ◌>>=◌,
  checked,
}
use low_flex_programming.Common.{Memory}
use low_flex_programming.EventBus.{Bus}
use low_flex_programming.Terminal.{Terminal, terminal_initialize}
use low_flex_programming.Printk.{printk}
use low_flex_programming.Paging.{Pages, init_kalloc_early, init_kernel_paging, identity_map}
use low_flex_programming.Descriptors.{GdtEntry, IdtEntry, Handlers, init_gdt, init_idt}
use low_flex_programming.Acpi.{acpi_find_rsdt, acpi_validate_rsdt}
use low_flex_programming.Apic.Setup.{apic_init}
use low_flex_programming.Apic.Calibrate.{Measurement, Timers, calibrate_apic_timer}
use low_flex_programming.MemoryMap.{print_mmap}
use low_flex_programming.Sched.{Sched}
use low_flex_programming.Sched.Start.{start_init}
use low_flex_programming.Ata.{Disk}
use low_flex_programming.Syscall.{Kernel}
use low_flex_programming.Ext2.{init_ext2}

-- Addresses of the linker, the strings of the code, and what the devices answer. `firmware` is the
-- memory of bytes with the tables of the firmware and of the boot loader.
pub record Surroundings : Type 0 where
  pub firmware : Memory
  pub bytes_at : ℕ → List ℕ
  pub stack_buf : List ℕ
  pub tss : ℕ
  pub handlers : Handlers
  pub kernel_end : ℕ
  pub userspace_start : ℕ
  pub keypress : ℕ
  pub mbd : ℕ
  pub rsd_ptr : ℕ
  pub apic_name : ℕ
  pub measurement : Measurement
  pub jump_userspace : ℕ
  pub task_init : ℕ
  pub userspace_fn : ℕ

-- The state of the parts.
pub record Machine : Type 0 where
  pub gdt : List GdtEntry
  pub idt : List IdtEntry
  pub terminal : Terminal
  pub bus : Bus
  pub timers : Timers
  pub sched : Sched

abbrev rsdt_format : List ℕ
rsdt_format =
    b'R' ∷ b'S' ∷ b'D' ∷ b'T' ∷ b' ' ∷ b'f' ∷ b'o' ∷ b'u' ∷ b'n' ∷ b'd' ∷ b' ' ∷ b'a' ∷ b't' ∷ b' '
    ∷ b'%' ∷ b'x' ∷ b'\n' ∷ 0 ∷ []

abbrev loaded_format : List ℕ
loaded_format =
    b'H' ∷ b'e' ∷ b'l' ∷ b'l' ∷ b' ' ∷ b'O' ∷ b'S' ∷ b' ' ∷ b'i' ∷ b's' ∷ b' ' ∷ b'l' ∷ b'o' ∷ b'a'
    ∷ b'd' ∷ b'e' ∷ b'd' ∷ b'\n' ∷ 0 ∷ []

-- The mappings that a part has asked for, the last one first.
unfoldable pub map_all : List (ℕ × ℕ) → Pages → Run Pages
map_all [] pages = ok pages
map_all ((addr, size) ∷ maps) pages = do pages ← map_all maps pages; identity_map pages addr size

-- The parts that come before the tables of the firmware.
unfoldable pub early : Surroundings → Machine → Run Machine
early w mc = do
  gdt ← init_gdt w.tss mc.gdt
  let idt = init_idt w.handlers mc.idt
  pages ← init_kalloc_early w.kernel_end mc.sched.pages
  pages ← init_kernel_paging w.userspace_start pages
  (terminal, bus) ← terminal_initialize w.keypress mc.terminal mc.bus
  terminal ← print_mmap w.bytes_at w.stack_buf w.firmware w.mbd terminal
  ok (record mc {
    gdt = gdt;
    idt = idt;
    terminal = terminal;
    bus = bus;
    sched = record mc.sched { pages = pages };
  })

-- The parts from the interrupt controllers on, for a root table that has been found and is sound.
unfoldable pub late : Surroundings → ℕ → Machine → Run Machine
late w rsdt mc = do
  apic ← apic_init w.firmware rsdt w.apic_name
  pages ← map_all apic.mapped mc.sched.pages
  timers ← calibrate_apic_timer w.measurement (record { lapic = apic.lapic; ports = apic.ports })
  terminal ← printk w.bytes_at w.stack_buf loaded_format [] mc.terminal
  sched ← start_init w.jump_userspace w.task_init w.userspace_fn (record mc.sched { pages = pages })
  ok (record mc { terminal = terminal; timers = timers; sched = sched })

-- `kernel_main`, up to the endless loop of `scheduler_start`, whose rounds are in Sched/Start.
unfoldable pub kernel_main : Surroundings → Machine → Run Machine
kernel_main w mc = do
  mc ← early w mc
  let (rsdt, maps) = acpi_find_rsdt w.firmware w.rsd_ptr
  pages ← map_all maps mc.sched.pages
  rsdt ← if rsdt == 0 then panic else ok rsdt
  terminal ← printk w.bytes_at w.stack_buf rsdt_format (rsdt ∷ []) mc.terminal
  _ ← acpi_validate_rsdt w.firmware rsdt
  late w rsdt (record mc { terminal = terminal; sched = record mc.sched { pages = pages } })

-- What the first task does before it leaves for user code; `ata_read` is the driver's, and `root_ext2`
-- and `root_inode` are the places of the file system's structures.
module _ (ata_read : ℕ → ℕ → ℕ → Disk → Run (ℕ × Disk)) (stack_buf : List ℕ)
    (root_ext2 root_inode : ℕ) where
  unfoldable pub init_late : Kernel → Run Kernel
  init_late k = init_ext2 ata_read stack_buf root_ext2 root_inode k

  -- `task_init` of sched.c. The pointer `current` of a task that runs is not NULL.
  unfoldable pub task_init : Kernel → Run Kernel
  task_init k = elim k.disk.sched.current [
    | none ↦ fault
    | some i ↦ do
      task ← checked (get_elem? k.disk.sched.tasks i)
      if task.pid == 1 then init_late k else ok k
  ]
