-- ===== src/Lib.antt =====
-- A model of the kernel "low-flex-programming": a small 32-bit x86 kernel in C, for one processor.
--
-- The parts, and how they interact.
--   * Base holds what the models share: Boolean tests, lists over the native numbers, 32-bit words
--     with their wrap-around written out (Base/Words), bitwise operations (Base/Bits), tables
--     that are searched by evaluation (Base/Tables), and the outcome of code that may panic or run
--     into undefined behaviour (Run in Base/Outcome: ok, panic, fault).
--   * Common: the byte routines of common.h.
--   * EventBus: event_bus.c, the table of callbacks and the delivery of events. What a callback does
--     is a parameter of fire_event.
--   * Terminal: vga.c and vga.h, the text screen. Its buffer is a function from cell numbers to
--     cells; cells from 2000 on are the memory behind the screen, which scrolling reads. It
--     registers its handler with the event bus.
--   * Printk: printk.c. A buffer is a list of bytes and a write outside it is a fault. Texts go to
--     the terminal.
--   * Apic: apic.c, the acknowledgement of interrupts; in Apic/Setup, the walk over the firmware's
--     table of controllers and their set-up; in Apic/Calibrate, the measurement of the timer.
--   * Keyboard: keyboard.c with the tables of ps2_kbd_defs.h. Its interrupt reads a scan code, tells
--     the local interrupt controller, and fires an event at the terminal.
--   * Paging: paging.c, paging.h and defs.h, the free list of pages and the page tables, over a memory
--     of 32-bit words; Paging/Translate has the walk of the processor through them.
--   * Frame: irq.h, the frame of an interrupt in that memory.
--   * Sched: sched.c, sched.h and timer.c. The tasks are a list; what a task does between its switch
--     and its next reschedule is an argument of scheduler_round. Sched/Start has the first task and
--     the loop of scheduler_start.
--   * Ata: ata.c and ata.h, the disk's requests. Requests wait in a list and put tasks of Sched to
--     sleep; an interrupt wakes them. Ata/Device has the device behind the ports and a read from the
--     call to its return, which is what the clients of the driver rely on (Reads).
--   * Ext2: ext2.c, over a read of the disk that is a parameter with the law Reads. Its structures
--     stand in the memory of the disk's buffers.
--   * Syscall: syscall.c, which reads its frame from the memory and calls Sched, Ata and Terminal.
--   * Descriptors: gdt.c, gdt.h and idt.c, the tables of the processor.
--   * Acpi: acpi.c and acpi.h, the firmware's tables in a memory of bytes, searched with memcmp of
--     Common.
--   * Pci: pci.c and pci.h. What the configuration space holds is an argument.
--   * MemoryMap: memory_map.c, the report of the boot loader's memory map.
--   * Panic: panic.c, the screen that a panic leaves.
--   * Spinlock: spinlock.h, the lock and the processors that use it.
--   * Start: kernel.c and init.c, which call the parts in order.
--   * System: the scheduler, the system calls and the disk on one state, as a step relation.
--
-- Numbers. An unsigned word is a number below 2 ^ 32; an int is its bit pattern, so that -1 is
-- 2 ^ 32 - 1 (minus32 1). A pointer is an address and NULL is 0.
--
-- Loops. Loops with a known number of rounds are recursion on the rounds left. bprintu32's loop runs
-- on 33 rounds of fuel, enough for 32 binary digits; fire_event on 1024, the size of its
-- table. Running out of fuel is a fault, and the theorems state that the code returns.
-- init_kalloc_early's loop runs on 1025 rounds, for the 1024 pages of 4 MB, and the loop over the
-- capabilities of a PCI device on 257, one more than there are pointers: a list that is longer never
-- ends. apic_init walks over its table on one more round than the table has bytes.
-- ata_poll uses up the list of the values that its register takes.
--
-- The walk over a directory block runs on 4097 rounds, one more than a block has bytes. The report of
-- the memory map has one more round than the map has bytes. Loops that poll a port use up the list of
-- what the port gives. The endless loop of scheduler_start is looked at for any number of rounds.
--
-- A system call, an interrupt and a read of the disk are steps as a whole: what an interrupt does
-- between two instructions of a read outside its critical section is not modelled.
--
-- Not modelled: assembly and single instructions of the processor (the loads of its control registers,
-- the switch of stacks); multiboot.h, which is the header of another project.
pub mod Acpi
pub mod Apic
pub mod Ata
pub mod Base
pub mod Common
pub mod Descriptors
pub mod EventBus
pub mod Ext2
pub mod Frame
pub mod Keyboard
pub mod MemoryMap
pub mod Paging
pub mod Panic
pub mod Pci
pub mod Printk
pub mod Sched
pub mod Spinlock
pub mod Start
pub mod Syscall
pub mod System
pub mod Terminal
