-- ===== src/MemoryMap/Examples.antt =====
-- The report of a memory map with one entry.
use low_flex_programming.Base.{◌+◌, ◌≡◌, refl, [], ◌==◌, if◌then◌else◌, ok, arith, replicate}
use low_flex_programming.Common.{Memory}
use low_flex_programming.Acpi.{read32}
use low_flex_programming.Paging.{phys2virt}
use low_flex_programming.Terminal.{Terminal}
use low_flex_programming.Terminal.Print.{print_all}
use low_flex_programming.Printk.{color}
use low_flex_programming.MemoryMap.{print_mmap}
use low_flex_programming.MemoryMap.Text.{AreBytes, report, print_mmap-report}

-- The information block is at the physical address 0x1000: both flags, 640 KB of low memory, and a map
-- of 24 bytes at 0x2000.
abbrev memory : Memory
memory a =
    if a == phys2virt 0x1000
    then 0x41
    else if a == phys2virt 0x1000 + 5
    then 2
    else if a == phys2virt 0x1000 + 44
    then 24
    else if a == phys2virt 0x1000 + 49
    then 0x20
    else 0

memory-AreBytes : AreBytes memory
memory-AreBytes a = ground arith

abbrev screen : Terminal
screen = record { row = 0; column = 0; buffer = λ a. 0 }

print_mmap-report_example :
    print_mmap (λ p. []) (replicate 11 0) memory 0x1000 screen
    ≡ ok (print_all screen (report memory (phys2virt 0x1000) 1) color)
unfolding read32
print_mmap-report_example =
    print_mmap-report (λ p. []) (replicate 11 0) refl memory 0x1000 1 screen memory-AreBytes refl
      (omega arith)
