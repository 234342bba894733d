-- ===== src/Acpi/Examples.antt =====
-- A root table with one entry, and a small region.
use low_flex_programming.Base.{◌%◌, ◌≡◌, refl, panic, arith}
use low_flex_programming.Common.{Memory, write}
use low_flex_programming.Acpi.{find_rsdp_in_region, acpi_validate_rsdt, read32}
use low_flex_programming.Acpi.Checksum.{acpi_validate_rsdt-panic}
use low_flex_programming.Acpi.Find.{find_rsdp_in_region-first}

-- The root table stands at 0 and has a length of 40, which is one entry; that is the table at 0x100,
-- of 6 bytes: a byte that completes the sum, and the length.
abbrev sound : Memory
sound = write (write (write (write (λ a. 0) 4 40) 37 1) 0x104 6) 0x100 250

abbrev corrupted : Memory
corrupted = write sound 0x101 1

acpi_validate_rsdt-panic_example : acpi_validate_rsdt corrupted 0 ≡ panic
unfolding read32 write
acpi_validate_rsdt-panic_example =
    acpi_validate_rsdt-panic corrupted 0 0 (omega arith) (λ e. absurd (omega (arith, e)))

-- Every place holds its remainder by 16, so that the signature at 3 comes again at 0x1003.
abbrev periodic : Memory
periodic = λ a. a % 16

find_rsdp_in_region-first_example : find_rsdp_in_region periodic 3 0x1001 64 ≡ 0x1003
find_rsdp_in_region-first_example =
    find_rsdp_in_region-first periodic 3 0x1001 64 2 (omega arith)
      (λ s. absurd (omega (arith, s.0)), (λ s. absurd (omega (arith, s.0)), tt))
      (refl, (refl, (refl, (refl, (refl, (refl, (refl, (refl, tt))))))))
