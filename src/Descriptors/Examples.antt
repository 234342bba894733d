-- ===== src/Descriptors/Examples.antt =====
-- The tables of the kernel, over tables of zeros.
use low_flex_programming.Base.{ℕ, ◌≡◌, ◌≢◌, [], ◌∷◌, some, get_elem?, ok, arith}
use low_flex_programming.Descriptors.{GdtEntry, gdt_register, init_gdt, IdtEntry, Handlers}
use low_flex_programming.Descriptors.Segments.{
  base_of, limit_of, granularity, is_32bit, Describes, gdt_register-describes, init_gdt-Describes,
}

abbrev unset : GdtEntry
unset = record {
  limit_low = 0;
  base_low = 0;
  base_middle = 0;
  access = 0;
  limit_high = 0;
  base_high = 0;
}

gdt_register-describes_example :
    (e : GdtEntry) × (get_elem? (gdt_register (unset ∷ unset ∷ []) 1 0x12345678 0xabcdef 0x1a) 1
      ≡ some e)
    × (base_of e ≡ 0x12345678)
    × (limit_of e ≡ 0xbcdef)
    × (granularity e ≡ 1)
    × (is_32bit e ≡ 1)
    × (e.access ≡ 0x9a)
    × ((j : ℕ)
        → 1 ≢ j
        → get_elem? (gdt_register (unset ∷ unset ∷ []) 1 0x12345678 0xabcdef 0x1a) j
          ≡ get_elem? (unset ∷ unset ∷ []) j)
gdt_register-describes_example =
    gdt_register-describes (unset ∷ unset ∷ []) 1 0x12345678 0xabcdef 0x1a (omega arith)
      (omega arith)

init_gdt-Describes_example :
    (null kernel_code kernel_data user_code user_data task_state : GdtEntry) × (init_gdt 0xc0123456
        (unset ∷ unset ∷ unset ∷ unset ∷ unset ∷ unset ∷ [])
      ≡ ok (null ∷ kernel_code ∷ kernel_data ∷ user_code ∷ user_data ∷ task_state ∷ []))
    × Describes kernel_code 0 0xfffff 0x9a
    × Describes kernel_data 0 0xfffff 0x92
    × Describes user_code 0 0xfffff 0xfa
    × Describes user_data 0 0xfffff 0xf2
    × Describes task_state 0xc0123456 99 0x8b
init_gdt-Describes_example =
    init_gdt-Describes 0xc0123456 unset unset unset unset unset unset (omega arith)

abbrev handlers : Handlers
handlers = record {
  pagefault_irq = 1;
  timer_irq = 2;
  spurious_irq = 3;
  keyboard_irq = 0xc0100040;
  ide_irq1 = 5;
  ide_irq2 = 6;
  syscall_irq = 7;
}

abbrev no_gate : IdtEntry
no_gate = record { base_lo = 0; selector = 0; zero_byte = 0; flags = 0; base_hi = 0 }
