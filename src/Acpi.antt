-- ===== src/Acpi.antt =====
-- acpi.c and acpi.h: the tables of the firmware, in a memory of bytes. The strings of the code are
-- given by their addresses. What is mapped is a list of addresses and sizes, for identity_map.
pub mod Checksum
pub mod Find
mod Examples
use low_flex_programming.Base.{
  ℕ, zero, suc, ◌+◌, ◌-◌, ◌*◌, ◌/◌, ◌%◌, ◌^◌, Bool, true, false, ◌==◌, if◌then◌else◌, List, [], ◌∷◌,
  Run, ok, panic, ◌>>=◌, leb, u8, sub32, u32,
}
use low_flex_programming.Common.{Memory, memcmp}
use low_flex_programming.Paging.{phys2virt, page_size}

unfoldable pub read16 : Memory → ℕ → ℕ
read16 m a = m a + m (a + 1) * 2 ^ 8

unfoldable pub read32 : Memory → ℕ → ℕ
read32 m a = m a + m (a + 1) * 2 ^ 8 + m (a + 2) * 2 ^ 16 + m (a + 3) * 2 ^ 24

-- The header of a table: its size, and the place of its length.
abbrev pub sizeof_header : ℕ
sizeof_header = 36

abbrev pub header_length : Memory → ℕ → ℕ
header_length m table = read32 m (table + 4)

-- The loop of `find_rsdp_in_region`, by the rounds that are left.
unfoldable pub find_loop : Memory → ℕ → ℕ → ℕ → ℕ
find_loop m signature zero addr = 0
find_loop m signature (suc rounds) addr =
    let rest = find_loop m signature rounds (addr + 1) in
    if memcmp m signature addr 8 == 0 then addr else rest

-- `len - 8`, which wraps around for a length below 8.
unfoldable pub places : ℕ → ℕ
places len = if leb 8 len then len - 8 else len + 2 ^ 32 - 8

unfoldable pub find_rsdp_in_region : Memory → ℕ → ℕ → ℕ → ℕ
find_rsdp_in_region m signature start len = find_loop m signature (places len) start

-- The address of the root table, or NULL, and what is mapped for it.
unfoldable pub acpi_find_rsdt : Memory → ℕ → ℕ × List (ℕ × ℕ)
acpi_find_rsdt m signature =
    let ebda_addr = phys2virt (u32 (read16 m (phys2virt 0x40e) * 2 ^ 4)) in
    let low = find_rsdp_in_region m signature ebda_addr 1024 in
    let rsdp =
      if low == 0
      then find_rsdp_in_region m signature (phys2virt 0xe0000) (0xfffff - 0xe0000)
      else low in
    let rsdt_addr = read32 m (rsdp + 16) in
    if rsdp == 0 then (0, []) else (rsdt_addr, (rsdt_addr, page_size) ∷ [])

-- The number of entries of the root table, and the entry at an index.
abbrev pub entry_count : Memory → ℕ → ℕ
entry_count m root = sub32 (header_length m root) sizeof_header / 4

abbrev pub root_entry : Memory → ℕ → ℕ → ℕ
root_entry m root i = read32 m (root + sizeof_header + 4 * i)

-- The loop of `acpi_find_sdt`, by the entries that are left.
unfoldable pub find_sdt_loop : Memory → ℕ → ℕ → ℕ → ℕ → ℕ
find_sdt_loop m root signature zero i = 0
find_sdt_loop m root signature (suc rounds) i =
    let rest = find_sdt_loop m root signature rounds (i + 1) in
    if memcmp m signature (root_entry m root i) 4 == 0 then root_entry m root i else rest

unfoldable pub acpi_find_sdt : Memory → ℕ → ℕ → ℕ × List (ℕ × ℕ)
acpi_find_sdt m root signature =
    let entry = find_sdt_loop m root signature (entry_count m root) 0 in
    if entry == 0 then (0, []) else (entry, (entry, 2 * page_size) ∷ [])

-- The loop of `acpi_validate_sdt`: an `unsigned char` is the sum.
unfoldable pub sum_loop : Memory → ℕ → ℕ → ℕ → ℕ
sum_loop m zero addr sum = sum
sum_loop m (suc rounds) addr sum = sum_loop m rounds (addr + 1) (u8 (sum + m addr))

unfoldable pub acpi_validate_sdt : Memory → ℕ → Bool
acpi_validate_sdt m entry = sum_loop m (header_length m entry) entry 0 == 0

-- The panic is that of a table with a wrong sum.
unfoldable pub validate_loop : Memory → ℕ → ℕ → ℕ → Run ℕ
validate_loop m root zero i = ok i
validate_loop m root (suc rounds) i =
    let rest = validate_loop m root rounds (i + 1) in
    if acpi_validate_sdt m (root_entry m root i) then rest else panic

unfoldable pub acpi_validate_rsdt : Memory → ℕ → Run ℕ
acpi_validate_rsdt m root = validate_loop m root (entry_count m root) 0
