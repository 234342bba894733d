-- ===== src/Pci.antt =====
-- pci.c and pci.h: the configuration space, its writes, and the search for a device. What a read of the data port
-- gives for the address that was written before it is an argument, `config`; the report that
-- `printk` makes of a device is left out.
pub mod Address
pub mod Search
mod Examples
use low_flex_programming.Base.{
  ℕ, zero, suc, ◌+◌, ◌-◌, ◌*◌, ◌/◌, ◌%◌, ◌^◌, Bool, true, false, ◌==◌, ◌||◌, not, if◌then◌else◌,
  Run, ok, fault, ◌>>=◌, List, ◌∷◌, has, bit_and, bit_or, ◌>>>◌, ◌<<<◌, u32, u8,
}

pub record PciDev : Type 0 where
  pub bus : ℕ
  pub dev : ℕ
  pub func : ℕ
  pub flags : ℕ

abbrev pub pci_flag_msi_capable : ℕ
pci_flag_msi_capable = 1

-- The macro PCI_ADDRESS.
unfoldable pub pci_address : ℕ → ℕ → ℕ → ℕ → ℕ
pci_address bus dev func offset =
    bit_or
      (bit_or (bit_or (bit_or (u32 (bus <<< 16)) (u32 (dev <<< 11))) (u32 (func <<< 8)))
        (bit_and offset 0xfc))
      (2 ^ 31)

-- A new value of the outer `for`'s device, with its function.
abbrev pub at_func : PciDev → ℕ → ℕ → ℕ → PciDev
at_func d bus dev func = record d { bus = bus; dev = dev; func = func }

module _ (config : ℕ → ℕ) where
  unfoldable pub pci_read : PciDev → ℕ → ℕ
  pci_read d offset = config (pci_address d.bus d.dev d.func offset)

  -- The loop over the capabilities, on fuel.
  unfoldable pub capability_loop : ℕ → PciDev → ℕ → Run PciDev
  capability_loop zero d cap_ptr = fault
  capability_loop (suc fuel) d cap_ptr =
      let cap_header = pci_read d cap_ptr in
      let d' : PciDev =
        if bit_and cap_header 0xff == 0x05
        then record d { flags = bit_or d.flags pci_flag_msi_capable }
        else d in
      let next = bit_and (cap_header >>> 8) 0xff in
      let rest = capability_loop fuel d' next in if next == 0 then ok d' else rest

  -- The pointer is a byte, so a list that goes on for longer comes back to itself and never ends.
  abbrev pub capability_fuel : ℕ
  capability_fuel = 257

  unfoldable pub read_capabilities : PciDev → Run PciDev
  read_capabilities d =
      let found = capability_loop capability_fuel d (bit_and (pci_read d 0x34) 0xff) in
      if has (pci_read d 0x04 >>> 16) 16 then found else ok d

  -- The tests of `pci_check_and_init_device` for a device of the class.
  unfoldable pub is_match : ℕ → ℕ → PciDev → Bool
  is_match target_class target_subclass d =
      let class_and_subclass = pci_read d 0x08 in
      if pci_read d 0x00 == 0xffffffff
      then false
      else if (not (bit_and (class_and_subclass >>> 24) 0xff == target_class))
          || not (bit_and (class_and_subclass >>> 16) 0xff == target_subclass)
      then false
      else true

  -- The result, and the device with its flags.
  unfoldable pub pci_check_and_init_device : ℕ → ℕ → PciDev → Run (Bool × PciDev)
  pci_check_and_init_device target_class target_subclass d =
      if is_match target_class target_subclass d
      then (do d' ← read_capabilities d; ok (true, d'))
      else ok (false, d)

  module _ (target_class target_subclass : ℕ) where
    -- The loop over the functions, by those that are left.
    unfoldable pub func_loop : ℕ → ℕ → ℕ → ℕ → PciDev → Run (Bool × PciDev)
    func_loop zero bus dev func d = ok (false, d)
    func_loop (suc funcs) bus dev func d = do
      (found, d') ← pci_check_and_init_device target_class target_subclass (at_func d bus dev func)
      if found then ok (true, d') else func_loop funcs bus dev (func + 1) d'

    -- One device: its function 0, and the others of a device with several.
    unfoldable pub check_dev : ℕ → ℕ → PciDev → Run (Bool × PciDev)
    check_dev bus dev d = do
      let d₀ = at_func d bus dev 0
      let header_type = bit_and (pci_read d₀ 0x0c >>> 16) 0xff
      (found, d') ← pci_check_and_init_device target_class target_subclass d₀
      if found
          then ok (true, d')
          else if has header_type 0x80
          then func_loop 7 bus dev 1 d'
          else ok (false, d')

    unfoldable pub dev_loop : ℕ → ℕ → ℕ → PciDev → Run (Bool × PciDev)
    dev_loop zero bus dev d = ok (false, d)
    dev_loop (suc devs) bus dev d = do
      (found, d') ← check_dev bus dev d
      if found then ok (true, d') else dev_loop devs bus (dev + 1) d'

    unfoldable pub bus_loop : ℕ → ℕ → PciDev → Run (Bool × PciDev)
    bus_loop zero bus d = ok (false, d)
    bus_loop (suc buses) bus d = do
      (found, d') ← dev_loop 32 bus 0 d
      if found then ok (true, d') else bus_loop buses (bus + 1) d'

    pub pci_find_device : PciDev → Run (Bool × PciDev)
    pci_find_device d = bus_loop 256 0 d

abbrev pub pci_address_port : ℕ
pci_address_port = 0xcf8

abbrev pub pci_data_port : ℕ
pci_data_port = 0xcfc

-- What is written to the two ports, the last write first.
unfoldable pub pci_write : PciDev → ℕ → ℕ → List (ℕ × ℕ) → List (ℕ × ℕ)
pci_write d offset value ports =
    (pci_data_port, value) ∷ (pci_address_port, pci_address d.bus d.dev d.func offset) ∷ ports

abbrev pub pci_class_mass_storage_controller : ℕ
pci_class_mass_storage_controller = 1

abbrev pub pci_subclass_ide : ℕ
pci_subclass_ide = 1
