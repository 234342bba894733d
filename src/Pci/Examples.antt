-- ===== src/Pci/Examples.antt =====
-- The search on a bus with one controller, and on an empty one.
use low_flex_programming.Base.{
  ℕ, ◌+◌, ◌*◌, ◌/◌, ◌^◌, ◌≡◌, refl, ◌==◌, if◌then◌else◌, List, [], ◌∷◌, ◌++◌, arith,
}
use low_flex_programming.Pci.{PciDev, pci_address, pci_read, is_match}
use low_flex_programming.Pci.Address.{pci_address_lem, pci_address-injective}
use low_flex_programming.Pci.Search.{Location, funcs, bus_locations, all_locations, NoMatch}

pci_address_lem_example :
    pci_address 3 31 7 0x3d ≡ 2 ^ 31 + 3 * 2 ^ 16 + 31 * 2 ^ 11 + 7 * 2 ^ 8 + 0x3c
pci_address_lem_example =
    pci_address_lem 3 31 7 0x3d (omega arith) (omega arith) (omega arith) (omega arith)

abbrev last_bus : ℕ
last_bus = 255

abbrev last_dev : ℕ
last_dev = 31

abbrev last_func : ℕ
last_func = 7

abbrev register : ℕ
register = 0x3c

pci_address-injective_example :
    (last_bus ≡ 255) × (last_dev ≡ 31) × (last_func ≡ 7) × (register / 4 ≡ 0x3d / 4)
unfolding pci_address
pci_address-injective_example =
    pci_address-injective last_bus 31 7 register 255 31 7 0x3d (omega arith) (omega arith)
      (omega arith) (omega arith) (omega arith) (omega arith) (omega arith) (omega arith) refl

abbrev device : PciDev
device = record { bus = 9; dev = 9; func = 9; flags = 0 }

-- Bus 0 has a bridge as device 0, and an IDE controller as device 1.
abbrev one_controller : ℕ → ℕ
one_controller a = if a == 0x80000808 then 0x01010000 else 0

abbrev behind : List Location
behind =
    (funcs 0 0 1 1 ++ bus_locations one_controller 30 0 2) ++ all_locations one_controller 255 1

-- A read without a device gives all ones.
abbrev no_device : ℕ → ℕ
no_device a = 0xffffffff

nowhere : (ls : List Location) → NoMatch no_device 1 1 ls
unfolding is_match pci_read
nowhere [] = tt
nowhere (l ∷ ls) = (refl, nowhere ls)
