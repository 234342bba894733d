-- ===== src/Ata/Init.antt =====
-- ata_init: the controller that PCI finds.
use low_flex_programming.Base.{ℕ, ◌≡◌, refl, List, ◌∷◌, ◌++◌, true, ok, panic}
use low_flex_programming.Pci.{
  PciDev, pci_class_mass_storage_controller, pci_subclass_ide, read_capabilities,
}
use low_flex_programming.Pci.Search.{
  Location, at, all_locations, Matches, NoMatch, pci_find_device-none, pci_find_device-first,
}
use low_flex_programming.Ata.{Answers, Disk, ata_init_dev, ata_init}

-- Without an IDE controller on the 256 buses, `ata_init` panics.
pub ata_init-panic :
    (config : ℕ → ℕ) (found_dev : PciDev) (answers : Answers) (d : Disk)
    → NoMatch config pci_class_mass_storage_controller pci_subclass_ide (all_locations config 256 0)
    → ata_init config found_dev answers d ≡ panic
unfolding ata_init
ata_init-panic config found_dev answers d none_there =
    let (d', run, same) = pci_find_device-none config 1 1 found_dev none_there in rw run refl

-- With one whose capabilities are read, it sets up the device.
pub ata_init-found :
    (config : ℕ → ℕ) (found_dev dev : PciDev) (answers : Answers) (d : Disk)
    (before after : List Location) (l : Location)
    → all_locations config 256 0 ≡ before ++ l ∷ after
    → NoMatch config pci_class_mass_storage_controller pci_subclass_ide before
    → Matches config pci_class_mass_storage_controller pci_subclass_ide l true
    → read_capabilities config (at found_dev l) ≡ ok dev
    → ata_init config found_dev answers d ≡ ata_init_dev answers d
unfolding ata_init
ata_init-found config found_dev dev answers d before after l split none_before match_here read =
    rw
      (pci_find_device-first config 1 1 before after l found_dev split none_before match_here, read)
      refl
