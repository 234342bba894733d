-- ===== src/Pci/Search.antt =====
-- The search, as a walk over the list of all functions.
use low_flex_programming.Base.{
  ℕ, zero, suc, ◌+◌, ◌≡◌, refl, ap, sym, ◌∙◌, List, [], ◌∷◌, ◌++◌, Bool, true, false, if◌then◌else◌,
  Run, ok, panic, fault, ◌>>=◌, has, bit_and, ◌>>>◌, fun_ext, Bool-cases, inl, inr,
}
use low_flex_programming.Pci.{
  PciDev, at_func, pci_read, read_capabilities, is_match, pci_check_and_init_device, func_loop,
  check_dev, dev_loop, bus_loop, pci_find_device,
}

-- A function of a device, by the numbers of the bus, the device and the function.
pub record Location : Type 0 where
  pub bus : ℕ
  pub dev : ℕ
  pub func : ℕ

abbrev pub at : PciDev → Location → PciDev
at d l = at_func d l.bus l.dev l.func

abbrev pub loc : ℕ → ℕ → ℕ → Location
loc bus dev func = record { bus = bus; dev = dev; func = func }

-- The functions from `func` on.
abbrev pub funcs : ℕ → ℕ → ℕ → ℕ → List Location
funcs zero bus dev func = []
funcs (suc n) bus dev func = loc bus dev func ∷ funcs n bus dev (func + 1)

module _ (config : ℕ → ℕ) where
  -- Bit 7 of the header's type.
  abbrev pub is_multifunction : ℕ → ℕ → Bool
  is_multifunction bus dev =
      has
        (bit_and
          (pci_read config (record { bus = bus; dev = dev; func = 0; flags = 0 }) 0x0c >>> 16) 0xff)
        0x80

  abbrev pub dev_locations : ℕ → ℕ → List Location
  dev_locations bus dev =
      loc bus dev 0 ∷ (if is_multifunction bus dev then funcs 7 bus dev 1 else [])

  unfoldable pub bus_locations : ℕ → ℕ → ℕ → List Location
  bus_locations zero bus dev = []
  bus_locations (suc n) bus dev = dev_locations bus dev ++ bus_locations n bus (dev + 1)

  unfoldable pub all_locations : ℕ → ℕ → List Location
  all_locations zero bus = []
  all_locations (suc n) bus = bus_locations 32 bus 0 ++ all_locations n (bus + 1)

  module _ (class subclass : ℕ) where
    -- The walk over a list of functions, up to the first match.
    pub walk : List Location → PciDev → Run (Bool × PciDev)
    walk [] d = ok (false, d)
    walk (l ∷ ls) d = do
      (found, d') ← pci_check_and_init_device config class subclass (at d l)
      if found then ok (true, d') else walk ls d'

    -- Stop at a match, and go on with `next` otherwise.
    abbrev or_on : Run (Bool × PciDev) → (PciDev → Run (Bool × PciDev)) → Run (Bool × PciDev)
    or_on r next = r >>= λ p. if p.0 then ok (true, p.1) else next p.1

    or_on_assoc :
        (r : Run (Bool × PciDev)) (f g next : PciDev → Run (Bool × PciDev))
        → ((d : PciDev) → f d ≡ or_on (g d) next)
        → or_on r f ≡ or_on (or_on r g) next
    or_on_assoc panic f g next h = refl
    or_on_assoc fault f g next h = refl
    or_on_assoc (ok (true, d)) f g next h = refl
    or_on_assoc (ok (false, d)) f g next h = h d

    walk-append :
        (xs ys : List Location) (d : PciDev) → walk (xs ++ ys) d ≡ or_on (walk xs d) (walk ys)
    unfolding walk
    walk-append [] ys d = refl
    walk-append (x ∷ xs) ys d =
        or_on_assoc (pci_check_and_init_device config class subclass (at d x)) (walk (xs ++ ys))
          (walk xs) (walk ys) (walk-append xs ys)

    func_loop-walk :
        (n bus dev func : ℕ) (d : PciDev)
        → func_loop config class subclass n bus dev func d ≡ walk (funcs n bus dev func) d
    unfolding func_loop walk
    func_loop-walk zero bus dev func d = refl
    func_loop-walk (suc n) bus dev func d =
        ap (or_on (pci_check_and_init_device config class subclass (at_func d bus dev func)))
          (fun_ext (λ d'. func_loop-walk n bus dev (func + 1) d'))

    check_dev-walk :
        (bus dev : ℕ) (d : PciDev)
        → check_dev config class subclass bus dev d ≡ walk (dev_locations bus dev) d
    unfolding check_dev walk pci_read
    check_dev-walk bus dev d = elim (Bool-cases (is_multifunction bus dev)) [
      | inl many ↦ rw many (
          ap (or_on (pci_check_and_init_device config class subclass (at_func d bus dev 0)))
            (fun_ext (λ d'. func_loop-walk 7 bus dev 1 d')))
      | inr one ↦ rw one refl
    ]

    dev_loop-walk :
        (n bus dev : ℕ) (d : PciDev)
        → dev_loop config class subclass n bus dev d ≡ walk (bus_locations n bus dev) d
    unfolding dev_loop walk bus_locations
    dev_loop-walk zero bus dev d = refl
    dev_loop-walk (suc n) bus dev d =
        ap (λ r. or_on r (dev_loop config class subclass n bus (dev + 1)))
          (check_dev-walk bus dev d)
        ∙ ap (or_on (walk (dev_locations bus dev) d))
            (fun_ext (λ d'. dev_loop-walk n bus (dev + 1) d'))
        ∙ sym (walk-append (dev_locations bus dev) (bus_locations n bus (dev + 1)) d)

    bus_loop-walk :
        (n bus : ℕ) (d : PciDev)
        → bus_loop config class subclass n bus d ≡ walk (all_locations n bus) d
    unfolding bus_loop walk all_locations
    bus_loop-walk zero bus d = refl
    bus_loop-walk (suc n) bus d =
        ap (λ r. or_on r (bus_loop config class subclass n (bus + 1))) (dev_loop-walk 32 bus 0 d)
        ∙ ap (or_on (walk (bus_locations 32 bus 0) d))
            (fun_ext (λ d'. bus_loop-walk n (bus + 1) d'))
        ∙ sym (walk-append (bus_locations 32 bus 0) (all_locations n (bus + 1)) d)

    -- The device there has the class; the flags do not matter.
    abbrev pub Matches : Location → Bool → Type 0
    Matches l answer =
        is_match config class subclass
          (record { bus = l.bus; dev = l.dev; func = l.func; flags = 0 })
        ≡ answer

    Matches-at :
        (l : Location) (answer : Bool) (d : PciDev)
        → Matches l answer
        → is_match config class subclass (at d l) ≡ answer
    unfolding is_match pci_read
    Matches-at l answer d h = h

    -- The functions of a list do not match.
    abbrev pub NoMatch : List Location → Type 0
    NoMatch [] = Unit
    NoMatch (l ∷ ls) = Matches l false × NoMatch ls

    skip_all :
        (ls : List Location) (d : PciDev)
        → NoMatch ls
        → (d' : PciDev) × (walk ls d ≡ ok (false, d')) × (d'.flags ≡ d.flags)
    unfolding walk pci_check_and_init_device
    skip_all [] d h = (d, refl, refl)
    skip_all (l ∷ ls) d h =
        let (d', run, same) = skip_all ls (at d l) h.1 in (d', skip_one ∙ run, same)
      where
        skip_one : walk (l ∷ ls) d ≡ walk ls (at d l)
        skip_one = rw (Matches-at l false d h.0) refl

    meet :
        (ls : List Location) (l : Location) (d : PciDev)
        → Matches l true
        → walk (l ∷ ls) d ≡ (read_capabilities config (at d l) >>= λ d'. ok (true, d'))
    unfolding walk pci_check_and_init_device
    meet ls l d h = rw (Matches-at l true d h) (stop (read_capabilities config (at d l)))
      where
        stop :
            (r : Run PciDev)
            → or_on (r >>= λ d'. ok (true, d')) (walk ls) ≡ (r >>= λ d'. ok (true, d'))
        stop panic = refl
        stop fault = refl
        stop (ok d') = refl

    -- If no function of the 256 buses matches, `pci_find_device` returns 0 and leaves the flags of the
    -- device as they are.
    pub pci_find_device-none :
        (d : PciDev)
        → NoMatch (all_locations 256 0)
        → (d' : PciDev) × (pci_find_device config class subclass d ≡ ok (false, d'))
          × (d'.flags ≡ d.flags)
    unfolding pci_find_device
    pci_find_device-none d h =
        let (d', run, same) = skip_all (all_locations 256 0) d h in
        (d', bus_loop-walk 256 0 d ∙ run, same)

    pub pci_find_device-first :
        (before after : List Location) (l : Location) (d : PciDev)
        → all_locations 256 0 ≡ before ++ l ∷ after
        → NoMatch before
        → Matches l true
        → pci_find_device config class subclass d
          ≡ (read_capabilities config (at d l) >>= λ d'. ok (true, d'))
    unfolding pci_find_device
    pci_find_device-first before after l d e none match =
        bus_loop-walk 256 0 d
        ∙ ap (λ ls. walk ls d) e
        ∙ walk-append before (l ∷ after) d
        ∙ (let (d', run, same) = skip_all before d none in
            ap (λ r. or_on r (walk (l ∷ after))) run
            ∙ meet after l d' match
            ∙ ap
                (λ fl.
                  read_capabilities config
                    (record { bus = l.bus; dev = l.dev; func = l.func; flags = fl })
                  >>= λ found. ok (true, found))
                same)
