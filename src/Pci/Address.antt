-- ===== src/Pci/Address.antt =====
-- Addresses in the configuration space.
use low_flex_programming.Base.{
  ℕ, ◌+◌, ◌-◌, ◌*◌, ◌/◌, ◌%◌, ◌^◌, ◌<◌, ◌≡◌, refl, ◌∙◌, arith, bit_and, bit_or, u32, ◌<<<◌, true,
  ◌==◌, ==→eq,
}
use low_flex_programming.Base.Bits.{bit_or-shifted, shifted-bit_or}
use low_flex_programming.Base.Tables.{table_holds, table_sound}
use low_flex_programming.Pci.{pci_address}

register_table : table_holds 256 (λ x. bit_and x 0xfc == x - x % 4) ≡ true
unfolding table_holds
register_table = refl

register_lem : (x : ℕ) → x < 256 → bit_and x 0xfc ≡ x - x % 4
register_lem x h = ==→eq (bit_and x 0xfc) (x - x % 4) (table_sound 256 _ x register_table h)

-- `PCI_ADDRESS` puts the fields of an address side by side: the enable bit, the bus, the device, the
-- function, and the register rounded down to a multiple of 4.
pub pci_address_lem :
    (bus dev func offset : ℕ)
    → bus < 256
    → dev < 32
    → func < 8
    → offset < 256
    → pci_address bus dev func offset
      ≡ 2 ^ 31 + bus * 2 ^ 16 + dev * 2 ^ 11 + func * 2 ^ 8 + (offset - offset % 4)
unfolding pci_address
pci_address_lem bus dev func offset hb hd hf ho =
    let b : u32 (bus <<< 16) ≡ bus * 2 ^ 16 = omega arith in
    let d : u32 (dev <<< 11) ≡ dev * 2 ^ 11 = omega arith in
    let f : u32 (func <<< 8) ≡ func * 2 ^ 8 = omega arith in
    let e₁ : bit_or (bus * 2 ^ 16) (dev * 2 ^ 11) ≡ (bus * 32 + dev) * 2 ^ 11 =
      shifted-bit_or 16 bus (dev * 2 ^ 11) (omega arith) ∙ omega arith in
    let e₂ : bit_or ((bus * 32 + dev) * 2 ^ 11) (func * 2 ^ 8)
        ≡ ((bus * 32 + dev) * 8 + func) * 2 ^ 8 =
      shifted-bit_or 11 (bus * 32 + dev) (func * 2 ^ 8) (omega arith) ∙ omega arith in
    let low = offset - offset % 4 in
    let e₃ : bit_or (((bus * 32 + dev) * 8 + func) * 2 ^ 8) low
        ≡ ((bus * 32 + dev) * 8 + func) * 2 ^ 8 + low =
      shifted-bit_or 8 ((bus * 32 + dev) * 8 + func) low (omega arith) in
    let all = ((bus * 32 + dev) * 8 + func) * 2 ^ 8 + low in
    let e₄ : bit_or all (2 ^ 31) ≡ all + 2 ^ 31 = bit_or-shifted 31 all 1 (omega arith) in
    rw (b, d, f, e₁, e₂, register_lem offset ho, e₃, e₄) (omega arith)

-- Within their ranges, two addresses are the same only for the same register of the same function.
pub pci_address-injective :
    (b d f o b' d' f' o' : ℕ)
    → b < 256
    → d < 32
    → f < 8
    → o < 256
    → b' < 256
    → d' < 32
    → f' < 8
    → o' < 256
    → pci_address b d f o ≡ pci_address b' d' f' o'
    → (b ≡ b') × (d ≡ d') × (f ≡ f') × (o / 4 ≡ o' / 4)
pci_address-injective b d f o b' d' f' o' hb hd hf ho hb' hd' hf' ho' e =
    let x = pci_address_lem b d f o hb hd hf ho in
    let y = pci_address_lem b' d' f' o' hb' hd' hf' ho' in
    (omega (arith, x, y), omega (arith, x, y), omega (arith, x, y), omega (arith, x, y))
