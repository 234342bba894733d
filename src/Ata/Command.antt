-- ===== src/Ata/Command.antt =====
-- The command block: the registers of the device behind `ata_issue_read_sectors`.
use low_flex_programming.Base.{
  ℕ, ◌+◌, ◌*◌, ◌/◌, ◌%◌, ◌^◌, ◌<◌, ◌≡◌, ◌≢◌, refl, ap, ◌∙◌, List, [], ◌∷◌, true, false, ◌==◌, ltb,
  leb, ◌&&◌, if◌then◌else◌, ok, arith, u8, bit_and, bit_or, ◌>>>◌, ne→==, eq→==, ==→eq,
}
use low_flex_programming.Base.Bits.{bit_and-mask}
use low_flex_programming.Base.Tables.{table_holds, table_sound}
use low_flex_programming.Ata.{
  Request, Disk, AtaDev, outb, issue_writes, ata_issue_read_sectors, ata_drive_reg,
  ata_seccount_reg, ata_lba_lo_reg, ata_lba_mid_reg, ata_lba_hi_reg, ata_command_reg,
  ata_cmd_read_sectors,
}

-- What a register holds: the last value written to its port.
pub register : List (ℕ × ℕ) → ℕ → ℕ
register [] port = 0
register ((p, v) ∷ ports) port = if p == port then v else register ports port

register-here : (p v : ℕ) (ports : List (ℕ × ℕ)) → register ((p, v) ∷ ports) p ≡ v
unfolding register
register-here p v ports = rw (eq→== p p refl) refl

register-behind :
    (base i j v : ℕ) (ports : List (ℕ × ℕ))
    → i ≢ j
    → register ((base + i, v) ∷ ports) (base + j) ≡ register ports (base + j)
unfolding register
register-behind base i j v ports ne =
    rw (ne→== (base + i) (base + j) (λ e. ne (omega (arith, e)))) refl

drive_table : table_holds 16 (λ x. bit_or 0xe0 x == 0xe0 + x) ≡ true
unfolding table_holds
drive_table = refl

drive_lem : (x : ℕ) → x < 16 → bit_or 0xe0 x ≡ 0xe0 + x
drive_lem x h = ==→eq (bit_or 0xe0 x) (0xe0 + x) (table_sound 16 _ x drive_table h)

-- The address that the device reads from its registers.
abbrev pub addressed : AtaDev → List (ℕ × ℕ) → ℕ
addressed dev ports =
    register ports (ata_drive_reg dev) % 16 * 2 ^ 24
    + register ports (ata_lba_hi_reg dev) * 2 ^ 16
    + register ports (ata_lba_mid_reg dev) * 2 ^ 8
    + register ports (ata_lba_lo_reg dev)

-- The seven ports of the block, and those written before.
abbrev block : (base command hi mid lo count features drive : ℕ) → List (ℕ × ℕ) → List (ℕ × ℕ)
block base command hi mid lo count features drive ports =
    (base + 7, command)
    ∷ (base + 5, hi)
    ∷ (base + 4, mid)
    ∷ (base + 3, lo)
    ∷ (base + 2, count)
    ∷ (base + 1, features)
    ∷ (base + 6, drive)
    ∷ ports

block-registers :
    (base command hi mid lo count features drive : ℕ) (ports : List (ℕ × ℕ))
    → let held = register (block base command hi mid lo count features drive ports) in
      (held (base + 7) ≡ command)
      × (held (base + 6) ≡ drive)
      × (held (base + 5) ≡ hi)
      × (held (base + 4) ≡ mid)
      × (held (base + 3) ≡ lo)
      × (held (base + 2) ≡ count)
unfolding register
block-registers base command hi mid lo count features drive ports =
    (ground arith, ground arith, ground arith, ground arith, ground arith, ground arith)

-- For a sector number of 28 bits and fewer than 256 sectors, `ata_issue_read_sectors` returns with
-- the registers of the device holding that number, in the mode that takes sector numbers, the count
-- of sectors, and the command to read; it changes nothing but the ports.
pub ata_issue_read_sectors-addressed :
    (req : Request) (d : Disk)
    → req.lba < 2 ^ 28
    → req.sectors_count < 256
    → (ports : List (ℕ × ℕ)) × (ata_issue_read_sectors req d ≡ ok (record d { ports = ports }))
      × (addressed d.dev ports ≡ req.lba)
      × (register ports (ata_drive_reg d.dev) / 16 ≡ 0xe)
      × (register ports (ata_seccount_reg d.dev) ≡ req.sectors_count)
      × (register ports (ata_command_reg d.dev) ≡ ata_cmd_read_sectors)
unfolding ata_issue_read_sectors issue_writes outb
ata_issue_read_sectors-addressed req d small few =
    let shifted : bit_and (req.lba >>> 24) 0x0f ≡ req.lba / 2 ^ 24 =
      bit_and-mask 4 (req.lba / 2 ^ 24) ∙ omega arith in
    let drive = drive_lem (req.lba / 2 ^ 24) (omega arith) in
    let held =
      block-registers d.dev.io_base ata_cmd_read_sectors (u8 (bit_and (req.lba >>> 16) 0xff))
        (u8 (bit_and (req.lba >>> 8) 0xff)) (u8 (bit_and req.lba 0xff)) (u8 req.sectors_count) 0
        (u8 (bit_or 0xe0 (bit_and (req.lba >>> 24) 0x0f))) d.ports in
    let top : u8 (bit_or 0xe0 (bit_and (req.lba >>> 24) 0x0f)) ≡ 0xe0 + req.lba / 2 ^ 24 =
      ap (λ x. u8 (bit_or 0xe0 x)) shifted ∙ omega (arith, drive) in
    let passes : (leb 256 req.sectors_count && ltb req.sectors_count (2 ^ 31)) ≡ false =
      ground arith in
    (
      (issue_writes req d).ports,
      rw passes refl,
      omega (
        arith,
        held.1,
        held.2,
        held.3,
        held.4,
        top,
        bit_and-mask 8 (req.lba / 2 ^ 16),
        bit_and-mask 8 (req.lba / 2 ^ 8),
        bit_and-mask 8 req.lba,
      ),
      omega (arith, held.1, top),
      omega (arith, held.5),
      held.0,
    )
