-- ===== src/Ext2/Inode.antt =====
-- ext2_read_inode: the slot of an inode in its group's table.
use low_flex_programming.Base.{
  ℕ, zero, suc, ◌+◌, ◌-◌, ◌*◌, ◌/◌, ◌%◌, ◌^◌, ◌≤◌, ◌<◌, ◌≡◌, refl, ap, ◌∙◌, false, ◌==◌,
  if◌then◌else◌, Run, ok, arith, u32, add32, sub32, ne→==,
}
use low_flex_programming.Common.{Memory, memcpy}
use low_flex_programming.Common.Regions.{
  Same, Apart, Apart-part, Same-trans, memcpy-copied, memcpy-Same,
}
use low_flex_programming.Acpi.{read16, read32}
use low_flex_programming.Ata.{Disk}
use low_flex_programming.Ata.Image.{Image}
use low_flex_programming.Ata.Device.{Ready, Reads}
use low_flex_programming.Ext2.{
  Ext2Fs, ext2_block_size, ext2_read_block, inode_size, inodes_per_block_group, ext2_read_inode,
  divide, sizeof, group_descriptor, offset_of, inode_layout, superblock, extended_superblock,
}
use low_flex_programming.Ext2.Block.{
  ext2_read_block-HoldsDisk, ext2_block_size-Same, HoldsDisk-Same, HoldsDisk-inside, Ready-pages,
}

-- A file system with blocks of 1 to 8 sectors, and a page for them that does not wrap around and is
-- apart from the superblock.
pub record Mounted (fs : Ext2Fs) (sectors : ℕ) (m : Memory) : Type 0 where
  pub size : ext2_block_size m fs ≡ ok (512 * sectors)
  pub some_sectors : 0 < sectors
  pub few : sectors ≤ 8
  pub allocated : 0 < fs.tmp
  pub room : fs.tmp + 512 * sectors < 2 ^ 32
  pub apart : Apart fs.super 1024 fs.tmp (512 * sectors)

-- The byte of the disk at which a slot starts: the block, and the place in it.
slot_lem :
    (sectors table start k : ℕ)
    → 0 < sectors
    → 512 * (sectors * (table + start / (512 * sectors))) + (start % (512 * sectors) + k)
      ≡ 512 * sectors * table + start + k
slot_lem sectors table start k pos = omega arith

block_bound : (sectors block : ℕ) → 0 < sectors → sectors * block < 2 ^ 28 → block < 2 ^ 28
block_bound zero block pos h = absurd (omega arith)
block_bound (suc sectors) block pos h = omega arith

-- The size of the inodes, as the format of the file system has it: 128 bytes in revision 0, and in a
-- later one the number at byte 88 of the superblock, whose byte 76 has the revision.
abbrev pub size_on_disk : Memory → Ext2Fs → ℕ
size_on_disk m fs = if read32 m (fs.super + 76) == 0 then 128 else read16 m (fs.super + 88)

inode_size_lem : (m : Memory) (fs : Ext2Fs) → inode_size m fs ≡ size_on_disk m fs
unfolding inode_size offset_of superblock extended_superblock
inode_size_lem m fs = ground arith

-- Where the inode's group and its place in the group's table are.
abbrev pub group_of : Memory → Ext2Fs → ℕ → ℕ
group_of m fs inode = (inode - 1) / inodes_per_block_group m fs

abbrev pub slot_start : Memory → Ext2Fs → ℕ → ℕ
slot_start m fs inode = (inode - 1) % inodes_per_block_group m fs * size_on_disk m fs

abbrev pub table_of : Memory → Ext2Fs → ℕ → ℕ
table_of m fs inode = read32 m (fs.bgd + 32 * group_of m fs inode + 8)

-- `ext2_read_inode` for a block that is read: the copy of the slot.
inode_run :
    (ata_read : ℕ → ℕ → ℕ → Disk → Run (ℕ × Disk)) (fs : Ext2Fs) (inode buf sectors : ℕ)
    (d d' : Disk)
    → let start = slot_start d.memory fs inode in
      let block = table_of d.memory fs inode + start / (512 * sectors) in
      0 < inode
      → inode < 2 ^ 32
      → 0 < inodes_per_block_group d.memory fs
      → start < 2 ^ 32
      → block < 2 ^ 32
      → ext2_block_size d.memory fs ≡ ok (512 * sectors)
      → ext2_read_block ata_read fs block fs.tmp d ≡ ok (0, d')
      → ext2_block_size d'.memory fs ≡ ok (512 * sectors)
      → ext2_read_inode ata_read fs inode buf d
        ≡ ok (0, record d' { memory = memcpy d'.memory buf (fs.tmp + start % (512 * sectors)) 128 })
unfolding ext2_read_inode divide sizeof group_descriptor offset_of inode_layout
inode_run ata_read fs inode buf sectors d d' pos small ipg bound low size run size' =
    let m = d.memory in
    let start = slot_start m fs inode in
    let block = table_of m fs inode + start / (512 * sectors) in
    let some_inodes : (inodes_per_block_group m fs == 0) ≡ false =
      ne→== (inodes_per_block_group m fs) 0 (λ e. absurd (omega arith)) in
    let index : sub32 inode 1 ≡ inode - 1 = omega arith in
    let cut : u32 start ≡ start = omega arith in
    let sum : add32 (table_of m fs inode) (start / (512 * sectors)) ≡ block = omega arith in
    rw (index, some_inodes, size, inode_size_lem m fs, cut, sum, run, size') refl

module _ (image : Image) (ata_read : ℕ → ℕ → ℕ → Disk → Run (ℕ × Disk))
    (reads : Reads image ata_read) where
  -- For an inode from 1 on, whose slot lies in one block of 28-bit sectors: `ext2_read_inode` returns 0,
  -- with the 128 bytes in the buffer that the disk has in the slot of this inode in the table of its
  -- group. Whatever is apart from the buffer and from the page for blocks is not changed, and neither is
  -- the scheduler.
  pub ext2_read_inode-slot :
      (fs : Ext2Fs) (inode buf sectors : ℕ) (d : Disk)
      → Ready d
      → Mounted fs sectors d.memory
      → Apart buf 128 fs.tmp (512 * sectors)
      → 0 < inode
      → inode < 2 ^ 32
      → 0 < inodes_per_block_group d.memory fs
      → slot_start d.memory fs inode < 2 ^ 32
      → slot_start d.memory fs inode % (512 * sectors) + 128 ≤ 512 * sectors
      → sectors * (table_of d.memory fs inode + slot_start d.memory fs inode / (512 * sectors))
        < 2 ^ 28
      → (d' : Disk) × (ext2_read_inode ata_read fs inode buf d ≡ ok (0, d'))
        × Ready d'
        × ((k : ℕ)
            → k < 128
            → d'.memory (buf + k)
              ≡ image
                  (512 * sectors * table_of d.memory fs inode + slot_start d.memory fs inode + k))
        × ((a n : ℕ)
            → Apart a n buf 128
            → Apart a n fs.tmp (512 * sectors)
            → Same d.memory d'.memory a n)
        × (d'.sched ≡ d.sched)
  ext2_read_inode-slot fs inode buf sectors d r geo apart pos small ipg bound fits low =
      let m = d.memory in
      let start = slot_start m fs inode in
      let block = table_of m fs inode + start / (512 * sectors) in
      let some_sectors = geo.some_sectors in
      let (d1, run, ready, holds, kept) =
        ext2_read_block-HoldsDisk image ata_read reads fs block fs.tmp sectors d r geo.size
          geo.some_sectors geo.few geo.allocated geo.room low in
      let size' =
        ext2_block_size-Same m d1.memory fs
          (HoldsDisk-Same image _ _ fs.tmp fs.super 1024 m d1.memory holds geo.apart)
        ∙ geo.size in
      let pos_in = start % (512 * sectors) in
      let src = fs.tmp + pos_in in
      let m' = memcpy d1.memory buf src 128 in
      let copied : Apart buf 128 src 128 =
        Apart-part buf 128 fs.tmp (512 * sectors) src 128 apart (omega arith)
          (omega (arith, fits)) in
      let under : block < 2 ^ 28 = block_bound sectors block some_sectors low in
      (
        record d1 { memory = m' },
        inode_run ata_read fs inode buf sectors d d1 pos small ipg bound (omega (arith, under))
            geo.size run size',
        Ready-pages d1 m' d1.sched.pages ready,
        λ k lt.
            let here : src + k ≡ fs.tmp + (pos_in + k) = omega arith in
            memcpy-copied d1.memory buf src 128 k copied lt
            ∙ ap d1.memory here
            ∙ HoldsDisk-inside image (512 * (sectors * block)) (512 * sectors) fs.tmp (pos_in + k) m
                d1.memory holds (omega (arith, fits, lt))
            ∙ ap image (slot_lem sectors (table_of m fs inode) start k some_sectors),
        λ a n from_buf from_tmp.
            Same-trans m d1.memory m' a n
              (HoldsDisk-Same image _ _ fs.tmp a n m d1.memory holds from_tmp)
              (memcpy-Same d1.memory buf src 128 a n copied from_buf),
        kept,
      )
