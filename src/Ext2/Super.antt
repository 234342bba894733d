-- ===== src/Ext2/Super.antt =====
-- The superblock in memory and on the disk: what depends only on its members.
use low_flex_programming.Base.{
  ℕ, ◌+◌, ◌-◌, ◌*◌, ◌%◌, ◌≤◌, ◌<◌, ◌≡◌, refl, ap, ap₂, ◌∙◌, ◌==◌, if◌then◌else◌, arith,
}
use low_flex_programming.Common.{Memory}
use low_flex_programming.Common.Regions.{Same}
use low_flex_programming.Acpi.{read16, read32}
use low_flex_programming.Ata.Image.{Image, HoldsDisk}
use low_flex_programming.Ext2.{
  Ext2Fs, offset_of, superblock, shift_left, ext2_block_size, inodes_per_block_group, total_blocks,
  blocks_per_group, signature, rev, rev_minor,
}
use low_flex_programming.Ext2.Block.{HoldsDisk-inside}
use low_flex_programming.Ext2.Inode.{size_on_disk, slot_start}

-- The file system as it is on the disk, whose superblock is 1024 bytes from its start.
abbrev pub on_disk : Ext2Fs
on_disk = record { super = 1024; bgd = 0; tmp = 0 }

-- Two superblocks with the same bytes.
abbrev pub Members : Memory → Ext2Fs → Memory → Ext2Fs → Type 0
Members m fs m' fs' = (j : ℕ) → j < 1024 → m (fs.super + j) ≡ m' (fs'.super + j)

pub Members-disk :
    (image : Image) (fs : Ext2Fs) (m m' : Memory)
    → HoldsDisk image 1024 1024 fs.super m m'
    → Members m' fs image on_disk
Members-disk image fs m m' h j lt = HoldsDisk-inside image 1024 1024 fs.super j m m' h lt

pub Members-Same :
    (m m' n : Memory) (fs fs' : Ext2Fs)
    → Same m m' fs.super 1024
    → Members m fs n fs'
    → Members m' fs n fs'
Members-Same m m' n fs fs' same h j lt = same (fs.super + j) (omega arith) (omega arith) ∙ h j lt

module _ (m m' : Memory) (fs fs' : Ext2Fs) (same : Members m fs m' fs') where
  byte-Members : (j i : ℕ) → j + i < 1024 → m (fs.super + j + i) ≡ m' (fs'.super + j + i)
  byte-Members j i lt =
      let left : fs.super + j + i ≡ fs.super + (j + i) = omega arith in
      let right : fs'.super + (j + i) ≡ fs'.super + j + i = omega arith in
      ap m left ∙ same (j + i) lt ∙ ap m' right

  read16-Members : (j : ℕ) → j + 2 ≤ 1024 → read16 m (fs.super + j) ≡ read16 m' (fs'.super + j)
  unfolding read16
  read16-Members j le = rw (same j (omega arith), byte-Members j 1 (omega arith)) refl

  read32-Members : (j : ℕ) → j + 4 ≤ 1024 → read32 m (fs.super + j) ≡ read32 m' (fs'.super + j)
  unfolding read32
  read32-Members j le =
      rw
        (
          same j (omega arith),
          byte-Members j 1 (omega arith),
          byte-Members j 2 (omega arith),
          byte-Members j 3 (omega arith),
        )
        refl

  pub signature-Members : signature m fs ≡ signature m' fs'
  unfolding offset_of superblock
  signature-Members = read16-Members 56 (omega arith)

  pub rev-Members : rev m fs ≡ rev m' fs'
  unfolding offset_of superblock
  rev-Members = read32-Members 76 (omega arith)

  pub rev_minor-Members : rev_minor m fs ≡ rev_minor m' fs'
  unfolding offset_of superblock
  rev_minor-Members = read16-Members 62 (omega arith)

  pub total_blocks-Members : total_blocks m fs ≡ total_blocks m' fs'
  unfolding offset_of superblock
  total_blocks-Members = read32-Members 4 (omega arith)

  pub blocks_per_group-Members : blocks_per_group m fs ≡ blocks_per_group m' fs'
  unfolding offset_of superblock
  blocks_per_group-Members = read32-Members 32 (omega arith)

  pub inodes_per_block_group-Members : inodes_per_block_group m fs ≡ inodes_per_block_group m' fs'
  unfolding offset_of superblock
  inodes_per_block_group-Members = read32-Members 40 (omega arith)

  pub ext2_block_size-Members : ext2_block_size m fs ≡ ext2_block_size m' fs'
  unfolding ext2_block_size offset_of superblock
  ext2_block_size-Members = ap (shift_left 1024) (read32-Members 24 (omega arith))

  size_on_disk-Members : size_on_disk m fs ≡ size_on_disk m' fs'
  size_on_disk-Members =
      ap₂ (λ r n. if r == 0 then 128 else n) (read32-Members 76 (omega arith))
        (read16-Members 88 (omega arith))

  pub slot_start-Members : (inode : ℕ) → slot_start m fs inode ≡ slot_start m' fs' inode
  slot_start-Members inode =
      ap₂ (λ n size. (inode - 1) % n * size) inodes_per_block_group-Members size_on_disk-Members
