-- ===== src/Ext2/OnDisk.antt =====
-- The disk that can be mounted, the places of the structures in memory, and the first table of groups.
use low_flex_programming.Base.{
  ℕ, ◌+◌, ◌-◌, ◌*◌, ◌/◌, ◌%◌, ◌^◌, ◌≤◌, ◌<◌, ◌≡◌, refl, ap, subst, ◌∙◌, List, [], ◌∷◌, ◌++◌, length,
  Option, none, ok, arith,
}
use low_flex_programming.Common.{Memory}
use low_flex_programming.Common.Regions.{Apart}
use low_flex_programming.Acpi.{read32}
use low_flex_programming.Printk.{printk_buf_size}
use low_flex_programming.Printk.Number.{signed_numeral}
use low_flex_programming.Printk.Format.{render, directive_text, AreWords}
use low_flex_programming.Printk.Vprintk.{vprintk_lem}
use low_flex_programming.Ata.Image.{Image, HoldsDisk}
use low_flex_programming.Syscall.{Kernel}
use low_flex_programming.Ext2.{
  Ext2Fs, ext2_block_size, inodes_per_block_group, found_format, bytes_from, printk,
}
use low_flex_programming.Ext2.Block.{HoldsDisk-inside}
use low_flex_programming.Ext2.Inode.{slot_start, table_of}
use low_flex_programming.Ext2.Walk.{DirEntry, shows}
use low_flex_programming.Ext2.Root.{Named, pointer_in}
use low_flex_programming.Ext2.Directory.{read32-copied}
use low_flex_programming.Ext2.Super.{on_disk}

-- The line about the file system; the numbers are printed as `int`s.
abbrev pub found_text : (major minor sectors groups : ℕ) → List ℕ
found_text major minor sectors groups =
    b'f'
    ∷ b'o'
    ∷ b'u'
    ∷ b'n'
    ∷ b'd'
    ∷ b' '
    ∷ b'v'
    ∷ b'a'
    ∷ b'l'
    ∷ b'i'
    ∷ b'd'
    ∷ b' '
    ∷ b'e'
    ∷ b'x'
    ∷ b't'
    ∷ b'2'
    ∷ b','
    ∷ b' '
    ∷ b'r'
    ∷ b'e'
    ∷ b'v'
    ∷ b'='
    ∷ (signed_numeral 10 major
        ++ (b'.'
            ∷ (signed_numeral 10 minor
                ++ (b','
                    ∷ b' '
                    ∷ b's'
                    ∷ b'e'
                    ∷ b'c'
                    ∷ b't'
                    ∷ b'o'
                    ∷ b'r'
                    ∷ b's'
                    ∷ b'_'
                    ∷ b'p'
                    ∷ b'e'
                    ∷ b'r'
                    ∷ b'_'
                    ∷ b'b'
                    ∷ b'l'
                    ∷ b'o'
                    ∷ b'c'
                    ∷ b'k'
                    ∷ b'='
                    ∷ (signed_numeral 10 sectors
                        ++ (b','
                            ∷ b' '
                            ∷ b'g'
                            ∷ b'r'
                            ∷ b'o'
                            ∷ b'u'
                            ∷ b'p'
                            ∷ b's'
                            ∷ b'='
                            ∷ (signed_numeral 10 groups ++ (b'\n' ∷ []))))))))

-- The table of the groups is in the block behind that of the superblock, which starts at byte 1024.
abbrev pub groups_block : ℕ → ℕ
groups_block sectors = 1024 / (512 * sectors) + 1

-- The inode table of the first group, and the root's inode.
abbrev pub first_table : Image → ℕ → ℕ
first_table image sectors = read32 image (512 * sectors * groups_block sectors + 8)

abbrev pub root_inode_at : Image → ℕ → ℕ
root_inode_at image sectors = 512 * sectors * first_table image sectors + slot_start image on_disk 2

-- A disk whose root directory can be listed: blocks of 3 to 8 sectors, of more than 1 KB that is, a first group with inode 2, whose
-- slot lies in one block, and at most 12 blocks of well-formed entries, seen at the page for blocks.
pub record RootDirectory (image : Image) (fs : Ext2Fs) (sectors : ℕ)
    (blocks : List (ℕ × List DirEntry)) : Type 0 where
  pub large : 2 < sectors
  pub few : sectors ≤ 8
  pub block_size : ext2_block_size image on_disk ≡ ok (512 * sectors)
  pub inodes : 2 ≤ inodes_per_block_group image on_disk
  pub bound : slot_start image on_disk 2 < 2 ^ 32
  pub fits : slot_start image on_disk 2 % (512 * sectors) + 128 ≤ 512 * sectors
  pub low :
      sectors * (first_table image sectors + slot_start image on_disk 2 / (512 * sectors)) < 2 ^ 28
  pub count : read32 image (root_inode_at image sectors + 28) / sectors ≡ length blocks
  pub named : Named (pointer_in image (root_inode_at image sectors)) 0 image fs sectors blocks

-- The places of the file system's structures: the two pages do not wrap around, and the superblock and the
-- inode on the stack are apart from them.
pub record Placed (fs : Ext2Fs) (root_inode sectors : ℕ) : Type 0 where
  pub bgd_there : 0 < fs.bgd
  pub bgd_room : fs.bgd + 512 * sectors < 2 ^ 32
  pub tmp_there : 0 < fs.tmp
  pub tmp_room : fs.tmp + 512 * sectors + 8 ≤ 2 ^ 32
  pub super_bgd : Apart fs.super 1024 fs.bgd (512 * sectors)
  pub super_tmp : Apart fs.super 1024 fs.tmp (512 * sectors)
  pub super_inode : Apart fs.super 1024 root_inode 128
  pub inode_tmp : Apart root_inode 128 fs.tmp (512 * sectors)

abbrev no_text : ℕ → Option (List ℕ)
no_text p = none

pub found_lem :
    (stack_buf : List ℕ) (major minor sectors groups : ℕ) (k : Kernel)
    → length stack_buf ≡ printk_buf_size
    → AreWords (major ∷ minor ∷ sectors ∷ groups ∷ [])
    → printk stack_buf found_format (major ∷ minor ∷ sectors ∷ groups ∷ []) k
      ≡ ok (shows k (found_text major minor sectors groups))
unfolding printk render directive_text
found_lem stack_buf major minor sectors groups k size words =
    let run =
      vprintk_lem (bytes_from 4096 k.disk.memory) no_text (λ p text e. absurd (cc)) stack_buf
        (b'f' ∷ b'o' ∷ b'u' ∷ b'n' ∷ b'd' ∷ b' ' ∷ b'v' ∷ b'a' ∷ b'l' ∷ b'i' ∷ b'd' ∷ b' ' ∷ b'e'
          ∷ b'x' ∷ b't' ∷ b'2' ∷ b',' ∷ b' ' ∷ b'r' ∷ b'e' ∷ b'v' ∷ b'=' ∷ b'%' ∷ b'd' ∷ b'.' ∷ b'%'
          ∷ b'd' ∷ b',' ∷ b' ' ∷ b's' ∷ b'e' ∷ b'c' ∷ b't' ∷ b'o' ∷ b'r' ∷ b's' ∷ b'_' ∷ b'p' ∷ b'e'
          ∷ b'r' ∷ b'_' ∷ b'b' ∷ b'l' ∷ b'o' ∷ b'c' ∷ b'k' ∷ b'=' ∷ b'%' ∷ b'd' ∷ b',' ∷ b' ' ∷ b'g'
          ∷ b'r' ∷ b'o' ∷ b'u' ∷ b'p' ∷ b's' ∷ b'=' ∷ b'%' ∷ b'd' ∷ b'\n' ∷ [])
        [] (major ∷ minor ∷ sectors ∷ groups ∷ []) (found_text major minor sectors groups)
        k.terminal size (omega arith) words refl in
    rw run refl

-- The root is in the first group.
group_zero : (k : ℕ) → (2 - 1) / (2 + k) ≡ 0
group_zero k = omega arith

first_group : (n : ℕ) → 2 ≤ n → (2 - 1) / n ≡ 0
first_group n h =
    let split : 2 + (n - 2) ≡ n = omega arith in
    subst (λ x. (2 - 1) / x ≡ 0) split (group_zero (n - 2))

-- Blocks of more than 1 KB have the superblock in block 0.
groups_block_lem : (k : ℕ) → groups_block (3 + k) ≡ 1
groups_block_lem k = omega arith

second_block : (sectors : ℕ) → 2 < sectors → groups_block sectors ≡ 1
second_block sectors h =
    let split : 3 + (sectors - 3) ≡ sectors = omega arith in
    subst (λ x. groups_block x ≡ 1) split (groups_block_lem (sectors - 3))

pub table-first :
    (image : Image) (fs : Ext2Fs) (sectors : ℕ) (m m' : Memory)
    → 2 < sectors
    → 2 ≤ inodes_per_block_group m' fs
    → HoldsDisk image (512 * (sectors * 1)) (512 * sectors) fs.bgd m m'
    → table_of m' fs 2 ≡ first_table image sectors
table-first image fs sectors m m' large inodes h =
    let first : fs.bgd + 32 * ((2 - 1) / inodes_per_block_group m' fs) + 8 ≡ fs.bgd + 8 =
      omega (arith, first_group (inodes_per_block_group m' fs) inodes) in
    let at : 512 * (sectors * 1) + 8 ≡ 512 * sectors * groups_block sectors + 8 =
      rw (second_block sectors large) (omega arith) in
    ap (read32 m') first
    ∙ read32-copied m' image fs.bgd (512 * (sectors * 1)) (512 * sectors) 8
        (λ k lt. HoldsDisk-inside image (512 * (sectors * 1)) (512 * sectors) fs.bgd k m m' h lt)
        (omega arith)
    ∙ ap (read32 image) at
