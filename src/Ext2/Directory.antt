-- ===== src/Ext2/Directory.antt =====
-- The listing of the root directory, from the number of its inode on.
use low_flex_programming.Base.{
  ℕ, ◌+◌, ◌*◌, ◌/◌, ◌%◌, ◌^◌, ◌≤◌, ◌<◌, ◌≡◌, refl, ap, ◌∙◌, List, length, Bool-cases, inl, inr,
  true, ltb, ◌&&◌, Run, ok, arith,
}
use low_flex_programming.Common.{Memory}
use low_flex_programming.Common.Regions.{Apart}
use low_flex_programming.Acpi.{read32}
use low_flex_programming.Terminal.Print.{print_all}
use low_flex_programming.Printk.{printk_buf_size, color}
use low_flex_programming.Ata.{Disk}
use low_flex_programming.Ata.Image.{Image}
use low_flex_programming.Ata.Device.{Ready, Reads}
use low_flex_programming.Syscall.{Kernel}
use low_flex_programming.Ext2.{
  Ext2Fs, offset_of, inode_layout, shift_left, ext2_block_size, block_size_log,
  inodes_per_block_group, ext2_read_inode, blocks_loop, list_root,
}
use low_flex_programming.Ext2.Inode.{Mounted, slot_start, table_of, ext2_read_inode-slot}
use low_flex_programming.Ext2.Walk.{DirEntry}
use low_flex_programming.Ext2.Root.{Named, Named-eq, pointer_in, Mounted-Same, listings}
use low_flex_programming.Ext2.Listing.{blocks_loop-listings}

-- The sectors of a block, as `list_root` computes them.
units_lem :
    (log sectors : ℕ) → shift_left 1024 log ≡ ok (512 * sectors) → shift_left 2 log ≡ ok sectors
unfolding shift_left
units_lem log sectors h = elim (Bool-cases (ltb log 31 && ltb (1024 * 2 ^ log) (2 ^ 31))) [
  | inl fits ↦
      let size : 1024 * 2 ^ log ≡ 512 * sectors = ground (arith, h, fits) in
      let unit : 2 * 2 ^ log ≡ sectors = omega (arith, size) in
      let fits' : (ltb log 31 && ltb (2 * 2 ^ log) (2 ^ 31)) ≡ true = ground (arith, fits) in
      rw (fits', unit) refl
  | inr too_big ↦ absurd (ground (arith, h, too_big))
]

block_units :
    (m : Memory) (fs : Ext2Fs) (sectors : ℕ)
    → ext2_block_size m fs ≡ ok (512 * sectors)
    → shift_left 2 (block_size_log m fs) ≡ ok sectors
unfolding ext2_block_size
block_units m fs sectors h = units_lem (block_size_log m fs) sectors h

-- A word of a structure that has been copied from the disk.
pub read32-copied :
    (m : Memory) (image : Image) (buf o n j : ℕ)
    → ((k : ℕ) → k < n → m (buf + k) ≡ image (o + k))
    → j + 4 ≤ n
    → read32 m (buf + j) ≡ read32 image (o + j)
unfolding read32
read32-copied m image buf o n j h le =
    let at : (k : ℕ) → k < 4 → m (buf + j + k) ≡ image (o + j + k) = λ k lt.
      let left : buf + j + k ≡ buf + (j + k) = omega arith in
      let right : o + (j + k) ≡ o + j + k = omega arith in
      ap m left ∙ h (j + k) (omega arith) ∙ ap image right in
    let first : m (buf + j) ≡ image (o + j) =
      let left : buf + j ≡ buf + j + 0 = omega arith in
      let right : o + j + 0 ≡ o + j = omega arith in
      ap m left ∙ at 0 (omega arith) ∙ ap image right in
    rw (first, at 1 (omega arith), at 2 (omega arith), at 3 (omega arith)) refl

-- `list_root` for an inode that is read.
root_run :
    (ata_read : ℕ → ℕ → ℕ → Disk → Run (ℕ × Disk)) (stack_buf : List ℕ) (fs : Ext2Fs)
    (root_inode sectors count : ℕ) (k : Kernel) (d : Disk)
    → ext2_read_inode ata_read fs 2 root_inode k.disk ≡ ok (0, d)
    → shift_left 2 (block_size_log d.memory fs) ≡ ok sectors
    → read32 d.memory (root_inode + 28) / sectors ≡ count
    → list_root ata_read stack_buf fs root_inode k
      ≡ blocks_loop ata_read stack_buf fs root_inode count 0 (record k { disk = d })
unfolding list_root offset_of inode_layout
root_run ata_read stack_buf fs root_inode sectors count k d run units blocks =
    rw (run, units, blocks) refl

-- The byte of the disk at which the root's inode stands.
abbrev pub root_slot : Memory → Ext2Fs → ℕ → ℕ
root_slot m fs sectors = 512 * sectors * table_of m fs 2 + slot_start m fs 2

module _ (image : Image) (ata_read : ℕ → ℕ → ℕ → Disk → Run (ℕ × Disk))
    (reads : Reads image ata_read) where
  -- A mounted file system, whose superblock and block page are apart from the inode on the stack, and a
  -- root inode whose slot lies in one block and which has at most 12 blocks of well-formed entries: the
  -- listing returns 0, and has printed a line for every entry of the root directory on the disk, in order.
  pub list_root-listings :
      (stack_buf : List ℕ) (fs : Ext2Fs) (root_inode sectors : ℕ)
      (blocks : List (ℕ × List DirEntry)) (k : Kernel)
      → length stack_buf ≡ printk_buf_size
      → Ready k.disk
      → Mounted fs sectors k.disk.memory
      → fs.tmp + 512 * sectors + 8 ≤ 2 ^ 32
      → Apart root_inode 128 fs.tmp (512 * sectors)
      → Apart fs.super 1024 root_inode 128
      → 0 < inodes_per_block_group k.disk.memory fs
      → slot_start k.disk.memory fs 2 < 2 ^ 32
      → slot_start k.disk.memory fs 2 % (512 * sectors) + 128 ≤ 512 * sectors
      → sectors * (table_of k.disk.memory fs 2 + slot_start k.disk.memory fs 2 / (512 * sectors))
        < 2 ^ 28
      → read32 image (root_slot k.disk.memory fs sectors + 28) / sectors ≡ length blocks
      → Named (pointer_in image (root_slot k.disk.memory fs sectors)) 0 image fs sectors blocks
      → (k' : Kernel) × (list_root ata_read stack_buf fs root_inode k ≡ ok (0, k'))
        × (k'.terminal ≡ print_all k.terminal (listings blocks) color)
        × (k'.disk.sched ≡ k.disk.sched)
  list_root-listings stack_buf fs root_inode sectors blocks k buf r geo room apart clear ipg bound
        fits low count named =
      let m = k.disk.memory in
      let slot = root_slot m fs sectors in
      let (d, run, ready, bytes, others, kept) =
        ext2_read_inode-slot image ata_read reads fs 2 root_inode sectors k.disk r geo apart
          (omega arith) (omega arith) ipg bound fits low in
      let geo' = Mounted-Same m d.memory fs sectors (others fs.super 1024 clear geo.apart) geo in
      let words = read32-copied d.memory image root_inode slot 128 in
      let blocks_there : read32 d.memory (root_inode + 28) / sectors ≡ length blocks =
        rw (words 28 bytes (omega arith)) count in
      let pointers =
        Named-eq (pointer_in image slot) (pointer_in d.memory root_inode) 0 image fs sectors blocks
          (λ j lt.
            let left : root_inode + 40 + 4 * j ≡ root_inode + (40 + 4 * j) = omega arith in
            let right : slot + (40 + 4 * j) ≡ slot + 40 + 4 * j = omega arith in
            ap (read32 d.memory) left
            ∙ words (40 + 4 * j) bytes (omega arith)
            ∙ ap (read32 image) right)
          named in
      let (k', rest, shown, sched) =
        blocks_loop-listings image ata_read reads stack_buf fs root_inode sectors 0 blocks
          (record k { disk = d }) buf ready geo' room apart pointers in
      (
        k',
        root_run ata_read stack_buf fs root_inode sectors (length blocks) k d run
              (block_units d.memory fs sectors geo'.size) blocks_there
            ∙ rest,
        shown,
        sched ∙ kept,
      )
