-- ===== src/Ext2/Mount.antt =====
-- The start of the file system from its two pages on: the table of block groups, the report, and the
-- root directory.
use low_flex_programming.Base.{
  ℕ, ◌+◌, ◌*◌, ◌/◌, ◌%◌, ◌^◌, ◌≤◌, ◌<◌, ◌≡◌, refl, ap₂, subst, ◌∙◌, sym, List, [], ◌∷◌, ◌++◌,
  length, Run, ok, arith,
}
use low_flex_programming.Acpi.{read32}
use low_flex_programming.Terminal.Print.{print_all, print_all-append}
use low_flex_programming.Printk.{printk_buf_size, color}
use low_flex_programming.Printk.Format.{AreWords}
use low_flex_programming.Ata.{Disk}
use low_flex_programming.Ata.Image.{Image}
use low_flex_programming.Ata.Device.{Ready, Reads}
use low_flex_programming.Syscall.{Kernel}
use low_flex_programming.Ext2.{Ext2Fs, rev, rev_minor, ext2_read_block, list_root, mount}
use low_flex_programming.Ext2.Block.{ext2_read_block-HoldsDisk, HoldsDisk-Same}
use low_flex_programming.Ext2.Inode.{slot_start, table_of}
use low_flex_programming.Ext2.Walk.{DirEntry, shows}
use low_flex_programming.Ext2.Root.{Named, pointer_in, listings}
use low_flex_programming.Ext2.Directory.{list_root-listings, root_slot}
use low_flex_programming.Ext2.Super.{
  on_disk, Members, Members-Same, ext2_block_size-Members, inodes_per_block_group-Members,
  slot_start-Members, rev-Members, rev_minor-Members,
}
use low_flex_programming.Ext2.OnDisk.{
  found_text, first_table, root_inode_at, RootDirectory, Placed, found_lem, table-first,
}

-- `mount` for a table that is read.
mount_run :
    (ata_read : ℕ → ℕ → ℕ → Disk → Run (ℕ × Disk)) (stack_buf : List ℕ) (fs : Ext2Fs)
    (root_inode sectors groups major minor : ℕ) (k : Kernel) (d : Disk)
    → length stack_buf ≡ printk_buf_size
    → ext2_read_block ata_read fs 1 fs.bgd k.disk ≡ ok (0, d)
    → rev d.memory fs ≡ major
    → rev_minor d.memory fs ≡ minor
    → AreWords (major ∷ minor ∷ sectors ∷ groups ∷ [])
    → mount ata_read stack_buf fs root_inode sectors groups k
      ≡ list_root ata_read stack_buf fs root_inode
          (shows (record k { disk = d }) (found_text major minor sectors groups))
unfolding mount
mount_run ata_read stack_buf fs root_inode sectors groups major minor k d size run now now' words =
    rw
      (
        run,
        now,
        now',
        found_lem stack_buf major minor sectors groups (record k { disk = d }) size words,
      )
      refl

module _ (image : Image) (ata_read : ℕ → ℕ → ℕ → Disk → Run (ℕ × Disk))
    (reads : Reads image ata_read) where
  -- `list_root`, with the superblock and the first table of groups in memory as they are on the disk.
  root-listings :
      (stack_buf : List ℕ) (fs : Ext2Fs) (root_inode sectors : ℕ)
      (blocks : List (ℕ × List DirEntry)) (k : Kernel)
      → length stack_buf ≡ printk_buf_size
      → Ready k.disk
      → Placed fs root_inode sectors
      → RootDirectory image fs sectors blocks
      → Members k.disk.memory fs image on_disk
      → table_of k.disk.memory fs 2 ≡ first_table image sectors
      → (k' : Kernel) × (list_root ata_read stack_buf fs root_inode k ≡ ok (0, k'))
        × (k'.terminal ≡ print_all k.terminal (listings blocks) color)
        × (k'.disk.sched ≡ k.disk.sched)
  root-listings stack_buf fs root_inode sectors blocks k buf r place root super table =
      let m = k.disk.memory in
      let room = place.tmp_room in
      let start = slot_start-Members m image fs on_disk super 2 in
      let inodes = root.inodes in
      let slot : root_slot m fs sectors ≡ root_inode_at image sectors =
        ap₂ (λ t s. 512 * sectors * t + s) table start in
      list_root-listings image ata_read reads stack_buf fs root_inode sectors blocks k buf r
        (record {
          size = ext2_block_size-Members m image fs on_disk super ∙ root.block_size;
          some_sectors = omega (arith, root.large);
          few = root.few;
          allocated = place.tmp_there;
          room = omega (arith, room);
          apart = place.super_tmp;
        })
        place.tmp_room place.inode_tmp place.super_inode
        (omega (arith, inodes, inodes_per_block_group-Members m image fs on_disk super))
        (subst (λ s. s < 2 ^ 32) (sym start) root.bound)
        (subst (λ s. s % (512 * sectors) + 128 ≤ 512 * sectors) (sym start) root.fits)
        (subst (λ t. sectors * (t + slot_start m fs 2 / (512 * sectors)) < 2 ^ 28) (sym table)
          (subst (λ s. sectors * (first_table image sectors + s / (512 * sectors)) < 2 ^ 28)
            (sym start) root.low))
        (subst (λ a. read32 image (a + 28) / sectors ≡ length blocks) (sym slot) root.count)
        (subst (λ a. Named (pointer_in image a) 0 image fs sectors blocks) (sym slot) root.named)

  pub mount-listings :
      (stack_buf : List ℕ) (fs : Ext2Fs) (root_inode sectors groups : ℕ)
      (blocks : List (ℕ × List DirEntry)) (k : Kernel)
      → length stack_buf ≡ printk_buf_size
      → Ready k.disk
      → Placed fs root_inode sectors
      → RootDirectory image fs sectors blocks
      → Members k.disk.memory fs image on_disk
      → AreWords (rev image on_disk ∷ rev_minor image on_disk ∷ sectors ∷ groups ∷ [])
      → (k' : Kernel) × (mount ata_read stack_buf fs root_inode sectors groups k ≡ ok (0, k'))
        × (k'.terminal
            ≡ print_all k.terminal
                (found_text (rev image on_disk) (rev_minor image on_disk) sectors groups
                  ++ listings blocks)
                color)
        × (k'.disk.sched ≡ k.disk.sched)
  mount-listings stack_buf fs root_inode sectors groups blocks k buf r place root super words =
      let m = k.disk.memory in
      let some_sectors : 0 < sectors = omega (arith, root.large) in
      let few = root.few in
      let (d, run, ready, holds, kept) =
        ext2_read_block-HoldsDisk image ata_read reads fs 1 fs.bgd sectors k.disk r
          (ext2_block_size-Members m image fs on_disk super ∙ root.block_size) some_sectors few
          place.bgd_there place.bgd_room (omega arith) in
      let super' =
        Members-Same m d.memory image fs on_disk
          (HoldsDisk-Same image _ (512 * sectors) fs.bgd fs.super 1024 m d.memory holds
            place.super_bgd)
          super in
      let inodes = root.inodes in
      let table =
        table-first image fs sectors m d.memory root.large
          (omega (arith, inodes, inodes_per_block_group-Members d.memory image fs on_disk super'))
          holds in
      let text = found_text (rev image on_disk) (rev_minor image on_disk) sectors groups in
      let k1 : Kernel = record k { disk = d } in
      let (k', rest, shown, sched) =
        root-listings stack_buf fs root_inode sectors blocks (shows k1 text) buf ready place root
          super' table in
      (
        k',
        mount_run ata_read stack_buf fs root_inode sectors groups (rev image on_disk)
              (rev_minor image on_disk) k d buf run (rev-Members d.memory image fs on_disk super')
              (rev_minor-Members d.memory image fs on_disk super') words
            ∙ rest,
        shown ∙ sym (print_all-append k.terminal text (listings blocks) color),
        sched ∙ kept,
      )
