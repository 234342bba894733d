-- ===== src/Ext2/Init.antt =====
-- ext2_init and init_ext2, on a disk with the file system and on one without.
use low_flex_programming.Base.{
  ℕ, ◌+◌, ◌*◌, ◌/◌, ◌^◌, ◌≤◌, ◌<◌, ◌≡◌, ◌≢◌, refl, ap, ap₂, sym, ◌∙◌, List, [], ◌∷◌, ◌++◌, length,
  true, false, ◌==◌, ltb, Run, ok, panic, arith, ne→==, eq→==,
}
use low_flex_programming.Terminal.Print.{print_all}
use low_flex_programming.Printk.{printk_buf_size, color}
use low_flex_programming.Printk.Format.{AreWords}
use low_flex_programming.Paging.{kalloc}
use low_flex_programming.Sched.{Sched}
use low_flex_programming.Ata.{Disk}
use low_flex_programming.Ata.Image.{Image}
use low_flex_programming.Ata.Device.{Ready, Reads}
use low_flex_programming.Syscall.{Kernel}
use low_flex_programming.Ext2.{
  Ext2Fs, ext2_init, init_ext2, mount, ext2_signature, ext2_block_size, divide, signature,
  total_blocks, blocks_per_group, rev, rev_minor, superblock, extended_superblock, sizeof,
  group_descriptor, inode_layout,
}
use low_flex_programming.Ext2.Block.{Ready-pages}
use low_flex_programming.Ext2.Walk.{DirEntry}
use low_flex_programming.Ext2.Root.{listings}
use low_flex_programming.Ext2.Super.{
  on_disk, Members-disk, signature-Members, ext2_block_size-Members, total_blocks-Members,
  blocks_per_group-Members,
}
use low_flex_programming.Ext2.OnDisk.{Placed, RootDirectory, found_text}
use low_flex_programming.Ext2.Mount.{mount-listings}

-- The disk whose first two free pages have been taken.
abbrev pub without_pages : ℕ → Disk → Disk
without_pages q d = record d {
  sched = record d.sched {
    pages = record d.sched.pages { freelist_head = d.sched.pages.memory q };
  };
}

-- `ext2_init` for a superblock that is read and passes the tests.
init_run :
    (ata_read : ℕ → ℕ → ℕ → Disk → Run (ℕ × Disk)) (stack_buf : List ℕ)
    (super root_inode sectors groups p q : ℕ) (k : Kernel) (d : Disk)
    → let fs : Ext2Fs = record { super = super; bgd = 0; tmp = 0 } in
      ata_read super 2 2 k.disk ≡ ok (0, d)
      → signature d.memory fs ≡ ext2_signature
      → ext2_block_size d.memory fs ≡ ok (512 * sectors)
      → sectors ≤ 8
      → blocks_per_group d.memory fs ≢ 0
      → total_blocks d.memory fs / blocks_per_group d.memory fs ≡ groups
      → groups ≤ 128
      → d.sched.pages.freelist_head ≡ p
      → p ≢ 0
      → d.sched.pages.memory p ≡ q
      → q ≢ 0
      → ext2_init ata_read stack_buf super root_inode k
        ≡ mount ata_read stack_buf
            (record { super = super; bgd = p; tmp = q })
            root_inode
            sectors
            groups
            (record k { disk = without_pages q d })
unfolding ext2_init divide sizeof group_descriptor kalloc
init_run ata_read stack_buf super root_inode sectors groups p q k d run sign size few some_blocks
      count fit head some_p next some_q =
    let fs : Ext2Fs = record { super = super; bgd = 0; tmp = 0 } in
    let sign' : (signature d.memory fs == ext2_signature) ≡ true =
      eq→== (signature d.memory fs) ext2_signature sign in
    let blocks : (blocks_per_group d.memory fs == 0) ≡ false =
      ne→== (blocks_per_group d.memory fs) 0 some_blocks in
    let groups_fit : ltb 128 groups ≡ false = ground arith in
    let size_fits : ltb 4096 (512 * sectors) ≡ false = ground arith in
    let unit : 512 * sectors / 512 ≡ sectors = omega arith in
    rw
      (
        run,
        sign',
        size,
        blocks,
        count,
        groups_fit,
        size_fits,
        head,
        ne→== p 0 some_p,
        next,
        ne→== q 0 some_q,
        unit,
      )
      refl

init_ext2_run :
    (ata_read : ℕ → ℕ → ℕ → Disk → Run (ℕ × Disk)) (stack_buf : List ℕ) (super root_inode ret : ℕ)
    (k k' : Kernel)
    → ext2_init ata_read stack_buf super root_inode k ≡ ok (ret, k')
    → init_ext2 ata_read stack_buf super root_inode k ≡ ok k'
unfolding init_ext2 sizeof group_descriptor superblock extended_superblock inode_layout
init_ext2_run ata_read stack_buf super root_inode ret k k' run = rw run refl

module _ (image : Image) (ata_read : ℕ → ℕ → ℕ → Disk → Run (ℕ × Disk))
    (reads : Reads image ata_read) where
  -- On a disk that has not the signature of the file system in its superblock, `init_ext2` panics: for a
  -- task that may read, and a superblock in memory that does not wrap around.
  pub init_ext2-panic :
      (stack_buf : List ℕ) (super root_inode : ℕ) (k : Kernel)
      → Ready k.disk
      → 0 < super
      → super + 1024 < 2 ^ 32
      → signature image on_disk ≢ 0xef53
      → init_ext2 ata_read stack_buf super root_inode k ≡ panic
  unfolding init_ext2 ext2_init sizeof group_descriptor superblock extended_superblock inode_layout
  init_ext2-panic stack_buf super root_inode k r pos room bad =
      let (d, run, ready, holds, kept) =
        reads super 2 2 k.disk r pos room (omega arith) (omega arith) (omega arith) in
      let fs : Ext2Fs = record { super = super; bgd = 0; tmp = 0 } in
      let found =
        signature-Members d.memory image fs on_disk
          (Members-disk image fs k.disk.memory d.memory holds) in
      let other : (signature d.memory fs == ext2_signature) ≡ false =
        ne→== (signature d.memory fs) ext2_signature (λ e. bad (sym found ∙ e)) in
      rw (run, other) refl

  -- The task that runs may read the disk, which has the file system, in blocks of more than 1 KB, blocks
  -- for each group and at most 128 groups, and a root directory that can be listed; the superblock in memory does not wrap around,
  -- the numbers that are printed are words, and the two first pages of the free list have room for a
  -- block each and stand apart from the structures. Then `init_ext2` returns. It has printed the line
  -- about the file system and a line for every entry of the root directory that is on the disk, in
  -- order, and has taken the two pages.
  pub init_ext2-listings :
      (stack_buf : List ℕ) (super root_inode sectors groups p q : ℕ)
      (blocks : List (ℕ × List DirEntry)) (k : Kernel)
      → length stack_buf ≡ printk_buf_size
      → Ready k.disk
      → 0 < super
      → super + 1024 < 2 ^ 32
      → signature image on_disk ≡ 0xef53
      → RootDirectory image (record { super = super; bgd = p; tmp = q }) sectors blocks
      → blocks_per_group image on_disk ≢ 0
      → total_blocks image on_disk / blocks_per_group image on_disk ≡ groups
      → groups ≤ 128
      → AreWords (rev image on_disk ∷ rev_minor image on_disk ∷ sectors ∷ groups ∷ [])
      → k.disk.sched.pages.freelist_head ≡ p
      → k.disk.sched.pages.memory p ≡ q
      → Placed (record { super = super; bgd = p; tmp = q }) root_inode sectors
      → (k' : Kernel) × (init_ext2 ata_read stack_buf super root_inode k ≡ ok k')
        × (k'.terminal
            ≡ print_all k.terminal
                (found_text (rev image on_disk) (rev_minor image on_disk) sectors groups
                  ++ listings blocks)
                color)
        × (k'.disk.sched ≡ (without_pages q k.disk).sched)
  init_ext2-listings stack_buf super root_inode sectors groups p q blocks k buf r pos room sign root
        some_blocks count fit words head next place =
      let (d, run, ready, holds, kept) =
        reads super 2 2 k.disk r pos room (omega arith) (omega arith) (omega arith) in
      let fs : Ext2Fs = record { super = super; bgd = p; tmp = q } in
      let m = d.memory in
      let same = Members-disk image fs k.disk.memory m holds in
      let per = blocks_per_group-Members m image fs on_disk same in
      let total = total_blocks-Members m image fs on_disk same in
      let few = root.few in
      let bgd_there = place.bgd_there in
      let tmp_there = place.tmp_there in
      let pages = without_pages q d in
      let (k', mounted, shown, sched) =
        mount-listings image ata_read reads stack_buf fs root_inode sectors groups blocks
          (record k { disk = pages }) buf (Ready-pages d m pages.sched.pages ready) place root same
          words in
      let start =
        init_run ata_read stack_buf super root_inode sectors groups p q k d run
          (signature-Members m image fs on_disk same ∙ sign)
          (ext2_block_size-Members m image (record { super = super; bgd = 0; tmp = 0 }) on_disk same
            ∙ root.block_size)
          few (λ e. some_blocks (sym per ∙ e)) (ap₂ (λ t n. t / n) total per ∙ count) fit
          (ap (λ (s : Sched). s.pages.freelist_head) kept ∙ head) (λ e. absurd (omega (arith, e)))
          (ap (λ (s : Sched). s.pages.memory p) kept ∙ next) (λ e. absurd (omega (arith, e))) in
      (
        k',
        init_ext2_run ata_read stack_buf super root_inode 0 k k' (start ∙ mounted),
        shown,
        sched
            ∙ ap
                (λ (s : Sched). record s {
                  pages = record s.pages { freelist_head = s.pages.memory q };
                })
                kept,
      )
