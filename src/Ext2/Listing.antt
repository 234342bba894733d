-- ===== src/Ext2/Listing.antt =====
-- The loop over the directory's blocks.
use low_flex_programming.Base.{
  ℕ, suc, ◌+◌, ◌-◌, ◌*◌, ◌^◌, ◌≤◌, ◌<◌, ◌≡◌, refl, ◌∙◌, sym, List, [], ◌∷◌, length, Run, ok, arith,
  lt→ltb,
}
use low_flex_programming.Common.Regions.{Same, Apart}
use low_flex_programming.Terminal.Print.{print_all, print_all-append}
use low_flex_programming.Printk.{printk_buf_size, color}
use low_flex_programming.Ata.{Disk}
use low_flex_programming.Ata.Image.{Image}
use low_flex_programming.Ata.Device.{Ready, Reads}
use low_flex_programming.Syscall.{Kernel}
use low_flex_programming.Ext2.{
  Ext2Fs, walk_loop, walk_fuel, offset_of, inode_layout, direct_ptr, ext2_read_block, blocks_loop,
}
use low_flex_programming.Ext2.Block.{ext2_read_block-HoldsDisk, HoldsDisk-Same}
use low_flex_programming.Ext2.Inode.{Mounted}
use low_flex_programming.Ext2.Walk.{DirEntry, listing, shows, walk_loop-listing, length-Chain}
use low_flex_programming.Ext2.Root.{
  Named, pointer_in, Named-Same, Mounted-Same, seen, seen-Same, Chain-Same, listings,
}

-- A round whose block is read and listed.
round_run :
    (ata_read : ℕ → ℕ → ℕ → Disk → Run (ℕ × Disk)) (stack_buf : List ℕ) (fs : Ext2Fs)
    (root_inode rounds i block : ℕ) (text : List ℕ) (k : Kernel) (d : Disk)
    → i < 12
    → pointer_in k.disk.memory root_inode i ≡ block
    → ext2_read_block ata_read fs block fs.tmp k.disk ≡ ok (0, d)
    → walk_loop stack_buf fs walk_fuel fs.tmp (record k { disk = d })
      ≡ ok (shows (record k { disk = d }) text)
    → blocks_loop ata_read stack_buf fs root_inode (suc rounds) i k
      ≡ blocks_loop ata_read stack_buf fs root_inode rounds
          (i + 1)
          (shows (record k { disk = d }) text)
unfolding blocks_loop direct_ptr offset_of inode_layout
round_run ata_read stack_buf fs root_inode rounds i block text k d lt ptr run walked =
    rw (lt→ltb i 12 lt, ptr, run, walked) refl

module _ (image : Image) (ata_read : ℕ → ℕ → ℕ → Disk → Run (ℕ × Disk))
    (reads : Reads image ata_read) where
  -- With the inode of the directory in memory, apart from the page for blocks, and at most 12 blocks of
  -- well-formed entries: the loop returns 0 and has listed every entry of every block, in order.
  pub blocks_loop-listings :
      (stack_buf : List ℕ) (fs : Ext2Fs) (root_inode sectors i : ℕ)
      (blocks : List (ℕ × List DirEntry)) (k : Kernel)
      → length stack_buf ≡ printk_buf_size
      → Ready k.disk
      → Mounted fs sectors k.disk.memory
      → fs.tmp + 512 * sectors + 8 ≤ 2 ^ 32
      → Apart root_inode 128 fs.tmp (512 * sectors)
      → Named (pointer_in k.disk.memory root_inode) i image fs sectors blocks
      → (k' : Kernel) × (blocks_loop ata_read stack_buf fs root_inode (length blocks) i k
          ≡ ok (0, k'))
        × (k'.terminal ≡ print_all k.terminal (listings blocks) color)
        × (k'.disk.sched ≡ k.disk.sched)
  unfolding blocks_loop print_all
  blocks_loop-listings stack_buf fs root_inode sectors i [] k buf r geo room apart named =
      (k, refl, refl, refl)
  blocks_loop-listings stack_buf fs root_inode sectors i ((block, es) ∷ blocks) k buf r geo room
        apart named =
      let m = k.disk.memory in
      let size = 512 * sectors in
      let few = geo.few in
      let (small, chain, within) = named.2 in
      let (d, run, ready, holds, kept) =
        ext2_read_block-HoldsDisk image ata_read reads fs block fs.tmp sectors k.disk r geo.size
          geo.some_sectors geo.few geo.allocated geo.room small in
      let k1 : Kernel = record k { disk = d } in
      let geo1 =
        Mounted-Same m d.memory fs sectors
          (HoldsDisk-Same image _ size fs.tmp fs.super 1024 m d.memory holds geo.apart) geo in
      let same = HoldsDisk-Same image _ size fs.tmp root_inode 128 m d.memory holds apart in
      let view = seen image (512 * (sectors * block)) fs.tmp in
      let whole : Same view d.memory fs.tmp (fs.tmp + size - fs.tmp) = λ x l g.
        seen-Same image (512 * (sectors * block)) size fs.tmp m d.memory holds x l (omega arith) in
      let there =
        Chain-Same view d.memory fs.tmp (fs.tmp + size) fs.tmp es whole (omega arith) within
          chain in
      let fuel = length-Chain d.memory (fs.tmp + size) fs.tmp es there in
      let walked =
        walk_loop-listing stack_buf fs size walk_fuel fs.tmp es k1 buf geo1.size room (omega arith)
          there in
      let (k', rest, shown, sched) =
        blocks_loop-listings stack_buf fs root_inode sectors (i + 1) blocks (shows k1 (listing es))
          buf ready geo1 room apart
          (Named-Same m d.memory root_inode (i + 1) image fs sectors blocks same named.3) in
      (
        k',
        round_run ata_read stack_buf fs root_inode (length blocks) i block (listing es) k d named.0
              named.1 run walked
            ∙ rest,
        shown ∙ sym (print_all-append k.terminal (listing es) (listings blocks) color),
        sched ∙ kept,
      )
