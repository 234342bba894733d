-- ===== src/Ext2/Block.antt =====
-- ext2_read_block: a block of the disk, in a buffer.
use low_flex_programming.Base.{
  ℕ, ◌+◌, ◌-◌, ◌*◌, ◌/◌, ◌^◌, ◌≤◌, ◌<◌, ◌≡◌, refl, ap, ◌∙◌, inl, inr, ◌&&◌, ltb, leb, true,
  if◌then◌else◌, Run, ok, arith, u32,
}
use low_flex_programming.Common.{Memory, memset}
use low_flex_programming.Common.Copy.{memset_lem}
use low_flex_programming.Common.Regions.{Same, Apart, Same-part}
use low_flex_programming.Acpi.{read16, read32}
use low_flex_programming.Paging.{Pages}
use low_flex_programming.Ata.{Disk}
use low_flex_programming.Ata.Image.{Image, HoldsDisk}
use low_flex_programming.Ata.Device.{Ready, Reads}
use low_flex_programming.Ext2.{
  Ext2Fs, superblock, offset_of, ext2_block_size, shift_left, ext2_read_block,
}

-- A place apart from the buffer keeps what it holds.
pub HoldsDisk-Same :
    (image : Image) (o n buf a k : ℕ) (m m' : Memory)
    → HoldsDisk image o n buf m m'
    → Apart a k buf n
    → Same m m' a k
HoldsDisk-Same image o n buf a k m m' h (inl before) x low high = ground (arith, h x)
HoldsDisk-Same image o n buf a k m m' h (inr behind) x low high = ground (arith, h x)

-- A byte of the buffer.
pub HoldsDisk-inside :
    (image : Image) (o n buf i : ℕ) (m m' : Memory)
    → HoldsDisk image o n buf m m'
    → i < n
    → m' (buf + i) ≡ image (o + i)
HoldsDisk-inside image o n buf i m m' h lt =
    let at : o + (buf + i) - buf ≡ o + i = omega arith in
    let inside : (leb buf (buf + i) && ltb (buf + i) (buf + n)) ≡ true = ground arith in
    h (buf + i)
    ∙ ap (λ b. if b then image (o + (buf + i) - buf) else m (buf + i)) inside
    ∙ ap image at

pub read16-Same : (m m' : Memory) (a : ℕ) → Same m m' a 2 → read16 m' a ≡ read16 m a
unfolding read16
read16-Same m m' a h =
    rw (h a (omega arith) (omega arith), h (a + 1) (omega arith) (omega arith)) refl

pub read32-Same : (m m' : Memory) (a : ℕ) → Same m m' a 4 → read32 m' a ≡ read32 m a
unfolding read32
read32-Same m m' a h =
    rw
      (
        h a (omega arith) (omega arith),
        h (a + 1) (omega arith) (omega arith),
        h (a + 2) (omega arith) (omega arith),
        h (a + 3) (omega arith) (omega arith),
      )
      refl

-- A member of the superblock stays while the superblock does.
pub member32-Same :
    (m m' : Memory) (fs : Ext2Fs) (at : ℕ)
    → Same m m' fs.super 1024
    → at + 4 ≤ 1024
    → read32 m' (fs.super + at) ≡ read32 m (fs.super + at)
member32-Same m m' fs at same h =
    read32-Same m m' (fs.super + at)
      (Same-part m m' fs.super 1024 (fs.super + at) 4 same (omega arith) (omega arith))

pub ext2_block_size-Same :
    (m m' : Memory) (fs : Ext2Fs)
    → Same m m' fs.super 1024
    → ext2_block_size m' fs ≡ ext2_block_size m fs
unfolding ext2_block_size offset_of superblock
ext2_block_size-Same m m' fs same =
    ap (shift_left 1024) (member32-Same m m' fs 24 same (omega arith))

-- A task that may read still may after a change of the memory or of the pages.
abbrev pub Ready-pages :
    (d : Disk) (m : Memory) (p : Pages)
    → Ready d
    → Ready (record d { memory = m; sched = record d.sched { pages = p } })
Ready-pages d m p r = record {
  idle = r.idle;
  index = r.index;
  task = r.task;
  current = r.current;
  listed = r.listed;
  runs = r.runs;
}

-- The driver, as far as it is relied on.
module _ (image : Image) (ata_read : ℕ → ℕ → ℕ → Disk → Run (ℕ × Disk))
    (reads : Reads image ata_read) where
  -- With blocks of 1 to 8 sectors, for a buffer that does not wrap around and a block whose sectors
  -- have 28-bit numbers: `ext2_read_block` returns 0, with the block of the disk in the buffer, and
  -- nothing else of the memory or of the scheduler is changed.
  pub ext2_read_block-HoldsDisk :
      (fs : Ext2Fs) (block buf sectors : ℕ) (d : Disk)
      → Ready d
      → ext2_block_size d.memory fs ≡ ok (512 * sectors)
      → 0 < sectors
      → sectors ≤ 8
      → 0 < buf
      → buf + 512 * sectors < 2 ^ 32
      → sectors * block < 2 ^ 28
      → (d' : Disk) × (ext2_read_block ata_read fs block buf d ≡ ok (0, d'))
        × Ready d'
        × HoldsDisk image (512 * (sectors * block)) (512 * sectors) buf d.memory d'.memory
        × (d'.sched ≡ d.sched)
  unfolding ext2_read_block
  ext2_read_block-HoldsDisk fs block buf sectors d r size some_sectors few pos room small =
      let cleared : Disk = record d { memory = memset d.memory buf 0 (512 * sectors) } in
      let count : 512 * sectors / 512 ≡ sectors = omega arith in
      let lba : u32 (sectors * block) ≡ sectors * block = omega arith in
      let step : ext2_read_block ata_read fs block buf d
          ≡ ata_read buf (sectors * block) sectors cleared =
        rw (size, count, lba) refl in
      let (d', run, ready, holds, kept) =
        reads buf (sectors * block) sectors cleared (Ready-pages d cleared.memory d.sched.pages r)
          pos room small some_sectors (omega arith) in
      (
        d',
        step ∙ run,
        ready,
        λ a.
            holds a
            ∙ (let whole = memset_lem d.memory buf 0 (512 * sectors) a in ground (arith, whole)),
        kept,
      )
