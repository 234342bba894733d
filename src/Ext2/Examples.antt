-- ===== src/Ext2/Examples.antt =====
-- The file system on a small disk: the superblock in memory has groups of 16 inodes, their table is
-- in block 5, and the root directory is one entry in block 7.
use low_flex_programming.Base.{
  ℕ, ◌+◌, ◌<◌, ◌≡◌, refl, [], ◌∷◌, ◌++◌, ◌==◌, if◌then◌else◌, ok, panic, fault, arith, inl, inr,
  some, replicate,
}
use low_flex_programming.Common.{Memory}
use low_flex_programming.Common.Regions.{Same, Apart}
use low_flex_programming.Acpi.{read16, read32}
use low_flex_programming.Terminal.Print.{print_all}
use low_flex_programming.Printk.{color}
use low_flex_programming.Sched.{Task, running}
use low_flex_programming.Ata.{Disk}
use low_flex_programming.Ata.Image.{Image, IsBytes}
use low_flex_programming.Ata.Device.{Ready, blocking_read, blocking_read-Reads}
use low_flex_programming.Syscall.{Kernel}
use low_flex_programming.Ext2.{
  Ext2Fs, extended_superblock, ext2_block_size, shift_left, offset_of, superblock, dir_entry_head,
  inode_size, ext2_read_inode, init_ext2, walk_loop,
}
use low_flex_programming.Ext2.Inode.{Mounted, ext2_read_inode-slot}
use low_flex_programming.Ext2.Walk.{DirEntry, walk_loop-endless}
use low_flex_programming.Ext2.Root.{listings}
use low_flex_programming.Ext2.Init.{without_pages, init_ext2-panic, init_ext2-listings}
use low_flex_programming.Ext2.OnDisk.{RootDirectory, found_text}

-- The i_blocks and the first pointer of inode 2, and an entry of 1024 bytes with the name "." for it.
abbrev image : Image
image o =
    if o == 5276
    then 2
    else if o == 5288
    then 7
    else if o == 7168
    then 2
    else if o == 7173
    then 4
    else if o == 7176
    then b'.'
    else 0

image-IsBytes : IsBytes image
image-IsBytes o = ground arith

abbrev fs : Ext2Fs
fs = record { super = 0x1000; bgd = 0x2000; tmp = 0x3000 }

abbrev memory : Memory
memory a = if a == 0x1028 then 16 else if a == 0x2008 then 5 else 0

abbrev task : Task
task = record {
  pid = 1;
  state = running;
  context = record { esp = 0; ebp = 0; esi = 0; edi = 0; ebx = 0 };
  regs = 0;
  kstack = 0;
  ticks_remaining = 0;
  exitcode = 0;
}

abbrev disk : Memory → Disk
disk m = record {
  dev = record { io_base = 0x1f0; io_ctrl_base = 0x3f6 };
  req_queue = [];
  ports = [];
  memory = m;
  sched = record {
    tasks = task ∷ [];
    current = some 0;
    pages = record { memory = λ a. 0; freelist_head = 0; kernel_pgdir = 0 };
  };
}

abbrev ready : (m : Memory) → Ready (disk m)
ready m = record { idle = refl; index = 0; task = task; current = refl; listed = refl; runs = refl }

abbrev kernel : Memory → Kernel
kernel m = record { disk = disk m; terminal = record { row = 0; column = 0; buffer = λ a. 0 } }

abbrev mounted : Mounted fs 2 memory
unfolding ext2_block_size shift_left offset_of superblock read32
mounted = record {
  size = refl;
  some_sectors = omega arith;
  few = omega arith;
  allocated = omega arith;
  room = omega arith;
  apart = inl (omega arith);
}

ext2_read_inode-slot_example :
    (d' : Disk) × (ext2_read_inode (blocking_read image) fs 2 0x5000 (disk memory) ≡ ok (0, d'))
    × Ready d'
    × ((k : ℕ) → k < 128 → d'.memory (0x5000 + k) ≡ image (5248 + k))
    × ((a n : ℕ) → Apart a n 0x5000 128 → Apart a n 0x3000 1024 → Same memory d'.memory a n)
    × (d'.sched ≡ (disk memory).sched)
unfolding offset_of superblock read32 inode_size
ext2_read_inode-slot_example =
    ext2_read_inode-slot image (blocking_read image) (blocking_read-Reads image image-IsBytes) fs 2
      0x5000 2 (disk memory) (ready memory) mounted (inr (omega arith)) (omega arith) (omega arith)
      (omega arith) (omega arith) (omega arith) (omega arith)

-- A disk with blocks of 4096 bytes: one group of 0x2000 blocks and 16 inodes, whose table is in block
-- 5; inode 2 has one block, block 7, with one entry.
abbrev whole_disk : Image
whole_disk o =
    if o == 1029
    then 0x20
    else if o == 1048
    then 2
    else if o == 1057
    then 0x20
    else if o == 1064
    then 16
    else if o == 1080
    then 0x53
    else if o == 1081
    then 0xef
    else if o == 4104
    then 5
    else if o == 20636
    then 8
    else if o == 20648
    then 7
    else if o == 28672
    then 2
    else if o == 28677
    then 0x10
    else if o == 28680
    then b'.'
    else 0

whole_disk-IsBytes : IsBytes whole_disk
whole_disk-IsBytes o = ground arith

-- The two pages of the free list are 0x4000 and 0x8000.
abbrev with_pages : Disk
with_pages = record (disk (λ a. 0)) {
  sched = record (disk (λ a. 0)).sched {
    pages = record { memory = λ a. 0x8000; freelist_head = 0x4000; kernel_pgdir = 0 };
  };
}

abbrev ready_pages : Ready with_pages
ready_pages = record {
  idle = refl;
  index = 0;
  task = task;
  current = refl;
  listed = refl;
  runs = refl;
}

abbrev start : Kernel
start = record (kernel (λ a. 0)) { disk = with_pages }

abbrev mounted_fs : Ext2Fs
mounted_fs = record { super = 0x1000; bgd = 0x4000; tmp = 0x8000 }

abbrev dot : DirEntry
dot = record { name = b'.' ∷ []; inode = 2; len = 4096 }

abbrev root : RootDirectory whole_disk mounted_fs 8 ((7, dot ∷ []) ∷ [])
unfolding ext2_block_size shift_left inode_size offset_of superblock extended_superblock
    dir_entry_head read16 read32
root = record {
  large = omega arith;
  few = omega arith;
  block_size = refl;
  inodes = omega arith;
  bound = omega arith;
  fits = omega arith;
  low = omega arith;
  count = refl;
  named = (
    omega arith,
    refl,
    (
      omega arith,
      (
        omega arith,
        refl,
        omega arith,
        refl,
        omega arith,
        (refl, λ e. absurd (omega (arith, e)), refl),
        omega arith,
        omega arith,
      ),
      (omega arith, tt),
    ),
    tt,
  );
}

init_ext2-listings_example :
    (k' : Kernel) × (init_ext2 (blocking_read whole_disk) (replicate 11 0) 0x1000 0xa000 start
      ≡ ok k')
    × (k'.terminal
        ≡ print_all start.terminal (found_text 0 0 8 1 ++ listings ((7, dot ∷ []) ∷ [])) color)
    × (k'.disk.sched ≡ (without_pages 0x8000 with_pages).sched)
unfolding offset_of superblock read16 read32
init_ext2-listings_example =
    init_ext2-listings whole_disk (blocking_read whole_disk)
      (blocking_read-Reads whole_disk whole_disk-IsBytes) (replicate 11 0) 0x1000 0xa000 8 1 0x4000
      0x8000 ((7, dot ∷ []) ∷ []) start refl ready_pages (omega arith) (omega arith) refl root
      (λ e. absurd (omega (arith, e))) refl (omega arith)
      (omega arith, (omega arith, (omega arith, (omega arith, tt)))) refl refl
      (record {
        bgd_there = omega arith;
        bgd_room = omega arith;
        tmp_there = omega arith;
        tmp_room = omega arith;
        super_bgd = inl (omega arith);
        super_tmp = inl (omega arith);
        super_inode = inl (omega arith);
        inode_tmp = inr (omega arith);
      })

init_ext2-panic_example :
    init_ext2 (blocking_read image) (replicate 11 0) 0x1000 0x5000 (kernel memory) ≡ panic
unfolding offset_of superblock read16
init_ext2-panic_example =
    init_ext2-panic image (blocking_read image) (blocking_read-Reads image image-IsBytes)
      (replicate 11 0) 0x1000 0x5000 (kernel memory) (ready memory) (omega arith) (omega arith)
      (λ e. absurd (omega (arith, e)))

-- A block of zeros at 0x3000.
walk_loop-endless_example : walk_loop (replicate 11 0) fs 5 0x3000 (kernel memory) ≡ fault
unfolding ext2_block_size shift_left offset_of superblock read32 read16 dir_entry_head
walk_loop-endless_example =
    walk_loop-endless 5 (replicate 11 0) fs 1024 0x3000 0 [] (kernel memory) refl refl (omega arith)
      (omega arith) refl refl (omega arith) refl (omega arith)
