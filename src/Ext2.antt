-- ===== src/Ext2.antt =====
-- ext2.c: the file system, as far as the kernel reads it at its start: the superblock, a block, an
-- inode, and the listing of the root directory. The structures stand in the memory of the disk's
-- buffers, byte by byte; a member is found by the widths of those before it. The allocated pages are
-- named by kalloc, whose free list is in the memory of the scheduler's pages.
mod Layout
pub mod Block
pub mod Inode
pub mod Walk
pub mod Root
pub mod Listing
pub mod Directory
pub mod Super
pub mod OnDisk
pub mod Mount
pub mod Init
mod Examples
unfoldable pub use Layout.*
use low_flex_programming.Base.{
  ℕ, zero, suc, ◌+◌, ◌-◌, ◌*◌, ◌/◌, ◌%◌, ◌^◌, List, [], ◌∷◌, ◌++◌, Bool, true, false, ◌==◌, ltb,
  leb, not, ◌&&◌, if◌then◌else◌, replicate, Run, ok, panic, fault, ◌>>=◌, add32, sub32, u32, ◌<<<◌,
}
use low_flex_programming.Common.{Memory, memset, memcpy}
use low_flex_programming.Acpi.{read16, read32}
use low_flex_programming.Paging.{kalloc, page_size}
use low_flex_programming.Printk
use low_flex_programming.Ata.{Disk}
use low_flex_programming.Syscall.{Kernel}

abbrev pub ext2_signature : ℕ
ext2_signature = 0xef53

-- struct ext2_fs: the superblock's address, and the two pointers.
pub record Ext2Fs : Type 0 where
  pub super : ℕ
  pub bgd : ℕ
  pub tmp : ℕ

-- The members of the superblock that the code reads.
abbrev pub total_blocks : Memory → Ext2Fs → ℕ
total_blocks m fs = read32 m (fs.super + offset_of superblock 1)

abbrev pub block_size_log : Memory → Ext2Fs → ℕ
block_size_log m fs = read32 m (fs.super + offset_of superblock 6)

abbrev pub blocks_per_group : Memory → Ext2Fs → ℕ
blocks_per_group m fs = read32 m (fs.super + offset_of superblock 8)

abbrev pub inodes_per_block_group : Memory → Ext2Fs → ℕ
inodes_per_block_group m fs = read32 m (fs.super + offset_of superblock 10)

abbrev pub signature : Memory → Ext2Fs → ℕ
signature m fs = read16 m (fs.super + offset_of superblock 15)

abbrev pub rev_minor : Memory → Ext2Fs → ℕ
rev_minor m fs = read16 m (fs.super + offset_of superblock 18)

abbrev pub rev : Memory → Ext2Fs → ℕ
rev m fs = read32 m (fs.super + offset_of superblock 22)

abbrev pub inode_size_bytes : Memory → Ext2Fs → ℕ
inode_size_bytes m fs = read16 m (fs.super + offset_of superblock 26)

-- A shift of an `int` that leaves its 31 bits is undefined, as is a division by zero.
unfoldable pub shift_left : ℕ → ℕ → Run ℕ
shift_left a log = if ltb log 31 && ltb (a <<< log) (2 ^ 31) then ok (a <<< log) else fault

unfoldable pub divide : ℕ → ℕ → Run ℕ
divide a b = if b == 0 then fault else ok (a / b)

unfoldable pub ext2_block_size : Memory → Ext2Fs → Run ℕ
ext2_block_size m fs = shift_left 1024 (block_size_log m fs)

-- The size of the inodes on the disk.
unfoldable pub inode_size : Memory → Ext2Fs → ℕ
inode_size m fs = if leb 1 (rev m fs) then inode_size_bytes m fs else 128

-- An `int` below 0.
abbrev pub is_error : ℕ → Bool
is_error ret = leb (2 ^ 31) ret

-- A C string at an address: the memory from there on, as far as the fuel goes.
unfoldable pub bytes_from : ℕ → Memory → ℕ → List ℕ
bytes_from zero m a = []
bytes_from (suc fuel) m a = m a ∷ bytes_from fuel m (a + 1)

abbrev pub found_format : List ℕ
found_format =
    b'f' ∷ b'o' ∷ b'u' ∷ b'n' ∷ b'd' ∷ b' ' ∷ b'v' ∷ b'a' ∷ b'l' ∷ b'i' ∷ b'd' ∷ b' ' ∷ b'e' ∷ b'x'
    ∷ b't' ∷ b'2' ∷ b',' ∷ b' ' ∷ b'r' ∷ b'e' ∷ b'v' ∷ b'=' ∷ b'%' ∷ b'd' ∷ b'.' ∷ b'%' ∷ b'd'
    ∷ b',' ∷ b' ' ∷ b's' ∷ b'e' ∷ b'c' ∷ b't' ∷ b'o' ∷ b'r' ∷ b's' ∷ b'_' ∷ b'p' ∷ b'e' ∷ b'r'
    ∷ b'_' ∷ b'b' ∷ b'l' ∷ b'o' ∷ b'c' ∷ b'k' ∷ b'=' ∷ b'%' ∷ b'd' ∷ b',' ∷ b' ' ∷ b'g' ∷ b'r'
    ∷ b'o' ∷ b'u' ∷ b'p' ∷ b's' ∷ b'=' ∷ b'%' ∷ b'd' ∷ b'\n' ∷ 0 ∷ []

abbrev pub entry_format : List ℕ
entry_format =
    b' ' ∷ b'*' ∷ b' ' ∷ b'e' ∷ b'n' ∷ b't' ∷ b'r' ∷ b'y' ∷ b' ' ∷ b'n' ∷ b'a' ∷ b'm' ∷ b'e' ∷ b'='
    ∷ b'\'' ∷ b'%' ∷ b's' ∷ b'\'' ∷ b',' ∷ b' ' ∷ b'i' ∷ b'n' ∷ b'o' ∷ b'd' ∷ b'e' ∷ b'=' ∷ b'%'
    ∷ b'd' ∷ b'\n' ∷ 0 ∷ []

-- `stack_buf` is what stands in the uninitialised array of `vprintk`.
unfoldable pub printk : List ℕ → List ℕ → List ℕ → Kernel → Run Kernel
printk stack_buf format args k = do
  t ← Printk.printk (bytes_from page_size k.disk.memory) stack_buf format args k.terminal
  ok (record k { terminal = t })

-- `direct_ptr[i]` of the inode at `inode`; the array has 12 elements.
unfoldable pub direct_ptr : Memory → ℕ → ℕ → Run ℕ
direct_ptr m inode i =
    if ltb i 12 then ok (read32 m (inode + offset_of inode_layout 12 + 4 * i)) else fault

abbrev pub i_blocks : Memory → ℕ → ℕ
i_blocks m inode = read32 m (inode + offset_of inode_layout 9)

abbrev pub entry_inode : Memory → ℕ → ℕ
entry_inode m head = read32 m (head + offset_of dir_entry_head 0)

abbrev pub rec_len : Memory → ℕ → ℕ
rec_len m head = read16 m (head + offset_of dir_entry_head 1)

abbrev pub entry_name : ℕ → ℕ
entry_name head = head + offset_of dir_entry_head 4

-- The line for the entry at `head`.
unfoldable pub print_entry : List ℕ → ℕ → Kernel → Run Kernel
print_entry stack_buf head k =
    printk stack_buf entry_format (entry_name head ∷ entry_inode k.disk.memory head ∷ []) k

-- The loop over the entries of a block, on fuel. An entry without a length makes it endless.
unfoldable pub walk_loop : List ℕ → Ext2Fs → ℕ → ℕ → Kernel → Run Kernel
walk_loop stack_buf fs zero head k = fault
walk_loop stack_buf fs (suc fuel) head k = do
  size ← ext2_block_size k.disk.memory fs
  if leb (fs.tmp + size) head then ok k else (do
    k' ← print_entry stack_buf head k
    walk_loop stack_buf fs fuel (head + rec_len k'.disk.memory head) k')

-- A block has at most 4096 bytes, and an entry moves on by a byte at least.
abbrev pub walk_fuel : ℕ
walk_fuel = 4097

-- `ata_read` is the driver's, from the call to its return.
module _ (ata_read : ℕ → ℕ → ℕ → Disk → Run (ℕ × Disk)) where
  unfoldable pub ext2_read_block : Ext2Fs → ℕ → ℕ → Disk → Run (ℕ × Disk)
  ext2_read_block fs block buf d = do
    size ← ext2_block_size d.memory fs
    let sectors_per_block = size / 512
    ata_read buf (u32 (sectors_per_block * block)) sectors_per_block
        (record d { memory = memset d.memory buf 0 size })

  unfoldable pub ext2_read_inode : Ext2Fs → ℕ → ℕ → Disk → Run (ℕ × Disk)
  ext2_read_inode fs inode buf d = do
    let m = d.memory
    group ← divide (sub32 inode 1) (inodes_per_block_group m fs)
    size ← ext2_block_size m fs
    let inode_index = sub32 inode 1 % inodes_per_block_group m fs
    let start = u32 (inode_index * inode_size m fs)
    let table = read32 m (fs.bgd + sizeof group_descriptor * group + offset_of group_descriptor 2)
    (ret, d) ← ext2_read_block fs (add32 table (start / size)) fs.tmp d
    if is_error ret then ok (ret, d) else (do
      size ← ext2_block_size d.memory fs
      let pos = start % size
      let m = memcpy d.memory buf (fs.tmp + pos) (sizeof inode_layout)
      ok (0, record d { memory = m }))

  -- The loop over the directory's blocks, by those that are left, from the index `i` on.
  unfoldable pub blocks_loop : List ℕ → Ext2Fs → ℕ → ℕ → ℕ → Kernel → Run (ℕ × Kernel)
  blocks_loop stack_buf fs root_inode zero i k = ok (0, k)
  blocks_loop stack_buf fs root_inode (suc rounds) i k = do
    block ← direct_ptr k.disk.memory root_inode i
    (ret, d) ← ext2_read_block fs block fs.tmp k.disk
    if is_error ret then ok (ret, record k { disk = d }) else (do
      k' ← walk_loop stack_buf fs walk_fuel fs.tmp (record k { disk = d })
      blocks_loop stack_buf fs root_inode rounds (i + 1) k')

  -- The listing of the root directory, whose inode is at `root_inode` on the stack.
  unfoldable pub list_root : List ℕ → Ext2Fs → ℕ → Kernel → Run (ℕ × Kernel)
  list_root stack_buf fs root_inode k = do
    (ret, d) ← ext2_read_inode fs 2 root_inode k.disk
    if is_error ret then ok (ret, record k { disk = d }) else (do
      units ← shift_left 2 (block_size_log d.memory fs)
      let max_blocks = i_blocks d.memory root_inode / units
      blocks_loop stack_buf fs root_inode max_blocks 0 (record k { disk = d }))

  -- `ext2_init` from the two pages on.
  unfoldable pub mount : List ℕ → Ext2Fs → ℕ → ℕ → ℕ → Kernel → Run (ℕ × Kernel)
  mount stack_buf fs root_inode sectors_per_block groups k = do
    (ret, d) ← ext2_read_block fs 1 fs.bgd k.disk
    if is_error ret then ok (ret, record k { disk = d }) else (do
      let args = rev d.memory fs ∷ rev_minor d.memory fs ∷ sectors_per_block ∷ groups ∷ []
      k' ← printk stack_buf found_format args (record k { disk = d })
      list_root stack_buf fs root_inode k')

  -- `super` is the address of `*fs`; the two pointers of the result are those that are stored in it.
  unfoldable pub ext2_init : List ℕ → ℕ → ℕ → Kernel → Run (ℕ × Kernel)
  ext2_init stack_buf super root_inode k = do
    (ret, d) ← ata_read super 2 2 k.disk
    let fs : Ext2Fs = record { super = super; bgd = 0; tmp = 0 }
    d ← if signature d.memory fs == ext2_signature then ok d else panic
    size ← ext2_block_size d.memory fs
    groups ← divide (total_blocks d.memory fs) (blocks_per_group d.memory fs)
    d ← if ltb (page_size / sizeof group_descriptor) groups then panic else ok d
    d ← if ltb page_size size then panic else ok d
    let (bgd, pages) = kalloc d.sched.pages
    let (tmp, pages) = kalloc pages
    let d : Disk = record d { sched = record d.sched { pages = pages } }
    let fs : Ext2Fs = record { super = super; bgd = bgd; tmp = tmp }
    mount stack_buf fs root_inode (size / 512) groups (record k { disk = d })

  -- The result of `ext2_init` is dropped.
  unfoldable pub init_ext2 : List ℕ → ℕ → ℕ → Kernel → Run Kernel
  init_ext2 stack_buf root_ext2 root_inode k = do
    k ← if not (sizeof superblock == 1024) then panic else ok k
    k ← if not (sizeof group_descriptor == 32) then panic else ok k
    k ← if ltb (sizeof inode_layout) 128 then panic else ok k
    (ret, k) ← ext2_init stack_buf root_ext2 root_inode k
    ok k
