-- ===== src/Paging.antt =====
-- paging.c, paging.h and defs.h: the allocator of pages and the page tables. The memory is a
-- function from addresses to 32-bit words, used at multiples of 4. The addresses that the linker
-- sets (KERNEL_END, USERSPACE_START) are arguments.
pub mod FreeList
pub mod Translate
pub mod Region
pub mod Mapping
mod Examples
use low_flex_programming.Base.{
  ℕ, zero, suc, ◌+◌, ◌-◌, ◌*◌, ◌/◌, ◌%◌, ◌^◌, bit_and, bit_or, Bool, ◌==◌, ltb, if◌then◌else◌, Run,
  ok, panic, fault, ◌>>=◌, add32, sub32, and_not, has, ◌>>>◌, not,
}
use low_flex_programming.Common.{Memory, write}

abbrev pub page_size : ℕ
page_size = 4096

abbrev pub kernel_high : ℕ
kernel_high = 0xc0000000

abbrev pub pt_present : ℕ
pt_present = 1

abbrev pub pt_writeable : ℕ
pt_writeable = 2

abbrev pub pt_user : ℕ
pt_user = 4

abbrev pub pt_page_size : ℕ
pt_page_size = 128

unfoldable pub pgdir_idx : ℕ → ℕ
pgdir_idx addr = bit_and (addr >>> 22) 1023

unfoldable pub pt_idx : ℕ → ℕ
pt_idx addr = bit_and (addr >>> 12) 1023

unfoldable pub rounddown : ℕ → ℕ
rounddown addr = and_not addr (page_size - 1)

unfoldable pub roundup : ℕ → ℕ
roundup addr = and_not (sub32 (add32 addr page_size) 1) (page_size - 1)

abbrev pub virt2phys : ℕ → ℕ
virt2phys addr = sub32 addr kernel_high

abbrev pub phys2virt : ℕ → ℕ
phys2virt addr = add32 addr kernel_high

-- The static variables `kalloc_head` and `kernel_pgdir`, and the memory.
pub record Pages : Type 0 where
  pub memory : Memory
  pub freelist_head : ℕ
  pub kernel_pgdir : ℕ

-- The two entries of the directory that the kernel starts with, from its address on.
pub setup_paging_early : ℕ → Memory → Memory
setup_paging_early early_pgdir m =
    let flags = bit_or (bit_or pt_present pt_writeable) pt_page_size in
    write (write m early_pgdir flags) (early_pgdir + 4 * pgdir_idx kernel_high) flags

abbrev pub early_end : ℕ
early_end = kernel_high + 4 * 2 ^ 20

-- The loop of `init_kalloc_early`, on fuel.
pub free_loop : ℕ → ℕ → Pages → Run Pages
free_loop zero addr k = fault
free_loop (suc fuel) addr k =
    let rest =
      free_loop fuel (add32 addr page_size)
        (record k { memory = write k.memory addr k.freelist_head; freelist_head = addr }) in
    if ltb addr early_end then rest else ok k

-- There are 1024 pages in 4 MB, and the loop's last test takes a round.
abbrev pub free_fuel : ℕ
free_fuel = 1025

pub init_kalloc_early : ℕ → Pages → Run Pages
unfolding free_loop
init_kalloc_early kernel_end k =
    free_loop free_fuel (roundup kernel_end) (record k { freelist_head = 0 })

-- NULL or the head of the list, whose first word is the next entry.
unfoldable pub kalloc : Pages → ℕ × Pages
kalloc k =
    if k.freelist_head == 0
    then (0, k)
    else (k.freelist_head, record k { freelist_head = k.memory k.freelist_head })

unfoldable pub kfree : Pages → ℕ → Pages
kfree k p = k

-- The loop that clears `rounds` words from `p` on: that of `alloc_page`, and `memset` of a page.
unfoldable pub clear_words : ℕ → ℕ → Memory → Memory
clear_words zero p m = m
clear_words (suc rounds) p m = clear_words rounds (p + 4) (write m p 0)

-- The end of `alloc_page`, once the page table is known.
unfoldable pub enter_table : Pages → ℕ → ℕ → ℕ → ℕ → ℕ × Pages
enter_table k pgdir addr user page_table =
    let flags = if user == 0 then pt_present else bit_or pt_present pt_user in
    (
      page_table + 4 * pt_idx addr,
      record k {
        memory = write k.memory (pgdir + 4 * pgdir_idx addr) (bit_or (virt2phys page_table) flags);
      },
    )

-- The address of the entry for `addr`, or NULL.
unfoldable pub alloc_page : Pages → ℕ → ℕ → ℕ → ℕ × Pages
alloc_page k pgdir addr user =
    let pde = k.memory (pgdir + 4 * pgdir_idx addr) in
    let (page, k') = kalloc k in
    if has pde pt_present
    then enter_table k pgdir addr user (phys2virt (rounddown pde))
    else if page == 0
    then (0, k')
    else enter_table (record k' { memory = clear_words 1024 page k'.memory }) pgdir addr user page

-- `*pte = phys_addr | PT_PRESENT; *pte |= flags;` where a write through NULL is a fault.
unfoldable pub set_entry : Pages → ℕ → ℕ → ℕ → Run Pages
set_entry k pte phys_addr flags =
    if pte == 0
    then fault
    else ok (record k { memory = write k.memory pte (bit_or (bit_or phys_addr pt_present) flags) })

-- The loop of `map_continous`, by the pages that are left.
unfoldable pub map_loop : ℕ → Pages → ℕ → ℕ → ℕ → ℕ → Run Pages
map_loop zero k pgdir addr phys_addr flags = ok k
map_loop (suc pages) k pgdir addr phys_addr flags = do
  let (pte, k') = alloc_page k pgdir addr (bit_and flags pt_user)
  k'' ← set_entry k' pte phys_addr flags
  map_loop pages k'' pgdir (add32 addr page_size) (add32 phys_addr page_size) flags

unfoldable pub map_continous : Pages → ℕ → ℕ → ℕ → ℕ → ℕ → Run Pages
map_continous k pgdir addr size phys_addr flags =
    map_loop (roundup size / page_size) k pgdir (rounddown addr) (rounddown phys_addr) flags

-- The write to the register CR3 behind it is not part of the memory. `memset` of NULL is a fault.
unfoldable pub init_kernel_paging : ℕ → Pages → Run Pages
init_kernel_paging userspace_start k = do
  let (pgdir, k') = kalloc k
  let cleared = record k' { memory = clear_words 1024 pgdir k'.memory; kernel_pgdir = pgdir }
  k₁ ← if pgdir == 0 then fault else ok cleared
  k₂ ← map_continous k₁ pgdir kernel_high (4 * 2 ^ 20) 0 pt_writeable
  map_continous k₂ pgdir userspace_start 4096 (virt2phys userspace_start)
      (bit_or pt_user pt_writeable)

unfoldable pub identity_map : Pages → ℕ → ℕ → Run Pages
identity_map k addr sz = map_continous k k.kernel_pgdir addr sz addr pt_writeable

-- `cs` is the code segment that the interrupt found; a fault of the kernel itself is a panic.
pub pagefault_irq : ℕ → Run (Unit {0})
pagefault_irq cs = if bit_and cs 3 == 3 then ok tt else panic
