-- ===== src/MemoryMap.antt =====
-- memory_map.c: the report of the memory map that the boot loader hands over. The structures of the
-- multiboot specification stand in a memory of bytes, and their members are found by their offsets.
pub mod Text
mod Examples
use low_flex_programming.Base.{
  ℕ, zero, suc, ◌+◌, List, [], ◌∷◌, ◌++◌, has, leb, if◌then◌else◌, Run, ok, fault, ◌>>=◌, add32,
}
use low_flex_programming.Common.{Memory}
use low_flex_programming.Acpi.{read32}
use low_flex_programming.Paging.{phys2virt}
use low_flex_programming.Terminal.{Terminal}
use low_flex_programming.Printk.{printk}

abbrev pub mbi_flag_mem : ℕ
mbi_flag_mem = 1

abbrev pub mbi_flag_mmap : ℕ
mbi_flag_mmap = 0x40

-- The formats, without their NUL.
abbrev pub title_format : List ℕ
title_format =
    b'M' ∷ b'e' ∷ b'm' ∷ b'o' ∷ b'r' ∷ b'y' ∷ b' ' ∷ b'm' ∷ b'a' ∷ b'p' ∷ b' ' ∷ b'f' ∷ b'r' ∷ b'o'
    ∷ b'm' ∷ b' ' ∷ b'm' ∷ b'u' ∷ b'l' ∷ b't' ∷ b'i' ∷ b'b' ∷ b'o' ∷ b'o' ∷ b't' ∷ b' ' ∷ b'i'
    ∷ b'n' ∷ b'f' ∷ b'o' ∷ b'\n' ∷ []

abbrev pub mem_format : List ℕ
mem_format =
    b'm' ∷ b'e' ∷ b'm' ∷ b'_' ∷ b'l' ∷ b'o' ∷ b'w' ∷ b'e' ∷ b'r' ∷ b' ' ∷ b'=' ∷ b' ' ∷ b'%' ∷ b'x'
    ∷ b',' ∷ b' ' ∷ b'm' ∷ b'e' ∷ b'm' ∷ b'_' ∷ b'u' ∷ b'p' ∷ b'p' ∷ b'e' ∷ b'r' ∷ b' ' ∷ b'='
    ∷ b' ' ∷ b'%' ∷ b'x' ∷ b'\n' ∷ []

abbrev pub entry_format : List ℕ
entry_format =
    b'[' ∷ b'M' ∷ b'M' ∷ b'E' ∷ b']' ∷ b' ' ∷ b'b' ∷ b'a' ∷ b's' ∷ b'e' ∷ b'_' ∷ b'a' ∷ b'd' ∷ b'd'
    ∷ b'r' ∷ b' ' ∷ b'=' ∷ b' ' ∷ b'%' ∷ b'x' ∷ b' ' ∷ b'%' ∷ b'x' ∷ b',' ∷ b' ' ∷ b'l' ∷ b'e'
    ∷ b'n' ∷ b' ' ∷ b'=' ∷ b' ' ∷ b'%' ∷ b'x' ∷ b' ' ∷ b'%' ∷ b'x' ∷ b',' ∷ b' ' ∷ b't' ∷ b'y'
    ∷ b'p' ∷ b'e' ∷ b' ' ∷ b'=' ∷ b' ' ∷ b'%' ∷ b'x' ∷ b'\n' ∷ []

-- The size of an entry. The loop steps by it, whatever the entry's own `size` says.
abbrev pub sizeof_entry : ℕ
sizeof_entry = 24

-- `bytes_at` is the memory as vprintk reads strings from it, and `stack_buf` its uninitialised array.
module _ (bytes_at : ℕ → List ℕ) (stack_buf : List ℕ) where
  unfoldable pub print_entry : Memory → ℕ → Terminal → Run Terminal
  print_entry m entry t =
      printk bytes_at stack_buf (entry_format ++ 0 ∷ [])
        (read32 m (entry + 8)
          ∷ read32 m (entry + 4)
          ∷ read32 m (entry + 16)
          ∷ read32 m (entry + 12)
          ∷ read32 m (entry + 20)
          ∷ [])
        t

  -- The loop over the entries, on fuel. Pointers wrap around.
  unfoldable pub mmap_loop : ℕ → Memory → ℕ → ℕ → Terminal → Run Terminal
  mmap_loop zero m stop entry t = fault
  mmap_loop (suc fuel) m stop entry t =
      let round = print_entry m entry t >>= mmap_loop fuel m stop (add32 entry sizeof_entry) in
      if leb stop entry then ok t else round

  -- An entry has more than a byte, so the length is fuel enough.
  unfoldable pub print_mmap : Memory → ℕ → Terminal → Run Terminal
  print_mmap m mbd t = do
    let mbd = phys2virt mbd
    t ← printk bytes_at stack_buf (title_format ++ 0 ∷ []) [] t
    t ←
        if has (read32 m mbd) mbi_flag_mem
        then printk bytes_at stack_buf (mem_format ++ 0 ∷ [])
            (read32 m (mbd + 4) ∷ read32 m (mbd + 8) ∷ []) t
        else ok t
    let len = read32 m (mbd + 44)
    let mmap_addr = phys2virt (read32 m (mbd + 48))
    if has (read32 m mbd) mbi_flag_mmap
        then mmap_loop (len + 1) m (add32 mmap_addr len) mmap_addr t
        else ok t
