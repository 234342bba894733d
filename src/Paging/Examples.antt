-- ===== src/Paging/Examples.antt =====
-- The allocator of pages on a small free region.
use low_flex_programming.Base.{ℕ, ◌+◌, ◌-◌, ◌*◌, ◌≤◌, ◌<◌, ◌≡◌, refl, [], ◌∷◌, ok, arith, some}
use low_flex_programming.Common.{write}
use low_flex_programming.Paging.{
  Pages, init_kalloc_early, roundup, rounddown, early_end, map_continous, pt_idx, pgdir_idx,
}
use low_flex_programming.Paging.FreeList.{Free, pushed, early_pages, init_kalloc_early-Free}
use low_flex_programming.Paging.Translate.{pde_slot, translate}
use low_flex_programming.Paging.Region.{IsTableFor, Framed}
use low_flex_programming.Paging.Mapping.{page_count, map_continous-translate, map_continous-fresh}

abbrev boot : Pages
boot = record { memory = λ a. 7; freelist_head = 5; kernel_pgdir = 0 }

-- A kernel that leaves two whole pages.
abbrev kernel_end : ℕ
kernel_end = early_end - 8292

init_kalloc_early-Free_example :
    (k' : Pages) × (init_kalloc_early kernel_end boot ≡ ok k')
    × Free k'.memory k'.freelist_head (pushed (early_pages kernel_end) (roundup kernel_end) [])
init_kalloc_early-Free_example = init_kalloc_early-Free kernel_end boot (omega arith) (omega arith)

two_pages : pushed (early_pages kernel_end) (roundup kernel_end) [] ≡ 0xc03ff000 ∷ 0xc03fe000 ∷ []
unfolding roundup
two_pages = refl

-- A directory of zeros at 0xc0002000, and the page 0xc0003000 on the free list.
abbrev empty : Pages
empty = record { memory = λ a. 0; freelist_head = 0xc0003000; kernel_pgdir = 0xc0002000 }

empty_table : IsTableFor 0xc0002000 0xfee00000 0xc0003000
unfolding pgdir_idx
empty_table = (λ e. absurd (omega arith), refl, omega arith, λ i lt e. absurd (omega arith))

-- Two pages of the device's registers.
map_continous-fresh_example :
    (k' : Pages) × (map_continous empty 0xc0002000 0xfee00000 0x1001 0xfee00000 2 ≡ ok k')
    × ((a : ℕ)
        → 0xfee00000 ≤ a
        → a < 0xfee00000 + 0x1001
        → translate k'.memory 0xc0002000 a ≡ some (0xfee00000 + (a - 0xfee00000)))
unfolding pt_idx roundup
map_continous-fresh_example =
    map_continous-fresh empty 0xc0002000 0xfee00000 0x1001 0xfee00000 2 empty_table refl refl refl
      (omega arith) (omega arith) (omega arith) (omega arith) (omega arith) (omega arith) refl

-- The same directory, with that page as the page table of the entry.
abbrev entered_once : Pages
entered_once = record empty { memory = write (λ a. 0) (0xc0002000 + 4 * 1019) (0x3000 + 1) }

map_continous-translate_example :
    (k' : Pages) × (map_continous entered_once 0xc0002000 0xfee00000 4096 0xfee00000 2 ≡ ok k')
    × ((a : ℕ)
        → 0xfee00000 ≤ a
        → a < 0xfee00000 + 4096
        → translate k'.memory 0xc0002000 a ≡ some (0xfee00000 + (a - 0xfee00000)))
    × Framed 0xc0002000 0xc0003000 2 entered_once.memory k'.memory
        (pde_slot 0xc0002000 0xfee00000)
        (pt_idx 0xfee00000)
        (page_count 4096)
unfolding pt_idx pgdir_idx roundup rounddown write
map_continous-translate_example =
    map_continous-translate entered_once 0xc0002000 0xc0003000 0xfee00000 4096 0xfee00000 2
      empty_table (refl, refl, refl) refl refl (omega arith) (omega arith) (omega arith)
      (omega arith) (omega arith) refl
