-- ===== src/Paging/FreeList.antt =====
-- The free list: a chain of pages through their first words.
use low_flex_programming.Base.{
  ℕ, zero, suc, ◌+◌, ◌-◌, ◌*◌, ◌/◌, ◌%◌, ◌^◌, ◌≤◌, ◌<◌, ◌≡◌, ◌≢◌, refl, List, [], ◌∷◌, true, false,
  ◌==◌, ltb, ok, add32, sub32, arith, ap, ne→==, eq→==, subst, sym, ◌∙◌,
}
use low_flex_programming.Base.Bits.{bit_and-high}
use low_flex_programming.Common.{Memory, write}
use low_flex_programming.Paging.{
  Pages, kalloc, free_loop, free_fuel, init_kalloc_early, early_end, kernel_high, page_size,
  roundup,
}

-- The pages of the list from `head` on are `pages`, in this order.
abbrev pub Free : Memory → ℕ → List ℕ → Type 0
Free m head [] = head ≡ 0
Free m head (p ∷ pages) = (head ≡ p) × (p ≢ 0) × Free m (m p) pages

-- Every element is below `bound`.
abbrev pub Below : ℕ → List ℕ → Type 0
Below bound [] = Unit
Below bound (p ∷ pages) = (p < bound) × Below bound pages

Below-mono : (a b : ℕ) (pages : List ℕ) → a ≤ b → Below a pages → Below b pages
Below-mono a b [] le h = tt
Below-mono a b (p ∷ pages) le h = (omega (arith, h.0), Below-mono a b pages le h.1)

write_self : (m : Memory) (a v : ℕ) → write m a v a ≡ v
unfolding write
write_self m a v = rw (eq→== a a refl)

-- A write above the pages of the list leaves it as it is.
Free-write :
    (m : Memory) (a v head : ℕ) (pages : List ℕ)
    → Below a pages
    → Free m head pages
    → Free (write m a v) head pages
unfolding write
Free-write m a v head [] b h = h
Free-write m a v head (p ∷ pages) b h =
    let low : (p == a) ≡ false = ne→== p a (omega (arith, b.0)) in
    (h.0, h.1, rw low (Free-write m a v (m p) pages b.1 h.2))

-- `kalloc` takes the first page off the list.
pub kalloc-Free :
    (k : Pages) (p : ℕ) (pages : List ℕ)
    → Free k.memory k.freelist_head (p ∷ pages)
    → (k' : Pages) × (kalloc k ≡ (p, k'))
      × Free k'.memory k'.freelist_head pages
      × (k'.memory ≡ k.memory)
unfolding kalloc
kalloc-Free k p pages h =
    let ne : (k.freelist_head == 0) ≡ false =
      ne→== k.freelist_head 0 (λ e. h.1 (omega (arith, h.0))) in
    (
      record k { freelist_head = k.memory k.freelist_head },
      rw ne (ap (λ a. (a, record k { freelist_head = k.memory k.freelist_head })) h.0),
      subst (λ a. Free k.memory (k.memory a) pages) (sym h.0) h.2,
      refl,
    )

-- The list once the pages from `addr` on, `n` of them, have been put in front of `pages`.
abbrev pub pushed : ℕ → ℕ → List ℕ → List ℕ
pushed zero addr pages = pages
pushed (suc n) addr pages = pushed n (addr + page_size) (addr ∷ pages)

-- `n` rounds reach the end of the first 4 MB.
free_loop-Free :
    (n fuel addr head kp : ℕ) (m : Memory) (pages : List ℕ)
    → addr + n * page_size ≡ early_end
    → 0 < addr
    → n < fuel
    → Below addr pages
    → Free m head pages
    → (m' : Memory) × (h' : ℕ) × (free_loop fuel addr
          (record { memory = m; freelist_head = head; kernel_pgdir = kp })
        ≡ ok (record { memory = m'; freelist_head = h'; kernel_pgdir = kp }))
      × Free m' h' (pushed n addr pages)
unfolding free_loop
free_loop-Free n zero addr head kp m pages e pos lt b h = absurd (omega arith)
free_loop-Free zero (suc fuel) addr head kp m pages e pos lt b h =
    let stop : ltb addr early_end ≡ false = ground arith in (m, head, rw stop refl, h)
free_loop-Free (suc n) (suc fuel) addr head kp m pages e pos lt b h =
    let go : ltb addr early_end ≡ true = ground arith in
    let next : add32 addr page_size ≡ addr + page_size = ground arith in
    let (m', h', run, free) =
      free_loop-Free n fuel (addr + page_size) addr kp (write m addr head) (addr ∷ pages)
        (omega arith) (omega arith) (omega arith)
        (omega arith, Below-mono addr (addr + page_size) pages (omega arith) b)
        (
          refl,
          (λ z. absurd (omega arith)),
          subst (λ a. Free (write m addr head) a pages) (sym (write_self m addr head))
              (Free-write m addr head head pages b h),
        ) in
    (m', h', step go next ∙ run, free)
  where
    before : Pages
    before = record { memory = m; freelist_head = head; kernel_pgdir = kp }

    after : Pages
    after = record { memory = write m addr head; freelist_head = addr; kernel_pgdir = kp }

    step :
        ltb addr early_end ≡ true
        → add32 addr page_size ≡ addr + page_size
        → free_loop (suc fuel) addr before ≡ free_loop fuel (addr + page_size) after
    step go next = rw (go, next) refl

-- The pages between the kernel's end and the end of the first 4 MB.
abbrev pub early_pages : ℕ → ℕ
early_pages kernel_end = (early_end - roundup kernel_end) / page_size

-- Without an overflow, `ROUNDUP` is the next multiple of a page.
pub roundup_lem :
    (a : ℕ) → a + page_size ≤ 2 ^ 32 → roundup a ≡ (a + page_size - 1) - (a + page_size - 1) % 4096
unfolding roundup
roundup_lem a h =
    let e : sub32 (add32 a page_size) 1 ≡ a + page_size - 1 = omega arith in
    rw e (bit_and-high 12 32 (a + page_size - 1) (omega arith) (omega arith))

-- For a kernel that ends within its first 4 MB, `init_kalloc_early` returns, and every page between
-- the kernel's end and the end of those 4 MB is on the free list, the last page first.
pub init_kalloc_early-Free :
    (kernel_end : ℕ) (k : Pages)
    → kernel_high ≤ kernel_end
    → kernel_end ≤ early_end
    → (k' : Pages) × (init_kalloc_early kernel_end k ≡ ok k')
      × Free k'.memory k'.freelist_head (pushed (early_pages kernel_end) (roundup kernel_end) [])
unfolding init_kalloc_early
init_kalloc_early-Free kernel_end k low high =
    let r = roundup_lem kernel_end (omega arith) in
    let (m', h', run, free) =
      free_loop-Free (early_pages kernel_end) free_fuel (roundup kernel_end) 0 k.kernel_pgdir
        k.memory [] (omega arith) (omega arith) (omega arith) tt refl in
    (record { memory = m'; freelist_head = h'; kernel_pgdir = k.kernel_pgdir }, run, free)
