-- ===== src/MemoryMap/Text.antt =====
-- The text of the report.
use low_flex_programming.Base.{
  ℕ, zero, suc, ◌+◌, ◌*◌, ◌^◌, ◌<◌, ◌≡◌, refl, ap, ◌∙◌, sym, List, [], ◌∷◌, ◌++◌, length, Bool,
  true, false, has, leb, add32, if◌then◌else◌, Option, none, Run, ok, arith,
}
use low_flex_programming.Common.{Memory}
use low_flex_programming.Acpi.{read32}
use low_flex_programming.Paging.{phys2virt}
use low_flex_programming.Terminal.{Terminal}
use low_flex_programming.Terminal.Print.{print_all, print_all-append}
use low_flex_programming.Printk.{vprintk, printk_buf_size, color}
use low_flex_programming.Printk.Numeral.{numeral}
use low_flex_programming.Printk.Format.{render, directive_text}
use low_flex_programming.Printk.Vprintk.{vprintk_lem}
use low_flex_programming.MemoryMap.{
  mbi_flag_mem, mbi_flag_mmap, title_format, mem_format, entry_format, print_entry, mmap_loop,
  print_mmap,
}

-- A memory of bytes.
abbrev pub AreBytes : Memory → Type 0
AreBytes m = (a : ℕ) → m a < 256

read32-bound : (m : Memory) (a : ℕ) → AreBytes m → read32 m a < 2 ^ 32
unfolding read32
read32-bound m a bytes = omega (arith, bytes a, bytes (a + 1), bytes (a + 2), bytes (a + 3))

-- The line with the two amounts of memory.
abbrev pub mem_text : Memory → ℕ → List ℕ
mem_text m mbd =
    b'm'
    ∷ b'e'
    ∷ b'm'
    ∷ b'_'
    ∷ b'l'
    ∷ b'o'
    ∷ b'w'
    ∷ b'e'
    ∷ b'r'
    ∷ b' '
    ∷ b'='
    ∷ b' '
    ∷ (numeral 16 (read32 m (mbd + 4))
        ++ (b','
            ∷ b' '
            ∷ b'm'
            ∷ b'e'
            ∷ b'm'
            ∷ b'_'
            ∷ b'u'
            ∷ b'p'
            ∷ b'p'
            ∷ b'e'
            ∷ b'r'
            ∷ b' '
            ∷ b'='
            ∷ b' '
            ∷ (numeral 16 (read32 m (mbd + 8)) ++ (b'\n' ∷ []))))

-- The line of the entry at an address.
abbrev pub entry_text : Memory → ℕ → List ℕ
entry_text m entry =
    b'['
    ∷ b'M'
    ∷ b'M'
    ∷ b'E'
    ∷ b']'
    ∷ b' '
    ∷ b'b'
    ∷ b'a'
    ∷ b's'
    ∷ b'e'
    ∷ b'_'
    ∷ b'a'
    ∷ b'd'
    ∷ b'd'
    ∷ b'r'
    ∷ b' '
    ∷ b'='
    ∷ b' '
    ∷ (numeral 16 (read32 m (entry + 8))
        ++ (b' '
            ∷ (numeral 16 (read32 m (entry + 4))
                ++ (b','
                    ∷ b' '
                    ∷ b'l'
                    ∷ b'e'
                    ∷ b'n'
                    ∷ b' '
                    ∷ b'='
                    ∷ b' '
                    ∷ (numeral 16 (read32 m (entry + 16))
                        ++ (b' '
                            ∷ (numeral 16 (read32 m (entry + 12))
                                ++ (b','
                                    ∷ b' '
                                    ∷ b't'
                                    ∷ b'y'
                                    ∷ b'p'
                                    ∷ b'e'
                                    ∷ b' '
                                    ∷ b'='
                                    ∷ b' '
                                    ∷ (numeral 16 (read32 m (entry + 20)) ++ (b'\n' ∷ []))))))))))

-- The lines of `n` entries.
abbrev pub entries_text : Memory → ℕ → ℕ → List ℕ
entries_text m entry zero = []
entries_text m entry (suc n) = entry_text m entry ++ entries_text m (entry + 24) n

abbrev pub report : Memory → ℕ → ℕ → List ℕ
report m mbd n =
    title_format
    ++ (if has (read32 m mbd) mbi_flag_mem then mem_text m mbd else [])
    ++ (if has (read32 m mbd) mbi_flag_mmap
        then entries_text m (phys2virt (read32 m (mbd + 48))) n
        else [])

-- None of the formats takes a string.
abbrev no_text : ℕ → Option (List ℕ)
no_text p = none

module _ (bytes_at : ℕ → List ℕ) (stack_buf : List ℕ)
    (size : length stack_buf ≡ printk_buf_size) where
  entry-text :
      (m : Memory) (entry : ℕ) (t : Terminal)
      → AreBytes m
      → print_entry bytes_at stack_buf m entry t ≡ ok (print_all t (entry_text m entry) color)
  unfolding print_entry render directive_text
  entry-text m entry t bytes =
      vprintk_lem bytes_at no_text (λ p text e. absurd (cc)) stack_buf entry_format [] _
        (entry_text m entry) t size (omega arith)
        (
          read32-bound m (entry + 8) bytes,
          (
            read32-bound m (entry + 4) bytes,
            (
              read32-bound m (entry + 16) bytes,
              (read32-bound m (entry + 12) bytes, (read32-bound m (entry + 20) bytes, tt)),
            ),
          ),
        )
        refl

  loop-text :
      (fuel n : ℕ) (m : Memory) (stop entry : ℕ) (t : Terminal)
      → AreBytes m
      → stop ≡ entry + 24 * n
      → entry + 24 * n < 2 ^ 32
      → n < fuel
      → mmap_loop bytes_at stack_buf fuel m stop entry t
        ≡ ok (print_all t (entries_text m entry n) color)
  unfolding mmap_loop print_all
  loop-text zero n m stop entry t bytes e room lt = absurd (omega arith)
  loop-text (suc fuel) zero m stop entry t bytes e room lt =
      let done : leb stop entry ≡ true = ground arith in rw done refl
  loop-text (suc fuel) (suc n) m stop entry t bytes e room lt =
      let more : leb stop entry ≡ false = ground arith in
      let next : add32 entry 24 ≡ entry + 24 = omega arith in
      rw (more, entry-text m entry t bytes, next)
        (loop-text fuel n m stop (entry + 24) (print_all t (entry_text m entry) color) bytes
            (omega arith) (omega arith) (omega arith)
          ∙ ap ok
              (sym (print_all-append t (entry_text m entry) (entries_text m (entry + 24) n) color)))

  title-text :
      (t : Terminal)
      → vprintk bytes_at stack_buf (title_format ++ 0 ∷ []) [] t
        ≡ ok (print_all t title_format color)
  unfolding render directive_text
  title-text t =
      vprintk_lem bytes_at no_text (λ p text e. absurd (cc)) stack_buf title_format [] []
        title_format t size (omega arith) tt refl

  mem-text :
      (m : Memory) (mbd : ℕ) (t : Terminal)
      → AreBytes m
      → vprintk bytes_at stack_buf
          (mem_format ++ 0 ∷ [])
          (read32 m (mbd + 4) ∷ read32 m (mbd + 8) ∷ [])
          t
        ≡ ok (print_all t (mem_text m mbd) color)
  unfolding render directive_text
  mem-text m mbd t bytes =
      vprintk_lem bytes_at no_text (λ p text e. absurd (cc)) stack_buf mem_format [] _
        (mem_text m mbd) t size (omega arith)
        (read32-bound m (mbd + 4) bytes, (read32-bound m (mbd + 8) bytes, tt)) refl

  -- A part of the report that a flag may leave out.
  optional :
      (flag : Bool) (r : Run Terminal) (text : List ℕ) (t : Terminal)
      → r ≡ ok (print_all t text color)
      → (if flag then r else ok t) ≡ ok (print_all t (if flag then text else []) color)
  unfolding print_all
  optional true r text t e = e
  optional false r text t e = refl

  -- In a memory of bytes, with a map whose length is that of `n` entries and that does not wrap around: `print_mmap` returns, and has
  -- printed the title, the amounts of memory if the flags say that they are there, and a line for each of
  -- the entries, in order, if the flags say that there is a map.
  pub print_mmap-report :
      (m : Memory) (mbd n : ℕ) (t : Terminal)
      → AreBytes m
      → read32 m (phys2virt mbd + 44) ≡ 24 * n
      → phys2virt (read32 m (phys2virt mbd + 48)) + 24 * n < 2 ^ 32
      → print_mmap bytes_at stack_buf m mbd t ≡ ok (print_all t (report m (phys2virt mbd) n) color)
  unfolding print_mmap
  print_mmap-report m mbd n t bytes len room =
      let at = phys2virt mbd in
      let mem = if has (read32 m at) mbi_flag_mem then mem_text m at else [] in
      let start = phys2virt (read32 m (at + 48)) in
      let entries = if has (read32 m at) mbi_flag_mmap then entries_text m start n else [] in
      let t1 = print_all t title_format color in
      let t2 = print_all t1 mem color in
      let second =
        optional (has (read32 m at) mbi_flag_mem) _ (mem_text m at) t1 (mem-text m at t1 bytes) in
      let third =
        optional (has (read32 m at) mbi_flag_mmap) _ (entries_text m start n) t2
          (loop-text (24 * n + 1) n m (start + 24 * n) start t2 bytes refl room (omega arith)) in
      let stop : add32 start (24 * n) ≡ start + 24 * n = omega arith in
      rw (title-text t, second, len, stop, third)
        (ap ok (
          sym (
            print_all-append t title_format (mem ++ entries) color
            ∙ print_all-append t1 mem entries color)))
