-- ===== src/Ext2/Walk.antt =====
-- The listing of a block of the directory.
use low_flex_programming.Base.{
  ℕ, zero, suc, ◌+◌, ◌-◌, ◌^◌, ◌≤◌, ◌<◌, ◌≡◌, ◌≢◌, refl, ap, ◌∙◌, sym, List, [], ◌∷◌, ◌++◌, length,
  Bool-cases, inl, inr, leb, true, false, ◌==◌, if◌then◌else◌, Option, none, some, ok, fault, arith,
  subst, eq→==, ==→eq,
}
use low_flex_programming.Common.{Memory}
use low_flex_programming.Common.Copy.{IsText}
use low_flex_programming.Terminal.Print.{print_all, print_all-append}
use low_flex_programming.Printk.{printk_buf_size, color}
use low_flex_programming.Printk.Number.{signed_numeral}
use low_flex_programming.Printk.Format.{render, directive_text}
use low_flex_programming.Printk.Directive.{Strings}
use low_flex_programming.Printk.Vprintk.{vprintk_lem}
use low_flex_programming.Syscall.{Kernel}
use low_flex_programming.Ext2.{
  Ext2Fs, ext2_block_size, bytes_from, printk, entry_inode, rec_len, entry_name, print_entry,
  walk_loop, offset_of, dir_entry_head,
}

-- An entry of a directory.
pub record DirEntry : Type 0 where
  pub name : List ℕ
  pub inode : ℕ
  pub len : ℕ

-- The memory holds the text and a NUL behind it.
abbrev pub TextAt : Memory → ℕ → List ℕ → Type 0
TextAt m a [] = m a ≡ 0
TextAt m a (c ∷ text) = (m a ≡ c) × (c ≢ 0) × TextAt m (a + 1) text

-- The memory from `head` up to `stop` holds these entries: none of them without a length, each with a
-- name that a NUL ends.
abbrev pub Chain : Memory → ℕ → ℕ → List DirEntry → Type 0
Chain m stop head [] = stop ≤ head
Chain m stop head (e ∷ es) =
    (head < stop)
    × (rec_len m head ≡ e.len)
    × (0 < e.len)
    × (entry_inode m head ≡ e.inode)
    × (e.inode < 2 ^ 32)
    × TextAt m (entry_name head) e.name
    × (length e.name < 4096)
    × Chain m stop (head + e.len) es

-- The line of an entry; the number of its inode is printed as an `int`.
abbrev pub line : DirEntry → List ℕ
line e =
    b' ' ∷ b'*' ∷ b' ' ∷ b'e' ∷ b'n' ∷ b't' ∷ b'r' ∷ b'y' ∷ b' ' ∷ b'n' ∷ b'a' ∷ b'm' ∷ b'e' ∷ b'='
      ∷ b'\'' ∷ e.name
    ++ b'\''
      ∷ b','
      ∷ b' '
      ∷ b'i'
      ∷ b'n'
      ∷ b'o'
      ∷ b'd'
      ∷ b'e'
      ∷ b'='
      ∷ (signed_numeral 10 e.inode ++ b'\n' ∷ [])

abbrev pub listing : List DirEntry → List ℕ
listing [] = []
listing (e ∷ es) = line e ++ listing es

bytes_from-IsText :
    (fuel : ℕ) (m : Memory) (a : ℕ) (text : List ℕ)
    → TextAt m a text
    → length text < fuel
    → (after : List ℕ) × (bytes_from fuel m a ≡ text ++ 0 ∷ after) × IsText text
unfolding bytes_from
bytes_from-IsText zero m a text h lt = absurd (omega arith)
bytes_from-IsText (suc fuel) m a [] h lt =
    (bytes_from fuel m (a + 1), ap (λ c. c ∷ bytes_from fuel m (a + 1)) h, tt)
bytes_from-IsText (suc fuel) m a (c ∷ text) h lt =
    let (after, rest, is_text) = bytes_from-IsText fuel m (a + 1) text h.2 (omega arith) in
    (after, rw (h.0, rest) refl, (h.1, is_text))

-- The one string that a line takes from the memory.
abbrev at_name : ℕ → List ℕ → ℕ → Option (List ℕ)
at_name a name p = if p == a then some name else none

at_name-Strings :
    (m : Memory) (a : ℕ) (name : List ℕ)
    → TextAt m a name
    → length name < 4096
    → Strings (bytes_from 4096 m) (at_name a name)
at_name-Strings m a name h lt p text e = elim (Bool-cases (p == a)) [
  | inl here ↦
      let same : name ≡ text = ground (arith, e, here) in
      let base = bytes_from-IsText 4096 m a name h lt in
      subst (Stands p) same (subst (λ x. Stands x name) (sym (==→eq p a here)) base)
  | inr away ↦ absurd (ground (arith, e, away))
]
  where
    Stands : ℕ → List ℕ → Type 0
    Stands x t = (after : List ℕ) × (bytes_from 4096 m x ≡ t ++ 0 ∷ after) × IsText t

-- The text that the code's format stands for.
render-line :
    (a inode len : ℕ) (name : List ℕ)
    → render
        (at_name a name)
        true
        (b' ' ∷ b'*' ∷ b' ' ∷ b'e' ∷ b'n' ∷ b't' ∷ b'r' ∷ b'y' ∷ b' ' ∷ b'n' ∷ b'a' ∷ b'm' ∷ b'e'
          ∷ b'=' ∷ b'\'' ∷ b'%' ∷ b's' ∷ b'\'' ∷ b',' ∷ b' ' ∷ b'i' ∷ b'n' ∷ b'o' ∷ b'd' ∷ b'e'
          ∷ b'=' ∷ b'%' ∷ b'd' ∷ b'\n' ∷ [])
        (a ∷ inode ∷ [])
      ≡ some (line (record { name = name; inode = inode; len = len }))
unfolding render directive_text
render-line a inode len name = rw (eq→== a a refl) refl

-- The kernel with this text on its screen.
abbrev pub shows : Kernel → List ℕ → Kernel
shows k text = record k { terminal = print_all k.terminal text color }

-- An entry whose name is a string is printed.
pub print_entry-prints :
    (stack_buf : List ℕ) (head inode len : ℕ) (name : List ℕ) (k : Kernel)
    → length stack_buf ≡ printk_buf_size
    → head + 8 < 2 ^ 32
    → entry_inode k.disk.memory head ≡ inode
    → inode < 2 ^ 32
    → TextAt k.disk.memory (entry_name head) name
    → length name < 4096
    → print_entry stack_buf head k
      ≡ ok (shows k (line (record { name = name; inode = inode; len = len })))
unfolding print_entry printk offset_of dir_entry_head
print_entry-prints stack_buf head inode len name k size room there word text short =
    let a = entry_name head in
    let run =
      vprintk_lem (bytes_from 4096 k.disk.memory) (at_name a name)
        (at_name-Strings k.disk.memory a name text short) stack_buf _ [] (a ∷ inode ∷ [])
        (line (record { name = name; inode = inode; len = len })) k.terminal size (omega arith)
        (omega arith, (word, tt)) (render-line a inode len name) in
    rw (there, run) refl

print_entry-line :
    (stack_buf : List ℕ) (head stop : ℕ) (e : DirEntry) (es : List DirEntry) (k : Kernel)
    → length stack_buf ≡ printk_buf_size
    → stop + 8 ≤ 2 ^ 32
    → Chain k.disk.memory stop head (e ∷ es)
    → print_entry stack_buf head k ≡ ok (shows k (line e))
print_entry-line stack_buf head stop e es k size room h =
    print_entry-prints stack_buf head e.inode e.len e.name k size (omega (arith, h.0)) h.3 h.4 h.5
      h.6

-- The fuel of the loop is enough.
pub length-Chain :
    (m : Memory) (stop head : ℕ) (es : List DirEntry)
    → Chain m stop head es
    → length es ≤ stop - head
length-Chain m stop head [] h = omega arith
length-Chain m stop head (e ∷ es) h =
    omega (arith, h.0, h.2, length-Chain m stop (head + e.len) es h.7)

-- A block that holds well-formed entries is listed to its end, with a line for each entry, in the
-- order of the block; nothing but the screen changes.
pub walk_loop-listing :
    (stack_buf : List ℕ) (fs : Ext2Fs) (size fuel head : ℕ) (es : List DirEntry) (k : Kernel)
    → length stack_buf ≡ printk_buf_size
    → ext2_block_size k.disk.memory fs ≡ ok size
    → fs.tmp + size + 8 ≤ 2 ^ 32
    → length es < fuel
    → Chain k.disk.memory (fs.tmp + size) head es
    → walk_loop stack_buf fs fuel head k ≡ ok (shows k (listing es))
unfolding walk_loop print_all
walk_loop-listing stack_buf fs size zero head [] k buf block room enough h = absurd (omega arith)
walk_loop-listing stack_buf fs size (suc fuel) head [] k buf block room enough h =
    let done : leb (fs.tmp + size) head ≡ true = ground arith in rw (block, done) refl
walk_loop-listing stack_buf fs size zero head (e ∷ es) k buf block room enough h =
    absurd (omega arith)
walk_loop-listing stack_buf fs size (suc fuel) head (e ∷ es) k buf block room enough h =
    let more : leb (fs.tmp + size) head ≡ false = ground (arith, h.0) in
    let next = shows k (line e) in
    rw (block, more, print_entry-line stack_buf head (fs.tmp + size) e es k buf room h, h.1)
      (walk_loop-listing stack_buf fs size fuel (head + e.len) es next buf block room (omega arith)
          h.7
        ∙ ap (λ t. ok (record k { terminal = t }))
            (sym (print_all-append k.terminal (line e) (listing es) color)))

-- An entry without a length, in a block and with a name that is a string, makes the listing endless: no
-- number of rounds is enough for it to end.
pub walk_loop-endless :
    (fuel : ℕ) (stack_buf : List ℕ) (fs : Ext2Fs) (size head inode : ℕ) (name : List ℕ) (k : Kernel)
    → length stack_buf ≡ printk_buf_size
    → ext2_block_size k.disk.memory fs ≡ ok size
    → fs.tmp + size + 8 ≤ 2 ^ 32
    → head < fs.tmp + size
    → rec_len k.disk.memory head ≡ 0
    → entry_inode k.disk.memory head ≡ inode
    → inode < 2 ^ 32
    → TextAt k.disk.memory (entry_name head) name
    → length name < 4096
    → walk_loop stack_buf fs fuel head k ≡ fault
unfolding walk_loop
walk_loop-endless zero stack_buf fs size head inode name k buf block room inside none_left there
      word text short =
    refl
walk_loop-endless (suc fuel) stack_buf fs size head inode name k buf block room inside none_left
      there word text short =
    let more : leb (fs.tmp + size) head ≡ false = ground arith in
    let next = shows k (line (record { name = name; inode = inode; len = 0 })) in
    let stays : head + 0 ≡ head = omega arith in
    rw
      (
        block,
        more,
        print_entry-prints stack_buf head inode 0 name k buf (omega arith) there word text short,
        none_left,
        stays,
      )
      (walk_loop-endless fuel stack_buf fs size head inode name next buf block room inside none_left
        there word text short)
