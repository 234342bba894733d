-- ===== src/Ext2/Root.antt =====
-- The listing of the root directory: its inode, and one block of entries after the other.
use low_flex_programming.Base.{
  ℕ, ◌+◌, ◌-◌, ◌*◌, ◌^◌, ◌≤◌, ◌<◌, ◌≡◌, ◌∙◌, List, [], ◌∷◌, ◌++◌, length, arith,
}
use low_flex_programming.Common.{Memory}
use low_flex_programming.Common.Regions.{Same}
use low_flex_programming.Acpi.{read32}
use low_flex_programming.Ata.Image.{Image, HoldsDisk}
use low_flex_programming.Ext2.{Ext2Fs, offset_of, dir_entry_head}
use low_flex_programming.Ext2.Block.{ext2_block_size-Same, read16-Same, read32-Same}
use low_flex_programming.Ext2.Inode.{Mounted}
use low_flex_programming.Ext2.Walk.{DirEntry, TextAt, Chain, listing}

-- The heads and names of the entries lie below `stop`.
abbrev pub Within : ℕ → ℕ → List DirEntry → Type 0
Within stop head [] = Unit
Within stop head (e ∷ es) = (head + 8 + length e.name < stop) × Within stop (head + e.len) es

TextAt-Same :
    (m m' : Memory) (a : ℕ) (text : List ℕ)
    → Same m m' a (length text + 1)
    → TextAt m a text
    → TextAt m' a text
TextAt-Same m m' a [] same h = same a (omega arith) (omega arith) ∙ h
TextAt-Same m m' a (c ∷ text) same h = (
  same a (omega arith) (omega arith) ∙ h.0,
  h.1,
  TextAt-Same m m' (a + 1) text (λ x l g. same x (omega arith) (omega arith)) h.2,
)

-- A block in another memory that holds the same.
pub Chain-Same :
    (m m' : Memory) (base stop head : ℕ) (es : List DirEntry)
    → Same m m' base (stop - base)
    → base ≤ head
    → Within stop head es
    → Chain m stop head es
    → Chain m' stop head es
unfolding offset_of dir_entry_head
Chain-Same m m' base stop head [] same le w h = h
Chain-Same m m' base stop head (e ∷ es) same le w h =
    let inside = w.0 in
    (
      h.0,
      read16-Same m m' (head + 4) (λ x l g. same x (omega arith) (omega arith)) ∙ h.1,
      h.2,
      read32-Same m m' (head + 0) (λ x l g. same x (omega arith) (omega arith)) ∙ h.3,
      h.4,
      TextAt-Same m m' (head + 8) e.name (λ x l g. same x (omega arith) (omega arith)) h.5,
      h.6,
      Chain-Same m m' base stop (head + e.len) es same (omega arith) w.1 h.7,
    )

-- The disk from the byte `o` on, as it is seen at `buf`.
abbrev pub seen : Image → ℕ → ℕ → Memory
seen image o buf a = image (o + a - buf)

-- A block of the directory on the disk: its number and its entries, which do not leave it.
abbrev pub DirBlock : Image → Ext2Fs → ℕ → ℕ → List DirEntry → Type 0
DirBlock image fs sectors block es =
    (sectors * block < 2 ^ 28)
    × Chain (seen image (512 * (sectors * block)) fs.tmp) (fs.tmp + 512 * sectors) fs.tmp es
    × Within (fs.tmp + 512 * sectors) fs.tmp es

-- The direct pointers from the index `i` on name these blocks, and there are no more than 12.
abbrev pub Named : (ℕ → ℕ) → ℕ → Image → Ext2Fs → ℕ → List (ℕ × List DirEntry) → Type 0
Named pointer i image fs sectors [] = Unit
Named pointer i image fs sectors ((block, es) ∷ blocks) =
    (i < 12)
    × (pointer i ≡ block)
    × DirBlock image fs sectors block es
    × Named pointer (i + 1) image fs sectors blocks

abbrev pub listings : List (ℕ × List DirEntry) → List ℕ
listings [] = []
listings ((block, es) ∷ blocks) = listing es ++ listings blocks

-- The pointers of an inode in memory.
abbrev pub pointer_in : Memory → ℕ → ℕ → ℕ
pointer_in m inode i = read32 m (inode + 40 + 4 * i)

-- Pointers that agree.
pub Named-eq :
    (p q : ℕ → ℕ) (i : ℕ) (image : Image) (fs : Ext2Fs) (sectors : ℕ)
    (blocks : List (ℕ × List DirEntry))
    → ((j : ℕ) → j < 12 → q j ≡ p j)
    → Named p i image fs sectors blocks
    → Named q i image fs sectors blocks
Named-eq p q i image fs sectors [] same h = tt
Named-eq p q i image fs sectors ((block, es) ∷ blocks) same h =
    (h.0, same i h.0 ∙ h.1, h.2, Named-eq p q (i + 1) image fs sectors blocks same h.3)

pub Named-Same :
    (m m' : Memory) (inode i : ℕ) (image : Image) (fs : Ext2Fs) (sectors : ℕ)
    (blocks : List (ℕ × List DirEntry))
    → Same m m' inode 128
    → Named (pointer_in m inode) i image fs sectors blocks
    → Named (pointer_in m' inode) i image fs sectors blocks
Named-Same m m' inode i image fs sectors blocks same =
    Named-eq (pointer_in m inode) (pointer_in m' inode) i image fs sectors blocks
      (λ j lt. read32-Same m m' (inode + 40 + 4 * j) (λ x l g. same x (omega arith) (omega arith)))

pub Mounted-Same :
    (m m' : Memory) (fs : Ext2Fs) (sectors : ℕ)
    → Same m m' fs.super 1024
    → Mounted fs sectors m
    → Mounted fs sectors m'
Mounted-Same m m' fs sectors same geo = record {
  size = ext2_block_size-Same m m' fs same ∙ geo.size;
  some_sectors = geo.some_sectors;
  few = geo.few;
  allocated = geo.allocated;
  room = geo.room;
  apart = geo.apart;
}

pub seen-Same :
    (image : Image) (o n buf : ℕ) (m m' : Memory)
    → HoldsDisk image o n buf m m'
    → Same (seen image o buf) m' buf n
seen-Same image o n buf m m' h x low high = ground (arith, h x)
