-- ===== src/Ext2/Layout.antt =====
-- The structures of ext2.c, by their members.
use low_flex_programming.Base.{ℕ, zero, suc, ◌+◌, List, [], ◌∷◌}

-- The members of a packed structure by their widths in bytes, in order.
abbrev pub Layout : Type 0
Layout = List ℕ

unfoldable pub sizeof : Layout → ℕ
sizeof [] = 0
sizeof (width ∷ members) = width + sizeof members

-- The place of the member with this index.
unfoldable pub offset_of : Layout → ℕ → ℕ
offset_of [] member = 0
offset_of (width ∷ members) zero = 0
offset_of (width ∷ members) (suc member) = width + offset_of members member

-- From first_inode to unused1.
unfoldable pub extended_superblock : Layout
extended_superblock =
    4 ∷ 2 ∷ 2 ∷ 4 ∷ 4 ∷ 4 ∷ 16 ∷ 16 ∷ 64 ∷ 4 ∷ 1 ∷ 1 ∷ 2 ∷ 16 ∷ 4 ∷ 4 ∷ 4 ∷ 788 ∷ []

-- From total_inodes to root_gid, and the extension.
unfoldable pub superblock : Layout
superblock =
    4 ∷ 4 ∷ 4 ∷ 4 ∷ 4 ∷ 4 ∷ 4 ∷ 4 ∷ 4 ∷ 4 ∷ 4 ∷ 4 ∷ 4 ∷ 2 ∷ 2 ∷ 2 ∷ 2 ∷ 2 ∷ 2 ∷ 4 ∷ 4 ∷ 4 ∷ 4 ∷ 2
    ∷ 2 ∷ extended_superblock

-- From mode to os_specific2; every member lies at a multiple of its width, so that there is no gap.
unfoldable pub inode_layout : Layout
inode_layout =
    2 ∷ 2 ∷ 4 ∷ 4 ∷ 4 ∷ 4 ∷ 4 ∷ 2 ∷ 2 ∷ 4 ∷ 4 ∷ 4 ∷ 48 ∷ 4 ∷ 4 ∷ 4 ∷ 4 ∷ 4 ∷ 4 ∷ 4 ∷ 12 ∷ []

-- From block_bitmap to unused.
unfoldable pub group_descriptor : Layout
group_descriptor = 4 ∷ 4 ∷ 4 ∷ 2 ∷ 2 ∷ 2 ∷ 14 ∷ []

-- From inode to the name, which has no width of its own.
unfoldable pub dir_entry_head : Layout
dir_entry_head = 4 ∷ 2 ∷ 1 ∷ 1 ∷ 0 ∷ []
