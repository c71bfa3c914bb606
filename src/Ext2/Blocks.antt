-- ===== src/Ext2/Blocks.antt =====
-- The blocks of a file, by the direct and the single indirect entries of its inode, and `ext2_read` of
-- src/srv/ext2/main.c against the bytes in them.
use fat.Prelude.{ℕ, ◌+◌, ◌-◌, ◌*◌, ◌/◌, ◌%◌, ◌^◌, ◌<◌, ◌≢◌, ◌==◌, ltb, if◌then◌else◌, little_endian}
use fat.Ext2.{SuperBlock, Inode}

-- The number of the block `n` of a file: that of its entry, or from the table of numbers, of 4 bytes each, in
-- the block of the entry 12. A number 0 is no block.
abbrev pub file_block : SuperBlock → (ℕ → ℕ) → Inode → ℕ → ℕ
file_block sb disk inode n =
    if ltb n 12
    then inode.i_block n
    else if inode.i_block 12 == 0
    then 0
    else little_endian 4 (inode.i_block 12 * sb.block_size + 4 * (n - 12)) disk

-- The byte `k` of a file on the disk.
abbrev pub content : SuperBlock → (ℕ → ℕ) → Inode → ℕ → ℕ
content sb disk inode k =
    disk (file_block sb disk inode (k / sb.block_size) * sb.block_size + k % sb.block_size)

-- The blocks that begin before the position `end` are there, and are direct or in the single indirect one.
unfoldable pub InReach : SuperBlock → (ℕ → ℕ) → Inode → ℕ → Type 0
InReach sb disk inode end =
    (b : ℕ)
    → b * sb.block_size < end
    → (b < 12 + sb.block_size / 4)
      × (file_block sb disk inode b ≢ 0)
      × (file_block sb disk inode b * sb.block_size < 2 ^ 64)
