-- ===== src/Ext2.antt =====
-- src/srv/ext2/main.c and cache.c: the file system. The disk is a function from a position in the partition
-- to its byte, and reads of it succeed. The inodes that were read are kept in a map by their number. The
-- pool of block buffers is left out: a block that is read is a function from an offset to its byte. Sums
-- of positions are exact.
pub mod File
pub mod Blocks
pub mod Alloc
pub mod Directory
mod Examples
use fat.Prelude.{
  ℕ, zero, suc, ◌+◌, ◌-◌, ◌*◌, ◌/◌, ◌%◌, ◌^◌, Bool, true, false, Option, none, some, List, [], ◌∷◌,
  ◌==◌, ltb, leb, if◌then◌else◌, ◌&&◌, ◌||◌, little_endian,
}

pub record GroupDesc : Type 0 where
  pub bg_block_bitmap : ℕ
  pub bg_inode_bitmap : ℕ
  pub bg_inode_table : ℕ

pub record SuperBlock : Type 0 where
  pub block_size : ℕ
  pub s_inodes_per_group : ℕ
  pub s_inode_size : ℕ
  pub nr_group : ℕ
  pub group_desc_table : ℕ → GroupDesc

pub record Inode : Type 0 where
  pub i_mode : ℕ
  pub i_size : ℕ
  pub i_atime : ℕ
  pub i_mtime : ℕ
  pub i_blocks : ℕ
  pub i_block : ℕ → ℕ

abbrev inode_hash_map_size : ℕ
inode_hash_map_size = 1024

-- The inodes that were read, by their hash.
abbrev InodeMap : Type 0
InodeMap = ℕ → List (ℕ × Inode)

find_inode : ℕ → List (ℕ × Inode) → Option Inode
find_inode ino [] = none
find_inode ino ((n, inode) ∷ l) = if n == ino then some inode else find_inode ino l

get_inode_map : ℕ → InodeMap → Option Inode
unfolding find_inode
get_inode_map ino m = find_inode ino (m (ino % inode_hash_map_size))

put_inode_map : ℕ → Inode → InodeMap → InodeMap
put_inode_map ino inode m i = if i == ino % inode_hash_map_size then (ino, inode) ∷ m i else m i

-- `struct inode` at a position.
inode_at : ℕ → (ℕ → ℕ) → Inode
inode_at a disk = record {
  i_mode = little_endian 2 a disk;
  i_size = little_endian 4 (a + 4) disk;
  i_atime = little_endian 4 (a + 8) disk;
  i_mtime = little_endian 4 (a + 16) disk;
  i_blocks = little_endian 4 (a + 28) disk;
  i_block = λ i. little_endian 4 (a + 40 + 4 * i) disk;
}

-- The position of an inode in its block of the table of its group, as `getinode` and `putinode` find it.
inode_position : SuperBlock → ℕ → ℕ
inode_position sb ino =
    let group = (ino - 1) / sb.s_inodes_per_group in
    let index = (ino - 1) % sb.s_inodes_per_group in
    let inode_per_block = sb.block_size / sb.s_inode_size in
    let itable = index / inode_per_block in
    let itable_index = index % inode_per_block in
    ((sb.group_desc_table group).bg_inode_table + itable) * sb.block_size
    + sb.s_inode_size * itable_index

getinode : SuperBlock → (ℕ → ℕ) → ℕ → InodeMap → Inode × InodeMap
unfolding get_inode_map put_inode_map inode_position inode_at
getinode sb disk ino m = elim (get_inode_map ino m) [
  | some inode ↦ (inode, m)
  | none ↦ let inode = inode_at (inode_position sb ino) disk in (inode, put_inode_map ino inode m)
]

abbrev nr_inode_block : ℕ
nr_inode_block = 15

-- `array_ladder[i]`: how many blocks the entry `i` of an inode stands for.
pub array_ladder : ℕ → ℕ → ℕ
array_ladder base zero = 1
array_ladder base (suc i) =
    let len = array_ladder base i in if leb 12 (suc i) then len * base % 2 ^ 32 else len

-- The entry for the block `n` and its depth.
unfoldable pub find_entry : ℕ → ℕ → ℕ → ℕ → ℕ → ℕ → Option (ℕ × ℕ)
unfolding array_ladder
find_entry zero base n i sum depth = none
find_entry (suc turns) base n i sum depth =
    let depth' = if leb 12 i then depth + 1 else depth in
    let len = array_ladder base i in
    let later = find_entry turns base n (i + 1) (sum + len) depth' in
    if leb sum n && ltb n (sum + len) then some (i, depth') else later

-- Down the blocks of block numbers.
pub descend : SuperBlock → (ℕ → ℕ) → ℕ → ℕ → ℕ → ℕ
unfolding array_ladder
descend sb disk zero block reminder = block
descend sb disk (suc depth) block reminder =
    let len = array_ladder (sb.block_size / 4) (12 + depth - 1) in
    let next = little_endian 4 (block * sb.block_size + 4 * (reminder / len)) disk in
    if block == 0 then 0 else descend sb disk depth next (reminder % len)

-- `none` is -1.
pub get_block_no : SuperBlock → (ℕ → ℕ) → Inode → ℕ → Option ℕ
unfolding find_entry descend
get_block_no sb disk inode n = elim (find_entry nr_inode_block (sb.block_size / 4) n 0 0 0) [
  | none ↦ none
  | some (i, depth) ↦ some (descend sb disk depth (inode.i_block i) (n - 12))
]

-- The data of the block `n`, or `none` at the end. `block` has no sign, so that -1 is not below 0.
pub getblock : SuperBlock → (ℕ → ℕ) → ℕ → Inode → Option (ℕ → ℕ)
unfolding get_block_no
getblock sb disk n inode =
    let block = elim (get_block_no sb disk inode n) as (λ x. ℕ) [
      | none ↦ 2 ^ 64 - 1
      | some b ↦ b
    ] in
    if block == 0 then none else some (λ j. disk (block * sb.block_size % 2 ^ 64 + j))

-- The count and the buffer.
pub record Read : Type 0 where
  pub count : ℕ
  pub buf : ℕ → ℕ

-- The loop of `ext2_read`, with a bound on its turns; `none` is a bound that is too small.
pub read_loop : SuperBlock → (ℕ → ℕ) → Inode → ℕ → ℕ → ℕ → ℕ → Read → Option Read
unfolding getblock
read_loop sb disk inode zero size block offset r = if size == 0 then some r else none
read_loop sb disk inode (suc turns) size block offset r =
    if size == 0 then some r else elim (getblock sb disk block inode) [
      | none ↦ some r
      | some buffer ↦
          let room = sb.block_size - offset in
          let copysz = if ltb size room then size else room in
          read_loop sb disk inode turns (size - copysz) (block + 1) 0 (record {
            count = r.count + copysz;
            buf = λ a.
                if leb r.count a && ltb a (r.count + copysz)
                then buffer (offset + (a - r.count))
                else r.buf a;
          })
    ]

-- `ext2_read` of an inode. Each turn takes a byte at least, where a block has some.
pub ext2_read : SuperBlock → (ℕ → ℕ) → Inode → ℕ → ℕ → (ℕ → ℕ) → Option Read
unfolding read_loop
ext2_read sb disk inode at size buf =
    let none_read : Read = record { count = 0; buf = buf } in
    let size' = if leb inode.i_size (at + size) then inode.i_size - at else size in
    if leb inode.i_size at
    then some none_read
    else read_loop sb disk inode size' size' (at / sb.block_size) (at % sb.block_size) none_read

-- `setblock` of an inode; `none` is -1.
setblock : SuperBlock → Inode → ℕ → ℕ → Option Inode
setblock sb inode n number =
    if leb 12 n
    then none
    else if inode.i_block n == 0
    then some (record inode {
      i_block = λ i. if i == n then number else inode.i_block i;
      i_blocks = inode.i_blocks + sb.block_size / 512;
    })
    else none
