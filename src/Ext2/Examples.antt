-- ===== src/Ext2/Examples.antt =====
-- The theorems on src/srv/ext2/main.c at a file of 900 bytes in blocks of 1024.
use fat.Prelude.{
  ◌*◌, little_endian, if◌then◌else◌, ◌||◌, ◌==◌, List, [], ◌∷◌, ℕ, ◌+◌, ◌≡◌, some, arith, refl,
  true,
}
use fat.Ext2.{SuperBlock, Inode, GroupDesc}
use fat.Ext2.Directory.{
  Entry, entry_at, Chain, chain_end, chain_next, scan, first_named, scan-first_named,
}
use fat.Ext2.Alloc.{alloc_block}
use fat.Ext2.Alloc.First.{TakesFirst, alloc_block-TakesFirst}

abbrev disk : ℕ → ℕ
disk a = a

abbrev groups : ℕ → GroupDesc
groups i = record { bg_block_bitmap = 3; bg_inode_bitmap = 4; bg_inode_table = 5 }

abbrev super_block : SuperBlock
super_block = record {
  block_size = 1024;
  s_inodes_per_group = 1832;
  s_inode_size = 128;
  nr_group = 1;
  group_desc_table = groups;
}

abbrev small_file : Inode
small_file = record {
  i_mode = 0;
  i_size = 900;
  i_atime = 0;
  i_mtime = 0;
  i_blocks = 2;
  i_block = λ i. i + 20;
}

-- "." of the inode 2 and ".." of the inode 5, each in 12 bytes.
abbrev block : ℕ → ℕ
block a =
    if a == 0
    then 2
    else if a == 12
    then 5
    else if a == 4 || a == 16
    then 12
    else if a == 6
    then 1
    else if a == 18
    then 2
    else if a == 8 || a == 20 || a == 21
    then 46
    else 0

abbrev entries : List Entry
entries = entry_at block 0 ∷ entry_at block 12 ∷ []

block-Chain : Chain 24 block 0 entries
unfolding little_endian
block-Chain =
    chain_next (ground arith) (ground arith)
      (chain_next (ground arith) (ground arith) (chain_end refl))

scan-first_named_example :
    scan 24 24 (46 ∷ 46 ∷ []) block 0 ≡ some (first_named (46 ∷ 46 ∷ []) entries)
scan-first_named_example =
    scan-first_named 24 24 0 (46 ∷ 46 ∷ []) block entries block-Chain (ground arith)

alloc_block-TakesFirst_example :
    TakesFirst
      (λ g. g.bg_block_bitmap)
      super_block
      disk
      true
      (λ i j k. i * 1024 + j * 8 + k)
      (alloc_block super_block disk true)
alloc_block-TakesFirst_example = alloc_block-TakesFirst super_block disk true
