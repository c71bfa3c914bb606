-- ===== src/Ext2/Directory.antt =====
-- `ext2_lookup` of src/srv/ext2/main.c: the entries in the blocks of a directory.
use fat.Prelude.{
  ℕ, zero, suc, ◌+◌, ◌≤◌, ◌<◌, ◌≡◌, Bool, true, false, Option, none, some, List, [], ◌∷◌, ◌==◌,
  length, if◌then◌else◌, ◌&&◌, little_endian, arith, refl,
}
use fat.Ext2.{SuperBlock, Inode, getblock}

-- The fields of a `struct linked_directory` at an offset of a block.
abbrev dir_inode : (ℕ → ℕ) → ℕ → ℕ
dir_inode d o = little_endian 4 o d

abbrev rec_len : (ℕ → ℕ) → ℕ → ℕ
rec_len d o = little_endian 2 (o + 4) d

abbrev name_len : (ℕ → ℕ) → ℕ → ℕ
name_len d o = d (o + 6)

abbrev name_at : ℕ → ℕ
name_at o = o + 8

-- `!strncmp(filename, dir->name, filename_len)`
same_bytes : List ℕ → ℕ → (ℕ → ℕ) → Bool
same_bytes [] a d = true
same_bytes (c ∷ l) a d = c == d a && same_bytes l (a + 1) d

-- The loop over the entries of a block, from an offset on, with a bound on its turns: `none` is a bound
-- that is too small, and `some none` the end of the block.
pub scan : ℕ → ℕ → List ℕ → (ℕ → ℕ) → ℕ → Option (Option ℕ)
unfolding same_bytes
scan zero size name d o = if o == size then some none else none
scan (suc turns) size name d o =
    let later = scan turns size name d (o + rec_len d o) in
    if o == size
    then some none
    else if name_len d o == length name && same_bytes name (name_at o) d
    then some (some (dir_inode d o))
    else later

-- The loop over the blocks, from one on. `some none` is -1.
lookup_blocks : ℕ → SuperBlock → (ℕ → ℕ) → Inode → List ℕ → ℕ → Option (Option ℕ)
unfolding scan
lookup_blocks zero sb disk pinode name block = none
lookup_blocks (suc turns) sb disk pinode name block =
    let later = lookup_blocks turns sb disk pinode name (block + 1) in
    elim (getblock sb disk block pinode) [
      | none ↦ some none
      | some d ↦ elim (scan sb.block_size sb.block_size name d 0) [
        | none ↦ none
        | some ino ↦ elim ino [ none ↦ later | some i ↦ some (some i) ]
      ]
    ]

-- `ext2_lookup`: the number of the inode; a bound on the blocks of the directory comes first.
ext2_lookup : ℕ → SuperBlock → (ℕ → ℕ) → Inode → List ℕ → Option (Option ℕ)
unfolding lookup_blocks
ext2_lookup turns sb disk pinode name = lookup_blocks turns sb disk pinode name 0

-- A directory as a sequence of names with their inodes.
pub record Entry : Type 0 where
  pub name : List ℕ
  pub ino : ℕ

same_list : List ℕ → List ℕ → Bool
same_list [] [] = true
same_list [] (c ∷ m) = false
same_list (c ∷ l) [] = false
same_list (c ∷ l) (e ∷ m) = c == e && same_list l m

pub first_named : List ℕ → List Entry → Option ℕ
unfolding same_list
first_named name [] = none
first_named name (e ∷ l) = if same_list name e.name then some e.ino else first_named name l

pub bytes : ℕ → ℕ → (ℕ → ℕ) → List ℕ
bytes zero a d = []
bytes (suc n) a d = d a ∷ bytes n (a + 1) d

abbrev pub entry_at : (ℕ → ℕ) → ℕ → Entry
entry_at d o = record { name = bytes (name_len d o) (name_at o) d; ino = dir_inode d o }

-- The block has these entries from the offset on: each is at least as long as its fields, and the last one
-- ends with the block.
pub data Chain (size : ℕ) (d : ℕ → ℕ) : ℕ → List Entry → Type 0 where
  chain_end : {o : ℕ} → o ≡ size → Chain size d o []
  chain_next :
      {o : ℕ} {l : List Entry}
      → o < size
      → 8 ≤ rec_len d o
      → Chain size d (o + rec_len d o) l
      → Chain size d o (entry_at d o ∷ l)

same_bytes-same_list :
    (name : List ℕ) (n a : ℕ) (d : ℕ → ℕ)
    → (n == length name && same_bytes name a d) ≡ same_list name (bytes n a d)
unfolding same_bytes same_list bytes
same_bytes-same_list [] zero a d = refl
same_bytes-same_list [] (suc n) a d = ground arith
same_bytes-same_list (c ∷ l) zero a d = ground arith
same_bytes-same_list (c ∷ l) (suc n) a d = ground (arith, same_bytes-same_list l n (a + 1) d)

inside : (size o : ℕ) → o < size → (o == size) ≡ false
inside size o h = ground arith

some_if :
    {A : Type 0} (b : Bool) (x y : A) → (if b then some x else some y) ≡ some (if b then x else y)
some_if true x y = refl
some_if false x y = refl

-- A scan of a block that is a chain of entries ends, with a turn for each byte behind the offset, and finds
-- the inode of the first entry with the name, or that there is none.
pub scan-first_named :
    (turns size o : ℕ) (name : List ℕ) (d : ℕ → ℕ) (l : List Entry)
    → Chain size d o l
    → size ≤ o + turns
    → scan turns size name d o ≡ some (first_named name l)
unfolding scan first_named
scan-first_named zero size o name d l (chain_end e) h = ground (arith, e)
scan-first_named zero size o name d l (chain_next lt r c) h = absurd (omega (arith, lt, h))
scan-first_named (suc turns) size o name d l (chain_end e) h = ground (arith, e)
scan-first_named (suc turns) size o name d l (chain_next lt r c) h =
    rw
      (
        scan,
        inside size o lt,
        same_bytes-same_list name (name_len d o) (name_at o) d,
        scan-first_named turns size (o + rec_len d o) name d _ c (omega (arith, h, r)),
      )
      (some_if (same_list name (bytes (name_len d o) (name_at o) d)) _ _)
