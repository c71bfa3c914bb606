-- ===== src/Ext2/Alloc.antt =====
-- `alloc_block` and `alloc_inode` of src/srv/ext2/main.c: the first bit of the bitmaps that is not set.
-- There is a block buffer for them, and reads of the disk succeed; the write of the bitmap may fail.
pub mod Bits
pub mod First
use native.Mathlib.Nat.{add-div_right, one-le-pow}
use fat.Prelude.{
  ℕ, zero, suc, ◌+◌, ◌-◌, ◌*◌, ◌/◌, ◌%◌, ◌^◌, ◌≤◌, ◌<◌, ◌≡◌, ◌≢◌, Bool, true, false, Option, none,
  some, ◌==◌, if◌then◌else◌, arith, refl, sym, ap, ◌∙◌, Bool-cases, Option-cases, inl, inr, ==_iff,
  subst,
}
use fat.Ext2.{SuperBlock, GroupDesc}

-- The first bit of a byte that is not set, from `k` on.
free_bit : ℕ → ℕ → ℕ → Option ℕ
free_bit zero k val = none
free_bit (suc turns) k val =
    let later = free_bit turns (k + 1) val in if val / 2 ^ k % 2 == 0 then some k else later

-- What a turn of the loop makes of what it found in its byte or in its group.
abbrev byte_turn : ℕ → Option ℕ → Option (ℕ × ℕ) → Option (ℕ × ℕ)
byte_turn j (some k) later = some (j, k)
byte_turn j none later = later

abbrev group_turn : ℕ → Option (ℕ × ℕ) → Option (ℕ × ℕ × ℕ) → Option (ℕ × ℕ × ℕ)
group_turn i (some r) later = some (i, r.0, r.1)
group_turn i none later = later

-- The first byte of a bitmap with such a bit.
pub free_byte : ℕ → ℕ → (ℕ → ℕ) → Option (ℕ × ℕ)
unfolding free_bit
free_byte zero j bitmap = none
free_byte (suc turns) j bitmap =
    let later = free_byte turns (j + 1) bitmap in byte_turn j (free_bit 8 0 (bitmap j)) later

-- The group, the byte and the bit, in the groups from `i` on.
free_group : ℕ → (GroupDesc → ℕ) → SuperBlock → ℕ → (ℕ → ℕ) → Option (ℕ × ℕ × ℕ)
unfolding free_byte
free_group zero bitmap sb i disk = none
free_group (suc turns) bitmap sb i disk =
    let at = bitmap (sb.group_desc_table i) * sb.block_size in
    let later = free_group turns bitmap sb (i + 1) disk in
    group_turn i (free_byte sb.block_size 0 (λ j. disk (at + j))) later

-- The disk with the bit.
abbrev pub set_bit : (GroupDesc → ℕ) → SuperBlock → ℕ → ℕ → ℕ → (ℕ → ℕ) → ℕ → ℕ
set_bit bitmap sb i j k disk a =
    if a == bitmap (sb.group_desc_table i) * sb.block_size + j then disk a + 2 ^ k else disk a

-- The number that is given out and the disk after it; -1, since the bitmap could not be written; or no bit is
-- free, where the source goes on with the byte behind its buffer and a number that it never set.
pub data Allocation : Type 0 where
  taken : ℕ → (ℕ → ℕ) → Allocation
  not_written : Allocation
  behind_bitmap : Allocation

-- What follows the search. `written` is whether the write of the bitmap succeeds.
abbrev take_bit :
    (GroupDesc → ℕ)
    → SuperBlock
    → (ℕ → ℕ)
    → Bool
    → (ℕ → ℕ → ℕ → ℕ)
    → Option (ℕ × ℕ × ℕ)
    → Allocation
take_bit bitmap sb disk written number none = behind_bitmap
take_bit bitmap sb disk written number (some r) =
    if written then taken (number r.0 r.1 r.2) (set_bit bitmap sb r.0 r.1 r.2 disk) else not_written

pub alloc_block : SuperBlock → (ℕ → ℕ) → Bool → Allocation
unfolding free_group
alloc_block sb disk written =
    take_bit (λ g. g.bg_block_bitmap) sb disk written (λ i j k. i * sb.block_size + j * 8 + k)
      (free_group sb.nr_group (λ g. g.bg_block_bitmap) sb 0 disk)

-- The number of an inode starts from 1, and has 32 bits.
pub alloc_inode : SuperBlock → (ℕ → ℕ) → Bool → Allocation
unfolding free_group
alloc_inode sb disk written =
    take_bit (λ g. g.bg_inode_bitmap) sb disk written
      (λ i j k. (i * sb.block_size + j * 8 + k + 1) % 2 ^ 32)
      (free_group sb.nr_group (λ g. g.bg_inode_bitmap) sb 0 disk)
