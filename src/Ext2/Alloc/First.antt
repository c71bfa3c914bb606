-- ===== src/Ext2/Alloc/First.antt =====
-- `alloc_block` and `alloc_inode`: which bit they take.
use native.Mathlib.Nat.{add-div_right, one-le-pow}
use fat.Prelude.{
  ℕ, Bool, zero, suc, ◌+◌, ◌*◌, ◌%◌, ◌^◌, ◌≤◌, ◌<◌, ◌≡◌, ◌≢◌, true, false, Option, none, some, ◌==◌,
  arith, refl, sym, Bool-cases, Option-cases, inl, inr, ==_iff, subst,
}
use fat.Ext2.{SuperBlock, GroupDesc}
use fat.Ext2.Alloc.{
  Allocation, taken, not_written, behind_bitmap, free_byte, free_group, group_turn, set_bit,
  take_bit, alloc_block, alloc_inode,
}
use fat.Ext2.Alloc.Bits.{bit, Full, First, FreeByte, free_byte-FreeByte}

module _ (bitmap : GroupDesc → ℕ) (sb : SuperBlock) (disk : ℕ → ℕ) where
  -- The byte of the bitmap of a group.
  abbrev pub byte_of : ℕ → ℕ → ℕ
  byte_of i j = disk (bitmap (sb.group_desc_table i) * sb.block_size + j)

  abbrev FreeGroup : ℕ → ℕ → Option (ℕ × ℕ × ℕ) → Type 0
  FreeGroup turns i none =
      (c : ℕ) → i ≤ c → c < i + turns → (j : ℕ) → j < sb.block_size → Full (byte_of c j)
  FreeGroup turns i (some r) =
      (i ≤ r.0)
      × (r.0 < i + turns)
      × (r.1 < sb.block_size)
      × First (byte_of r.0 r.1) r.2
      × ((j : ℕ) → j < r.1 → Full (byte_of r.0 j))
      × ((c : ℕ) → i ≤ c → c < r.0 → (j : ℕ) → j < sb.block_size → Full (byte_of c j))

  free_group-FreeGroup : (turns i : ℕ) → FreeGroup turns i (free_group turns bitmap sb i disk)
  unfolding free_group
  free_group-FreeGroup zero i = λ c a b. absurd (omega (arith, a, b))
  free_group-FreeGroup (suc turns) i =
      let later = free_group turns bitmap sb (i + 1) disk in
      let found = free_byte-FreeByte sb.block_size 0 (byte_of i) in
      elim (Option-cases (free_byte sb.block_size 0 (byte_of i))) [
        | inl e ↦
            subst (λ o. FreeGroup (suc turns) i (group_turn i o later)) (sym e)
              (extend later
                (λ j l.
                  subst (FreeByte sb.block_size 0 (byte_of i)) e found j (omega arith)
                    (omega (arith, l)))
                (free_group-FreeGroup turns (i + 1)))
        | inr (r, e) ↦
            let f = subst (FreeByte sb.block_size 0 (byte_of i)) e found in
            subst (λ o. FreeGroup (suc turns) i (group_turn i o later)) (sym e)
              (
                omega arith,
                omega arith,
                omega (arith, f.1),
                f.2,
                (λ j l. f.3 j (omega arith) l),
                λ c a b. absurd (omega (arith, a, b)),
              )
      ]
    where
      extend :
          (o : Option (ℕ × ℕ × ℕ))
          → ((j : ℕ) → j < sb.block_size → Full (byte_of i j))
          → FreeGroup turns (i + 1) o
          → FreeGroup (suc turns) i o
      extend none b f = λ c a d. elim (Bool-cases (c == i)) [
        | inl e ↦
            subst (λ x. (j : ℕ) → j < sb.block_size → Full (byte_of x j)) (sym ((==_iff c i).0 e)) b
        | inr e ↦ f c (ground (arith, a, e)) (omega (arith, d))
      ]
      extend (some r) b f = (
        omega (arith, f.0),
        omega (arith, f.1),
        f.2,
        f.3,
        f.4,
        λ c a d. elim (Bool-cases (c == i)) [
          | inl e ↦
              subst (λ x. (j : ℕ) → j < sb.block_size → Full (byte_of x j)) (sym ((==_iff c i).0 e))
                b
          | inr e ↦ f.5 c (ground (arith, a, e)) d
        ],
      )

-- The bit at a byte of a group, which was the first free one, is set, and the rest of the disk is as before.
pub record Allocated (bitmap : GroupDesc → ℕ) (sb : SuperBlock) (disk : ℕ → ℕ) (i j k : ℕ)
    (disk' : ℕ → ℕ) : Type 0 where
  pub group : i < sb.nr_group
  pub byte : j < sb.block_size
  pub free : First (byte_of bitmap sb disk i j) k
  pub full_bytes : (c : ℕ) → c < j → Full (byte_of bitmap sb disk i c)
  pub full_groups :
      (g : ℕ) → g < i → (c : ℕ) → c < sb.block_size → Full (byte_of bitmap sb disk g c)
  pub taken : bit (byte_of bitmap sb disk' i j) k ≡ 1
  pub kept : (a : ℕ) → a ≢ bitmap (sb.group_desc_table i) * sb.block_size + j → disk' a ≡ disk a

bit_set : (val k : ℕ) → bit val k ≡ 0 → bit (val + 2 ^ k) k ≡ 1
bit_set val k z = omega (arith, add-div_right val {k = 2 ^ k} (one-le-pow k 2 (omega arith)), z)

Allocated-free :
    (bitmap : GroupDesc → ℕ) (sb : SuperBlock) (disk : ℕ → ℕ) (i j k : ℕ)
    → free_group sb.nr_group bitmap sb 0 disk ≡ some (i, j, k)
    → Allocated bitmap sb disk i j k (set_bit bitmap sb i j k disk)
Allocated-free bitmap sb disk i j k e =
    let f =
      subst (FreeGroup bitmap sb disk sb.nr_group 0) e
        (free_group-FreeGroup bitmap sb disk sb.nr_group 0) in
    let at = bitmap (sb.group_desc_table i) * sb.block_size + j in
    record {
      group = omega (arith, f.1);
      byte = f.2;
      free = f.3;
      full_bytes = f.4;
      full_groups = λ g l. f.5 g (omega arith) l;
      taken =
          (let same_byte : (at == at) ≡ true = ground arith in
            rw same_byte (bit_set (disk at) k f.3.1));
      kept = λ a n. let other : (a == at) ≡ false = ground (arith, n) in rw other refl;
    }

-- The number that is given out for a bit, the bit that was found but not written, or that every bit is set.
abbrev pub TakesFirst :
    (GroupDesc → ℕ) → SuperBlock → (ℕ → ℕ) → Bool → (ℕ → ℕ → ℕ → ℕ) → Allocation → Type 0
TakesFirst bitmap sb disk written number (taken n disk') =
    (written ≡ true)
    × (i : ℕ) × (j : ℕ) × (k : ℕ) × (n ≡ number i j k)
    × Allocated bitmap sb disk i j k disk'
TakesFirst bitmap sb disk written number not_written =
    (written ≡ false)
    × (i : ℕ) × (j : ℕ) × (k : ℕ) × (i < sb.nr_group)
    × (j < sb.block_size)
    × First (byte_of bitmap sb disk i j) k
TakesFirst bitmap sb disk written number behind_bitmap =
    (i : ℕ) → i < sb.nr_group → (j : ℕ) → j < sb.block_size → Full (byte_of bitmap sb disk i j)

take_bit-TakesFirst :
    (bitmap : GroupDesc → ℕ) (sb : SuperBlock) (disk : ℕ → ℕ) (written : Bool)
    (number : ℕ → ℕ → ℕ → ℕ)
    → TakesFirst bitmap sb disk written number
        (take_bit bitmap sb disk written number (free_group sb.nr_group bitmap sb 0 disk))
take_bit-TakesFirst bitmap sb disk written number =
    let found = free_group-FreeGroup bitmap sb disk sb.nr_group 0 in
    let Holds = λ (w : Bool) (o : Option (ℕ × ℕ × ℕ)).
      TakesFirst bitmap sb disk w number (take_bit bitmap sb disk w number o) in
    elim (Option-cases (free_group sb.nr_group bitmap sb 0 disk)) [
      | inl e ↦ subst (Holds written) (sym e) (λ i l.
          subst (FreeGroup bitmap sb disk sb.nr_group 0) e found i (omega arith) (omega (arith, l)))
      | inr (r, e) ↦
          let a = Allocated-free bitmap sb disk r.0 r.1 r.2 e in
          subst (Holds written) (sym e) (elim written as (λ w. Holds w (some r)) [
            | true ↦ (refl, r.0, r.1, r.2, refl, a)
            | false ↦ (refl, r.0, r.1, r.2, a.group, a.byte, a.free)
          ])
    ]

-- `alloc_block` finds the first bit of the bitmaps that is not set, if there is one: it gives out its number,
-- sets it and changes nothing else on the disk where the bitmap can be written, and answers -1 exactly where
-- it cannot. It goes on behind the bitmap only if all bits are set. Reads of the
-- disk succeed, and there is a block buffer.
pub alloc_block-TakesFirst :
    (sb : SuperBlock) (disk : ℕ → ℕ) (written : Bool)
    → TakesFirst
        (λ g. g.bg_block_bitmap)
        sb
        disk
        written
        (λ i j k. i * sb.block_size + j * 8 + k)
        (alloc_block sb disk written)
unfolding alloc_block
alloc_block-TakesFirst sb disk written =
    take_bit-TakesFirst (λ g. g.bg_block_bitmap) sb disk written
      (λ i j k. i * sb.block_size + j * 8 + k)

-- `alloc_inode` does the same with the bitmaps of the inodes, whose numbers start from 1.
alloc_inode-TakesFirst :
    (sb : SuperBlock) (disk : ℕ → ℕ) (written : Bool)
    → TakesFirst
        (λ g. g.bg_inode_bitmap)
        sb
        disk
        written
        (λ i j k. (i * sb.block_size + j * 8 + k + 1) % 2 ^ 32)
        (alloc_inode sb disk written)
unfolding alloc_inode
alloc_inode-TakesFirst sb disk written =
    take_bit-TakesFirst (λ g. g.bg_inode_bitmap) sb disk written
      (λ i j k. (i * sb.block_size + j * 8 + k + 1) % 2 ^ 32)
