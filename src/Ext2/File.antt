-- ===== src/Ext2/File.antt =====
-- `ext2_read` of src/srv/ext2/main.c, against the bytes of a file.
use native.Mathlib.Nat.{
  div-eq_of_lt-le, mul-add-mod_self_left, mod-eq_of_lt, mul_comm, mul-le-mul_right, div-add-mod,
  mod-lt,
}
use fat.Prelude.{
  ℕ, zero, suc, ◌+◌, ◌-◌, ◌*◌, ◌/◌, ◌%◌, ◌≤◌, ◌<◌, ◌≡◌, ◌⊎◌, true, false, none, some, ◌==◌, ltb,
  leb, if◌then◌else◌, ◌&&◌, arith, refl, ap, subst, ◌∙◌, inl, inr, Bool-cases, min,
}
use fat.Ext2.{SuperBlock, Inode, getblock, Read, read_loop, ext2_read}

-- The byte `k` of a file: that of its block.
unfoldable pub file_byte : SuperBlock → (ℕ → ℕ) → Inode → ℕ → ℕ
file_byte sb disk inode k = elim (getblock sb disk (k / sb.block_size) inode) [
  | none ↦ 0
  | some d ↦ d (k % sb.block_size)
]

div_of : (n k j : ℕ) → j < n → (k * n + j) / n ≡ k
div_of n k j h = div-eq_of_lt-le {k = k} n (omega arith) (omega (arith, h))

mod_of : (n k j : ℕ) → j < n → (k * n + j) % n ≡ j
mod_of n k j h = ap (λ x. (x + j) % n) (mul_comm k n) ∙ mul-add-mod_self_left n k j ∙ mod-eq_of_lt h

file_byte-block :
    (sb : SuperBlock) (disk : ℕ → ℕ) (inode : Inode) (block j : ℕ) (d : ℕ → ℕ)
    → j < sb.block_size
    → getblock sb disk block inode ≡ some d
    → file_byte sb disk inode (block * sb.block_size + j) ≡ d j
unfolding file_byte
file_byte-block sb disk inode block j d h e =
    rw (file_byte, div_of sb.block_size block j h, e, mod_of sb.block_size block j h) refl

-- The blocks from `block` on that begin before the position `end` are there.
unfoldable pub HasBlocks : SuperBlock → (ℕ → ℕ) → Inode → ℕ → ℕ → Type 0
HasBlocks sb disk inode block end =
    (b : ℕ)
    → block ≤ b
    → b * sb.block_size < end
    → (d : ℕ → ℕ) × (getblock sb disk b inode ≡ some d)

-- The buffer after `n` bytes from the position `at` on came behind the first `count`.
unfoldable pub filled : SuperBlock → (ℕ → ℕ) → Inode → ℕ → ℕ → ℕ → (ℕ → ℕ) → ℕ → ℕ
filled sb disk inode at count n buf a =
    if leb count a && ltb a (count + n) then file_byte sb disk inode (at + (a - count)) else buf a

pub record IsRead (sb : SuperBlock) (disk : ℕ → ℕ) (inode : Inode) (at n : ℕ) (before after : Read)
    : Type 0 where
  pub counted : after.count ≡ before.count + n
  pub bytes : (a : ℕ) → after.buf a ≡ filled sb disk inode at before.count n before.buf a

-- What a turn puts into the buffer.
abbrev one_turn : (ℕ → ℕ) → ℕ → ℕ → Read → Read
one_turn d offset c r = record {
  count = r.count + c;
  buf = λ a. if leb r.count a && ltb a (r.count + c) then d (offset + (a - r.count)) else r.buf a;
}

in_block :
    (sb : SuperBlock) (disk : ℕ → ℕ) (inode : Inode) (block offset i : ℕ) (d : ℕ → ℕ)
    → getblock sb disk block inode ≡ some d
    → offset + i < sb.block_size
    → file_byte sb disk inode (block * sb.block_size + offset + i) ≡ d (offset + i)
in_block sb disk inode block offset i d e h =
    ap (file_byte sb disk inode) (omega arith)
    ∙ file_byte-block sb disk inode block (offset + i) d h e

turn_bytes :
    (sb : SuperBlock) (disk : ℕ → ℕ) (inode : Inode) (block offset c n : ℕ) (d : ℕ → ℕ) (r : Read)
    (a : ℕ)
    → getblock sb disk block inode ≡ some d
    → offset + c ≤ sb.block_size
    → c ≤ n
    → filled sb disk inode
        (block * sb.block_size + offset + c)
        (r.count + c)
        (n - c)
        (one_turn d offset c r).buf
        a
      ≡ filled sb disk inode (block * sb.block_size + offset) r.count n r.buf a
unfolding filled
turn_bytes sb disk inode block offset c n d r a e h l =
    ground (arith, h, l, in_block sb disk inode block offset (a - r.count) d e)

-- A turn that finds its block, with `c` bytes.
read_loop-turn :
    (sb : SuperBlock) (disk : ℕ → ℕ) (inode : Inode) (turns n block offset c : ℕ) (d : ℕ → ℕ)
    (r : Read)
    → 0 < n
    → getblock sb disk block inode ≡ some d
    → (if ltb n (sb.block_size - offset) then n else sb.block_size - offset) ≡ c
    → read_loop sb disk inode (suc turns) n block offset r
      ≡ read_loop sb disk inode turns (n - c) (block + 1) 0 (one_turn d offset c r)
unfolding read_loop
read_loop-turn sb disk inode turns n block offset c d r z e h =
    rw (read_loop, positive n z, e, h) refl
  where
    positive : (n : ℕ) → 0 < n → (n == 0) ≡ false
    positive n z = ground arith

nothing_read :
    (sb : SuperBlock) (disk : ℕ → ℕ) (inode : Inode) (at : ℕ) (r : Read)
    → IsRead sb disk inode at 0 r r
unfolding filled
nothing_read sb disk inode at r = record { counted = ground arith; bytes = λ a. ground arith }

-- The bytes of a turn: some, none that are not asked for, and the rest of the block, or all.
chosen :
    (n size offset : ℕ)
    → offset < size
    → 0 < n
    → (0 < (if ltb n (size - offset) then n else size - offset))
      × ((if ltb n (size - offset) then n else size - offset) ≤ n)
      × (offset + (if ltb n (size - offset) then n else size - offset) ≤ size)
      × (((if ltb n (size - offset) then n else size - offset) ≡ n)
          ⊎ (offset + (if ltb n (size - offset) then n else size - offset) ≡ size))
chosen n size offset o z = elim (Bool-cases (ltb n (size - offset))) [
  | inl e ↦ rw e (z, omega arith, ground arith, inl refl)
  | inr e ↦ rw e (omega (arith, o), ground arith, ground arith, inr (ground arith))
]

start : (block size offset n : ℕ) → 0 < n → block * size < block * size + offset + n
start block size offset n z = omega (arith, z)

next_end :
    (block size offset n c k : ℕ)
    → c ≤ n
    → (c ≡ n) ⊎ (offset + c ≡ size)
    → block + 1 ≤ k
    → k * size < (block + 1) * size + 0 + (n - c)
    → k * size < block * size + offset + n
next_end block size offset n c k h (inl e) l m =
    absurd (omega (arith, e, m, mul-le-mul_right size l))
next_end block size offset n c k h (inr e) l m = omega (arith, e, h, m)

same_place :
    (block size offset n c : ℕ)
    → (c ≡ n) ⊎ (offset + c ≡ size)
    → ((block + 1) * size + 0 ≡ block * size + offset + c) ⊎ (n - c ≡ 0)
same_place block size offset n c (inl e) = inr (omega (arith, e))
same_place block size offset n c (inr e) = inl (omega (arith, e))

filled_at :
    (sb : SuperBlock) (disk : ℕ → ℕ) (inode : Inode) (p q count n : ℕ) (buf : ℕ → ℕ) (a : ℕ)
    → (p ≡ q) ⊎ (n ≡ 0)
    → filled sb disk inode p count n buf a ≡ filled sb disk inode q count n buf a
unfolding filled
filled_at sb disk inode p q count n buf a (inl e) = ap (λ p. filled sb disk inode p count n buf a) e
filled_at sb disk inode p q count n buf a (inr e) = ground (arith, e)

read_loop-IsRead :
    (sb : SuperBlock) (disk : ℕ → ℕ) (inode : Inode) (turns n block offset : ℕ) (r : Read)
    → n ≤ turns
    → offset < sb.block_size
    → HasBlocks sb disk inode block (block * sb.block_size + offset + n)
    → (r' : Read) × (read_loop sb disk inode turns n block offset r ≡ some r')
      × IsRead sb disk inode (block * sb.block_size + offset) n r r'
unfolding read_loop HasBlocks
read_loop-IsRead sb disk inode zero zero block offset r t o has =
    (r, refl, nothing_read sb disk inode _ r)
read_loop-IsRead sb disk inode zero (suc n) block offset r t o has = absurd (omega (arith, t))
read_loop-IsRead sb disk inode (suc turns) zero block offset r t o has =
    (r, refl, nothing_read sb disk inode _ r)
read_loop-IsRead sb disk inode (suc turns) (suc n) block offset r t o has =
    let c : ℕ = if ltb (suc n) (sb.block_size - offset) then suc n else sb.block_size - offset in
    let f = chosen (suc n) sb.block_size offset o (omega arith) in
    let b = has block (omega arith) (start block sb.block_size offset (suc n) (omega arith)) in
    let turn =
      read_loop-turn sb disk inode turns (suc n) block offset c b.0 r (omega arith) b.1 refl in
    let ih =
      read_loop-IsRead sb disk inode turns (suc n - c) (block + 1) 0 (one_turn b.0 offset c r)
        (omega (arith, t, f)) (omega (arith, o))
        (λ k l m.
          has k (omega (arith, l)) (next_end block sb.block_size offset (suc n) c k f.1 f.3 l m)) in
    (
      ih.0,
      turn ∙ ih.1,
      record {
        counted = ih.2.counted ∙ omega (arith, f);
        bytes = λ a.
            ih.2.bytes a
            ∙ filled_at sb disk inode _ _ (r.count + c) (suc n - c) (one_turn b.0 offset c r).buf a
                (same_place block sb.block_size offset (suc n) c f.3)
            ∙ turn_bytes sb disk inode block offset c (suc n) b.0 r a b.1 f.2 f.1;
      },
    )

place : (at size : ℕ) → at / size * size + at % size ≡ at
place at size = omega (arith, div-add-mod at size, mul_comm (at / size) size)

-- How much there is to read.
wanted :
    (total at size : ℕ)
    → leb total at ≡ false
    → (if leb total (at + size) then total - at else size) ≡ min size (total - at)
wanted total at size e = ground arith

nothing_wanted : (total at size : ℕ) → leb total at ≡ true → 0 ≡ min size (total - at)
nothing_wanted total at size e = ground arith

ext2_read-some :
    (sb : SuperBlock) (disk : ℕ → ℕ) (inode : Inode) (at size n : ℕ) (buf : ℕ → ℕ)
    → leb inode.i_size at ≡ false
    → (if leb inode.i_size (at + size) then inode.i_size - at else size) ≡ n
    → ext2_read sb disk inode at size buf
      ≡ read_loop sb disk inode n n
          (at / sb.block_size)
          (at % sb.block_size)
          (record { count = 0; buf = buf })
unfolding ext2_read
ext2_read-some sb disk inode at size n buf e h = rw (ext2_read, e, h) refl

ext2_read-none :
    (sb : SuperBlock) (disk : ℕ → ℕ) (inode : Inode) (at size : ℕ) (buf : ℕ → ℕ)
    → leb inode.i_size at ≡ true
    → ext2_read sb disk inode at size buf ≡ some (record { count = 0; buf = buf })
unfolding ext2_read
ext2_read-none sb disk inode at size buf e = rw (ext2_read, e) refl

-- A read of a file whose blocks are there up to the end of what it can give returns, and it reads all of the
-- bytes from the position on that the file has, `size` of them at most: it answers how many these are,
-- puts them at the start of the buffer and leaves the rest of the buffer. A block has a byte at least.
pub ext2_read-IsRead :
    (sb : SuperBlock) (disk : ℕ → ℕ) (inode : Inode) (at size : ℕ) (buf : ℕ → ℕ)
    → 0 < sb.block_size
    → HasBlocks sb disk inode 0 (at + min size (inode.i_size - at))
    → (r : Read) × (ext2_read sb disk inode at size buf ≡ some r)
      × IsRead sb disk inode at (min size (inode.i_size - at)) (record { count = 0; buf = buf }) r
unfolding HasBlocks
ext2_read-IsRead sb disk inode at size buf z has = elim (Bool-cases (leb inode.i_size at)) [
  | inl e ↦ (
    record { count = 0; buf = buf },
    ext2_read-none sb disk inode at size buf e,
    subst
        (λ n.
          IsRead sb disk inode at n (record { count = 0; buf = buf })
            (record { count = 0; buf = buf }))
        (nothing_wanted inode.i_size at size e)
        (nothing_read sb disk inode at (record { count = 0; buf = buf })),
  )
  | inr e ↦
      let n : ℕ = min size (inode.i_size - at) in
      let begin = place at sb.block_size in
      let r =
        read_loop-IsRead sb disk inode n n (at / sb.block_size) (at % sb.block_size)
          (record { count = 0; buf = buf }) (omega arith) (mod-lt at z)
          (λ b l m. has b (omega arith) (omega (arith, m, begin))) in
      (
        r.0,
        ext2_read-some sb disk inode at size n buf e (wanted inode.i_size at size e) ∙ r.1,
        subst (λ p. IsRead sb disk inode p n (record { count = 0; buf = buf }) r.0) begin r.2,
      )
]
