-- ===== src/Heap.antt =====
-- src/libc/malloc.c: the heap of a user process, and `sbrk` of src/libc/syscall.c under it. A node is
-- its block; the lists `m_free` and `m_busy` are sequences, and of `m_free_node` only the length
-- counts. The address 0 is NULL. `granted` is the kernel's answer to the message of `brk`.
pub mod Blocks
pub mod Grow
pub mod HandOut
pub mod Malloc
pub mod Free
mod Examples
use fat.Prelude.{
  ℕ, ◌+◌, ◌-◌, ◌*◌, ◌/◌, ◌%◌, ◌^◌, Bool, true, false, Option, none, some, List, [], ◌∷◌, ◌++◌, ◌==◌,
  ltb, leb, if◌then◌else◌,
}

pub record Node : Type 0 where
  pub ptr : ℕ
  pub size : ℕ

-- `_brk` is the end of the memory of the process.
pub record Heap : Type 0 where
  pub m_free : List Node
  pub m_busy : List Node
  pub m_free_node : ℕ
  pub _brk : ℕ

abbrev pub each_brk : ℕ
each_brk = 0x2000

abbrev pub node_inc_size : ℕ
node_inc_size = 1024

-- `sizeof(m_node)`: four words.
abbrev pub node_size : ℕ
node_size = 32

pub sbrk : (ℕ → Bool) → ℕ → Heap → ℕ × Heap
sbrk granted size h =
    let new_brk = (h._brk + size) % 2 ^ 64 in
    if h._brk == new_brk
    then (h._brk, h)
    else if granted new_brk
    then (h._brk, record h { _brk = new_brk })
    else (0, h)

-- `none` is NULL.
pub alloc_node : (ℕ → Bool) → Heap → Option Heap
unfolding sbrk
alloc_node granted h =
    if h.m_free_node == 0
    then (let r = sbrk granted (node_inc_size * node_size) h in
        if r.0 == 0 then none else some (record r.1 { m_free_node = node_inc_size - 1 }))
    else some (record h { m_free_node = h.m_free_node - 1 })

-- The loop of `merge_free` over the free blocks, and how many nodes it gave to `free_node`.
pub merge : Node → List Node → List Node × ℕ
merge node [] = (node ∷ [], 0)
merge node (entry ∷ l) =
    let below = merge (record { ptr = entry.ptr; size = node.size + entry.size }) l in
    let above = merge (record node { size = node.size + entry.size }) l in
    let later = merge node l in
    if entry.ptr + entry.size == node.ptr
    then (below.0, below.1 + 1)
    else if node.ptr + node.size == entry.ptr
    then (above.0, above.1 + 1)
    else if ltb node.ptr entry.ptr
    then (node ∷ entry ∷ l, 0)
    else (entry ∷ later.0, later.1)

pub merge_free : Node → Heap → Heap
unfolding merge
merge_free node h =
    let r = merge node h.m_free in record h { m_free = r.0; m_free_node = h.m_free_node + r.1 }

-- The first free block that is large enough, and the others.
pub first_fit : ℕ → List Node → Option (Node × List Node)
first_fit size [] = none
first_fit size (pos ∷ l) =
    let later = first_fit size l in
    if leb size pos.size
    then some (pos, l)
    else elim later [ none ↦ none | some (node, rest) ↦ some (node, pos ∷ rest) ]

-- What `malloc` does with the block it found: the end that is not needed is free again. Without a
-- node for that end it returns NULL.
pub hand_out : (ℕ → Bool) → ℕ → Node → Heap → ℕ × Heap
unfolding alloc_node merge_free
hand_out granted size node h =
    if ltb size node.size
    then elim (alloc_node granted h) [
      | none ↦ (0, h)
      | some h1 ↦
          let h2 = merge_free (record { ptr = node.ptr + size; size = node.size - size }) h1 in
          (node.ptr, record h2 { m_busy = h2.m_busy ++ record node { size = size } ∷ [] })
    ]
    else (node.ptr, record h { m_busy = h.m_busy ++ node ∷ [] })

-- `(size + 0x7) & ~0x7`
abbrev pub round_up : ℕ → ℕ
round_up size = (size + 7) % 2 ^ 64 / 8 * 8

abbrev pub brk_size : ℕ → ℕ
brk_size size = if ltb each_brk size then size else each_brk

-- `none` is the write through `node`, which is NULL if there is no node for a new block.
pub malloc : (ℕ → Bool) → ℕ → Heap → Option (ℕ × Heap)
unfolding first_fit hand_out sbrk alloc_node
malloc granted bytes h =
    let size = round_up bytes in
    elim (first_fit size h.m_free) [
      | some (node, rest) ↦ some (hand_out granted size node (record h { m_free = rest }))
      | none ↦ elim (alloc_node granted h) [
        | none ↦ none
        | some h1 ↦
            let r = sbrk granted (brk_size size) h1 in
            if r.0 == 0
            then some (0, r.1)
            else some (hand_out granted size (record { ptr = r.0; size = brk_size size }) r.1)
      ]
    ]

-- The first block in use that starts at `ptr`, and the others.
pub find_busy : ℕ → List Node → Option (Node × List Node)
find_busy ptr [] = none
find_busy ptr (pos ∷ l) =
    let later = find_busy ptr l in
    if pos.ptr == ptr
    then some (pos, l)
    else elim later [ none ↦ none | some (node, rest) ↦ some (node, pos ∷ rest) ]

pub free : ℕ → Heap → Heap
unfolding find_busy merge_free
free ptr h = if ptr == 0 then h else elim (find_busy ptr h.m_busy) [
  | none ↦ h
  | some (node, rest) ↦ merge_free node (record h { m_busy = rest })
]
