-- ===== src/Heap/Grow.antt =====
-- `sbrk` and `alloc_node` of src/libc/malloc.c: how far they move the break.
use fat.Prelude.{
  ℕ, ◌+◌, ◌*◌, ◌^◌, ◌<◌, ◌≤◌, ◌≡◌, ◌≢◌, Bool, Option, none, some, ◌==◌, arith, refl, Bool-cases,
  inl, inr,
}
use fat.Heap.{Heap, sbrk, alloc_node, node_inc_size, node_size}

-- Only the break moved, up by at most `n`.
pub record Grew (n : ℕ) (h h' : Heap) : Type 0 where
  pub m_free : h'.m_free ≡ h.m_free
  pub m_busy : h'.m_busy ≡ h.m_busy
  pub up : h._brk ≤ h'._brk
  pub by : h'._brk ≤ h._brk + n

-- What a call of `sbrk` or `alloc_node` may have done.
abbrev MayGrow : ℕ → Heap → Option Heap → Type 0
MayGrow n h none = Unit {0}
MayGrow n h (some h') = Grew n h h'

module _ (granted : ℕ → Bool) where
  pub sbrk-Grew :
      (size : ℕ) (h : Heap) → h._brk + size < 2 ^ 64 → Grew size h (sbrk granted size h).1
  unfolding sbrk
  sbrk-Grew size h l = record {
    m_free = ground arith;
    m_busy = ground arith;
    up = ground arith;
    by = ground arith;
  }

  pub sbrk-fresh :
      (size : ℕ) (h : Heap)
      → h._brk + size < 2 ^ 64
      → (sbrk granted size h).0 ≢ 0
      → ((sbrk granted size h).0 ≡ h._brk) × ((sbrk granted size h).1._brk ≡ h._brk + size)
  unfolding sbrk
  sbrk-fresh size h l n = ground (arith, l, n)

  pub alloc_node-MayGrow :
      (h : Heap) → h._brk + 0x8000 < 2 ^ 64 → MayGrow 0x8000 h (alloc_node granted h)
  unfolding alloc_node
  alloc_node-MayGrow h l = elim (Bool-cases (h.m_free_node == 0)) [
    | inl t ↦
        let r = sbrk granted (node_inc_size * node_size) h in
        let g = sbrk-Grew (node_inc_size * node_size) h l in
        rw t (elim (Bool-cases (r.0 == 0)) [
          | inl t ↦ rw t tt
          | inr f ↦ rw f (record { m_free = g.m_free; m_busy = g.m_busy; up = g.up; by = g.by })
        ])
    | inr f ↦ rw f (record { m_free = refl; m_busy = refl; up = omega arith; by = omega arith })
  ]
