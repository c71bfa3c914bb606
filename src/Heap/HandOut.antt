-- ===== src/Heap/HandOut.antt =====
-- `hand_out` of src/libc/malloc.c: the block it is given, and the end of it that stays free.
use fat.Prelude.{
  ℕ, ◌+◌, ◌-◌, ◌^◌, ◌<◌, ◌≤◌, ◌≡◌, ◌≢◌, Bool, false, [], ◌∷◌, ◌++◌, ltb, arith, refl, ap, sym, ◌∙◌,
  Bool-cases, Option-cases, inl, inr,
}
use fat.Heap.{Node, Heap, alloc_node, merge_free, hand_out}
use fat.Heap.Blocks.{inside, holders, holders-append, merge-holders}
use fat.Heap.Grow.{Grew, alloc_node-MayGrow}

-- No byte is in two blocks, and none at or above the break is in any.
pub record IsHeap (h : Heap) : Type 0 where
  pub apart : (x : ℕ) → holders x h.m_free + holders x h.m_busy ≤ 1
  pub below : (x : ℕ) → h._brk ≤ x → holders x h.m_free + holders x h.m_busy ≡ 0

-- The bytes of `node` were free or above the break of `h`; `h1` no longer has them as free.
pub record Spare (node : Node) (h h1 : Heap) : Type 0 where
  pub same_busy : h1.m_busy ≡ h.m_busy
  pub up : h._brk ≤ h1._brk
  pub ends : (x : ℕ) → h1._brk ≤ x → inside node.ptr node.size x + holders x h1.m_free ≡ 0
  pub once : (x : ℕ) → holders x h1.m_free + holders x h1.m_busy + inside node.ptr node.size x ≤ 1
  pub old :
      (x : ℕ) → x < h._brk → inside node.ptr node.size x + holders x h1.m_free ≡ holders x h.m_free

-- `malloc` handed out the block of `size` bytes at `p`.
pub record Allocated (size p : ℕ) (h h' : Heap) : Type 0 where
  pub sound : IsHeap h'
  pub now_busy : h'.m_busy ≡ h.m_busy ++ record { ptr = p; size = size } ∷ []
  pub was_free : (x : ℕ) → x < h._brk → holders x h'.m_free + inside p size x ≡ holders x h.m_free

inside-part : (p s n x : ℕ) → n ≤ s → inside p s x ≡ inside p n x + inside (p + n) (s - n) x
inside-part p s n x l = ground arith

module _ (granted : ℕ → Bool) (size : ℕ) (node : Node) (h h1 : Heap)
    (room : h1._brk + 0x8000 < 2 ^ 64) (fits : size ≤ node.size) (i : IsHeap h)
    (s : Spare node h h1) where
  finish :
      (h' : Heap)
      → ((x : ℕ)
          → holders x h'.m_free + inside node.ptr size x
            ≡ holders x h1.m_free + inside node.ptr node.size x)
      → h'.m_busy ≡ h1.m_busy ++ record { ptr = node.ptr; size = size } ∷ []
      → h1._brk ≤ h'._brk
      → Allocated size node.ptr h h'
  finish h' f e u =
      let b : (x : ℕ) → holders x h'.m_busy ≡ holders x h1.m_busy + inside node.ptr size x =
        λ x. ap (holders x) e ∙ holders-append x h1.m_busy _ in
      let same : (x : ℕ) → holders x h1.m_busy ≡ holders x h.m_busy =
        λ x. ap (holders x) s.same_busy in
      record {
        sound = record {
          apart = λ x. omega (arith, f x, b x, s.once x);
          below = λ x l. omega (
            arith,
            f x,
            b x,
            same x,
            s.ends x (omega (arith, u, l)),
            i.below x (omega (arith, s.up, u, l)),
          );
        };
        now_busy = e ∙ ap (λ l. l ++ record { ptr = node.ptr; size = size } ∷ []) s.same_busy;
        was_free = λ x l. omega (arith, f x, s.old x l);
      }

  -- The end of the block that is not needed.
  abbrev reminder : Node
  reminder = record { ptr = node.ptr + size; size = node.size - size }

  split-Allocated :
      (h2 : Heap)
      → Grew 0x8000 h1 h2
      → Allocated size node.ptr h (record (merge_free reminder h2) {
        m_busy = (merge_free reminder h2).m_busy ++ record node { size = size } ∷ [];
      })
  unfolding merge_free
  split-Allocated h2 g =
      finish _
        (λ x. omega (
          arith,
          merge-holders x reminder h2.m_free,
          ap (holders x) g.m_free,
          inside-part node.ptr node.size size x fits,
        ))
        (ap (λ l. l ++ record { ptr = node.ptr; size = size } ∷ []) g.m_busy) g.up

  whole-Allocated :
      ltb size node.size ≡ false
      → Allocated size node.ptr h (record h1 { m_busy = h1.m_busy ++ node ∷ [] })
  whole-Allocated f =
      let e : node.size ≡ size = ground (arith, f, fits) in
      finish _ (λ x. ap (λ n. holders x h1.m_free + inside node.ptr n x) (sym e))
        (ap (λ n. h1.m_busy ++ record { ptr = node.ptr; size = n } ∷ []) e) (omega arith)

  pub hand_out-Allocated :
      (hand_out granted size node h1).0 ≢ 0
      → Allocated size node.ptr h (hand_out granted size node h1).1
        × ((hand_out granted size node h1).0 ≡ node.ptr)
  unfolding hand_out
  hand_out-Allocated n = elim (Bool-cases (ltb size node.size)) [
    | inr f ↦ rw (hand_out, f) (whole-Allocated f, refl)
    | inl t ↦ elim (Option-cases (alloc_node granted h1)) [
      | inl e ↦ absurd (n (rw (hand_out, t) (rw e refl)))
      | inr (h2, e) ↦
          rw (hand_out, t)
            (rw e (split-Allocated h2 (rw e at (alloc_node-MayGrow granted h1 room)), refl))
    ]
  ]
