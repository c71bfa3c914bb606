-- ===== src/Heap/Malloc.antt =====
-- `malloc` of src/libc/malloc.c: the bytes that it hands out.
use fat.Prelude.{
  ℕ, ◌+◌, ◌^◌, ◌<◌, ◌≤◌, ◌≡◌, ◌≢◌, Bool, Option, none, some, List, ◌==◌, arith, refl, ap, sym,
  subst, ◌∙◌, dec_lt, Bool-cases, Option-cases, inl, inr,
}
use fat.Heap.{
  Node, Heap, sbrk, alloc_node, first_fit, hand_out, malloc, round_up, brk_size, each_brk,
}
use fat.Heap.Blocks.{inside, holders, first_fit-Takes}
use fat.Heap.Grow.{Grew, sbrk-Grew, sbrk-fresh, alloc_node-MayGrow}
use fat.Heap.HandOut.{IsHeap, Spare, Allocated, hand_out-Allocated}

-- What `malloc` gave: the fault, NULL, or a block.
abbrev IsResult : ℕ → Heap → Option (ℕ × Heap) → Type 0
IsResult size h none = Unit {0}
IsResult size h (some (p, h')) = p ≢ 0 → Allocated size p h h'

hand_out-IsResult :
    (granted : ℕ → Bool) (size : ℕ) (node : Node) (h h1 : Heap)
    → h1._brk + 0x8000 < 2 ^ 64
    → size ≤ node.size
    → IsHeap h
    → Spare node h h1
    → IsResult size h (some (hand_out granted size node h1))
hand_out-IsResult granted size node h h1 room fits i s n =
    let (a, e) = hand_out-Allocated granted size node h h1 room fits i s n in
    subst (λ p. Allocated size p h (hand_out granted size node h1).1) (sym e) a

taken-Spare :
    (node : Node) (rest : List Node) (h : Heap)
    → IsHeap h
    → ((x : ℕ) → holders x h.m_free ≡ inside node.ptr node.size x + holders x rest)
    → Spare node h (record h { m_free = rest })
taken-Spare node rest h i t = record {
  same_busy = refl;
  up = omega arith;
  ends = λ x l. omega (arith, t x, i.below x l);
  once = λ x. omega (arith, t x, i.apart x);
  old = λ x l. sym (t x);
}

inside_before : (p n x : ℕ) → x < p → inside p n x ≡ 0
inside_before p n x l = ground (arith, l)

inside_after : (p n x : ℕ) → p + n ≤ x → inside p n x ≡ 0
inside_after p n x l = ground (arith, l)

inside_once : (p n x : ℕ) → inside p n x ≤ 1
inside_once p n x = ground arith

fresh-Spare :
    (granted : ℕ → Bool) (size : ℕ) (h h1 : Heap)
    → h1._brk + size < 2 ^ 64
    → IsHeap h
    → Grew 0x8000 h h1
    → (sbrk granted size h1).0 ≢ 0
    → Spare (record { ptr = (sbrk granted size h1).0; size = size }) h (sbrk granted size h1).1
fresh-Spare granted size h h1 room i g n =
    let r = sbrk granted size h1 in
    let (p, b) = sbrk-fresh granted size h1 room n in
    let g' = sbrk-Grew granted size h1 room in
    let free : (x : ℕ) → holders x r.1.m_free ≡ holders x h.m_free =
      λ x. ap (holders x) (g'.m_free ∙ g.m_free) in
    let busy : (x : ℕ) → holders x r.1.m_busy ≡ holders x h.m_busy =
      λ x. ap (holders x) (g'.m_busy ∙ g.m_busy) in
    record {
      same_busy = g'.m_busy ∙ g.m_busy;
      up = omega (arith, g.up, g'.up);
      ends = λ x l. omega (
        arith,
        inside_after r.0 size x (omega (arith, p, b, l)),
        free x,
        i.below x (omega (arith, g.up, b, l)),
      );
      once = λ x. elim (dec_lt x h._brk) [
        | yes l ↦
            omega (
              arith,
              inside_before r.0 size x (omega (arith, p, g.up, l)),
              free x,
              busy x,
              i.apart x,
            )
        | no l ↦ omega (arith, inside_once r.0 size x, free x, busy x, i.below x (omega (arith, l)))
      ];
      old = λ x l. omega (arith, inside_before r.0 size x (omega (arith, p, g.up, l)), free x);
    }

brk_size-fits : (size : ℕ) → (size ≤ brk_size size) × (brk_size size ≤ size + each_brk)
brk_size-fits size = ground arith

new_block-IsResult :
    (granted : ℕ → Bool) (size : ℕ) (h h1 : Heap)
    → h._brk + size + 0x20000 < 2 ^ 64
    → IsHeap h
    → Grew 0x8000 h h1
    → (sbrk granted (brk_size size) h1).0 ≢ 0
    → IsResult size h (
        some (
          hand_out granted size
            (record { ptr = (sbrk granted (brk_size size) h1).0; size = brk_size size })
            (sbrk granted (brk_size size) h1).1))
new_block-IsResult granted size h h1 room i g n =
    let (f, m) = brk_size-fits size in
    let fit : h1._brk + brk_size size < 2 ^ 64 = omega (arith, room, g.by, m) in
    let g' = sbrk-Grew granted (brk_size size) h1 fit in
    hand_out-IsResult granted size _ h _ (omega (arith, g'.by, g.by, m, room)) f i
      (fresh-Spare granted (brk_size size) h h1 fit i g n)

malloc-IsResult :
    (granted : ℕ → Bool) (bytes : ℕ) (h : Heap)
    → IsHeap h
    → h._brk + round_up bytes + 0x20000 < 2 ^ 64
    → IsResult (round_up bytes) h (malloc granted bytes h)
unfolding malloc
malloc-IsResult granted bytes h i room =
    let size = round_up bytes in
    let t = first_fit-Takes size h.m_free in
    elim (Option-cases (first_fit size h.m_free)) [
      | inr ((node, rest), e) ↦
          let (fits, b) = rw e at t in
          rw (malloc, e)
            (hand_out-IsResult granted size node h (record h { m_free = rest })
              (omega (arith, room)) fits i (taken-Spare node rest h i b))
      | inl e ↦
          rw (malloc, e)
            (elim (Option-cases (alloc_node granted h)) [
              | inl a ↦ rw a tt
              | inr (h1, a) ↦
                  let g = rw a at (alloc_node-MayGrow granted h (omega (arith, room))) in
                  rw a (elim (Bool-cases ((sbrk granted (brk_size size) h1).0 == 0)) [
                    | inl z ↦ rw z (λ n. absurd (n refl))
                    | inr z ↦
                        rw z (
                          new_block-IsResult granted size h h1 room i g (λ q. ground (arith, z, q)))
                  ])
            ])
    ]

-- When `malloc` returns an address that is not NULL, from a heap whose blocks are apart and below the
-- break, with room below 2 ^ 64: the block there, of the bytes asked for rounded up to 8, joins the
-- list of those in use at its end. Each of its bytes below the old break was free before and is not any more, no other
-- byte changes, and all blocks are apart and below the break again.
pub malloc-Allocated :
    (granted : ℕ → Bool) (bytes p : ℕ) (h h' : Heap)
    → IsHeap h
    → h._brk + round_up bytes + 0x20000 < 2 ^ 64
    → malloc granted bytes h ≡ some (p, h')
    → p ≢ 0
    → Allocated (round_up bytes) p h h'
malloc-Allocated granted bytes p h h' i room e n =
    (rw e at (malloc-IsResult granted bytes h i room)) n
