-- ===== src/Heap/Free.antt =====
-- `free` of src/libc/malloc.c, after `malloc`.
use fat.Prelude.{
  ℕ, ◌+◌, ◌^◌, ◌<◌, ◌≡◌, ◌≢◌, Bool, false, some, List, [], ◌∷◌, ◌++◌, ◌==◌, arith, refl, ap, ◌∙◌,
  ==_iff,
}
use fat.Heap.{Node, Heap, merge_free, find_busy, malloc, free, round_up}
use fat.Heap.Blocks.{inside, holders, holders-append, merge-holders}
use fat.Heap.HandOut.{IsHeap}
use fat.Heap.Malloc.{malloc-Allocated}

inside_self : (p n : ℕ) → 0 < n → inside p n p ≡ 1
inside_self p n l = ground (arith, l)

-- Blocks that are not empty.
abbrev AllSized : List Node → Type 0
AllSized [] = Unit {0}
AllSized (node ∷ l) = (0 < node.size) × AllSized l

find_busy-last :
    (l : List Node) (node : Node)
    → AllSized l
    → holders node.ptr l ≡ 0
    → find_busy node.ptr (l ++ node ∷ []) ≡ some (node, l)
unfolding find_busy
find_busy-last [] node s h = rw ((==_iff node.ptr node.ptr).1 refl) refl
find_busy-last (n ∷ l) node s h =
    let other : (n.ptr == node.ptr) ≡ false = ground (arith, h, s.0) in
    rw other (rw (find_busy-last l node s.1 (omega (arith, h))) refl)

-- `h2` holds the bytes that `h` held, each as often.
pub record Restored (h h2 : Heap) : Type 0 where
  pub sound : IsHeap h2
  pub busy : h2.m_busy ≡ h.m_busy
  pub free : (x : ℕ) → x < h._brk → holders x h2.m_free ≡ holders x h.m_free

-- If `malloc` of at least one byte returned an address that is not NULL, `free` of it gives the block
-- back: the list of blocks in use is as before, every byte below the old break is free exactly if it
-- was, and the blocks are apart and below the break. The heap before has room below 2 ^ 64, its
-- blocks are apart and below the break, and none of those in use is empty.
pub free-malloc :
    (granted : ℕ → Bool) (bytes p : ℕ) (h h' : Heap)
    → IsHeap h
    → AllSized h.m_busy
    → 0 < round_up bytes
    → h._brk + round_up bytes + 0x20000 < 2 ^ 64
    → malloc granted bytes h ≡ some (p, h')
    → p ≢ 0
    → Restored h (free p h')
unfolding free merge_free
free-malloc granted bytes p h h' i s z room e n =
    let a = malloc-Allocated granted bytes p h h' i room e n in
    let node : Node = record { ptr = p; size = round_up bytes } in
    let busy : (x : ℕ) → holders x h'.m_busy ≡ holders x h.m_busy + inside p (round_up bytes) x =
      λ x. ap (holders x) a.now_busy ∙ holders-append x h.m_busy node in
    let once : holders p h.m_busy ≡ 0 =
      omega (arith, busy p, inside_self p (round_up bytes) z, a.sound.apart p) in
    let found : find_busy p h'.m_busy ≡ some (node, h.m_busy) =
      ap (find_busy p) a.now_busy ∙ find_busy-last h.m_busy node s once in
    let zero : (p == 0) ≡ false = ground (arith, n) in
    rw zero (
      rw found (record {
        sound = record {
          apart = λ x. omega (arith, merge-holders x node h'.m_free, busy x, a.sound.apart x);
          below = λ x l. omega (arith, merge-holders x node h'.m_free, busy x, a.sound.below x l);
        };
        busy = refl;
        free = λ x l. omega (arith, merge-holders x node h'.m_free, a.was_free x l);
      }))
