-- ===== src/Heap/Examples.antt =====
-- Runs of src/libc/malloc.c, and its theorems there.
use fat.Prelude.{ℕ, ◌≡◌, Bool, true, some, [], ◌∷◌, arith, refl}
use fat.Heap.{
  Node, Heap, alloc_node, merge, merge_free, first_fit, find_busy, hand_out, malloc, free,
}
use fat.Heap.HandOut.{IsHeap, Allocated}
use fat.Heap.Malloc.{malloc-Allocated}
use fat.Heap.Free.{Restored, free-malloc}

abbrev node : ℕ → ℕ → Node
node ptr size = record { ptr = ptr; size = size }

-- Two free blocks around one in use.
abbrev small : Heap
small = record {
  m_free = node 4096 16 ∷ node 4144 100 ∷ [];
  m_busy = node 4112 32 ∷ [];
  m_free_node = 7;
  _brk = 8192;
}

abbrev granted : ℕ → Bool
granted a = true

-- What is left after a request for 33 bytes, which takes 40.
abbrev less : Heap
less = record {
  m_free = node 4096 16 ∷ node 4184 60 ∷ [];
  m_busy = node 4112 32 ∷ node 4144 40 ∷ [];
  m_free_node = 6;
  _brk = 8192;
}

takes_second : malloc granted 33 small ≡ some (4144, less)
unfolding malloc first_fit hand_out alloc_node merge_free merge
takes_second = refl

merges_back : (free 4112 less).m_free ≡ node 4096 48 ∷ node 4184 60 ∷ []
unfolding free find_busy merge_free merge
merges_back = refl

small-IsHeap : IsHeap small
small-IsHeap = record { apart = λ x. ground arith; below = λ x l. ground (arith, l) }

malloc-Allocated_example : Allocated 40 4144 small less
malloc-Allocated_example =
    malloc-Allocated granted 33 4144 small less small-IsHeap (omega arith) takes_second
      (omega arith)

free-malloc_example : Restored small (free 4144 less)
free-malloc_example =
    free-malloc granted 33 4144 small less small-IsHeap (omega arith, tt) (omega arith)
      (omega arith) takes_second (omega arith)
