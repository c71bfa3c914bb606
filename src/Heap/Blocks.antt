-- ===== src/Heap/Blocks.antt =====
-- The bytes that the lists of src/libc/malloc.c hold.
use fat.Prelude.{
  ℕ, ◌+◌, ◌≤◌, ◌≡◌, Option, none, some, List, [], ◌∷◌, ◌++◌, ◌==◌, ltb, leb, if◌then◌else◌, arith,
  refl, Bool-cases, inl, inr, ==_iff,
}
use fat.Heap.{Node, merge, first_fit, find_busy}

-- 1 for a byte of the block of `size` bytes at `ptr`, 0 for any other.
abbrev pub inside : ℕ → ℕ → ℕ → ℕ
inside ptr size x = if leb ptr x then (if ltb x (ptr + size) then 1 else 0) else 0

-- How many of the blocks hold the byte `x`.
abbrev pub holders : ℕ → List Node → ℕ
holders x [] = 0
holders x (node ∷ l) = inside node.ptr node.size x + holders x l

pub holders-append :
    (x : ℕ) (l : List Node) (node : Node)
    → holders x (l ++ node ∷ []) ≡ holders x l + inside node.ptr node.size x
holders-append x [] node = omega arith
holders-append x (n ∷ l) node = omega (arith, holders-append x l node)

inside-join : (p q s t x : ℕ) → p + s ≡ q → inside p (t + s) x ≡ inside q t x + inside p s x
inside-join p q s t x e = ground arith

inside-split : (p q s t x : ℕ) → p + s ≡ q → inside p (s + t) x ≡ inside p s x + inside q t x
inside-split p q s t x e = ground arith

-- `merge_free` neither loses nor doubles a byte, whatever the free blocks are.
pub merge-holders :
    (x : ℕ) (node : Node) (l : List Node)
    → holders x (merge node l).0 ≡ inside node.ptr node.size x + holders x l
unfolding merge
merge-holders x node [] = refl
merge-holders x node (entry ∷ l) = elim (Bool-cases (entry.ptr + entry.size == node.ptr)) [
  | inl e ↦ rw e (
      omega (
        arith,
        merge-holders x (record { ptr = entry.ptr; size = node.size + entry.size }) l,
        inside-join entry.ptr node.ptr entry.size node.size x ((==_iff _ _).0 e),
      ))
  | inr f ↦ rw f (elim (Bool-cases (node.ptr + node.size == entry.ptr)) [
    | inl e ↦ rw e (
        omega (
          arith,
          merge-holders x (record node { size = node.size + entry.size }) l,
          inside-split node.ptr entry.ptr node.size entry.size x ((==_iff _ _).0 e),
        ))
    | inr g ↦ rw g (elim (Bool-cases (ltb node.ptr entry.ptr)) [
      | inl e ↦ rw e refl
      | inr h ↦ rw h (omega (arith, merge-holders x node l))
    ])
  ])
]

-- Of the blocks `l` one that `good` holds of was taken out.
abbrev pub Takes : (Node → Type 0) → List Node → Option (Node × List Node) → Type 0
Takes good l none = Unit {0}
Takes good l (some (node, rest)) =
    good node × ((x : ℕ) → holders x l ≡ inside node.ptr node.size x + holders x rest)

Takes-later :
    (good : Node → Type 0) (pos : Node) (l : List Node) (o : Option (Node × List Node))
    → Takes good l o
    → Takes good (pos ∷ l) (elim o [ none ↦ none | some (node, rest) ↦ some (node, pos ∷ rest) ])
Takes-later good pos l none t = tt
Takes-later good pos l (some (node, rest)) (g, t) = (g, λ x. omega (arith, t x))

pub first_fit-Takes : (size : ℕ) (l : List Node) → Takes (λ n. size ≤ n.size) l (first_fit size l)
unfolding first_fit
first_fit-Takes size [] = tt
first_fit-Takes size (pos ∷ l) = elim (Bool-cases (leb size pos.size)) [
  | inl t ↦ rw t (ground (arith, t), λ x. refl)
  | inr f ↦ rw f (Takes-later _ pos l _ (first_fit-Takes size l))
]

find_busy-Takes : (ptr : ℕ) (l : List Node) → Takes (λ n. n.ptr ≡ ptr) l (find_busy ptr l)
unfolding find_busy
find_busy-Takes ptr [] = tt
find_busy-Takes ptr (pos ∷ l) = elim (Bool-cases (pos.ptr == ptr)) [
  | inl t ↦ rw t ((==_iff _ _).0 t, λ x. refl)
  | inr f ↦ rw f (Takes-later _ pos l _ (find_busy-Takes ptr l))
]
