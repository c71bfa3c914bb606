-- ===== src/Buddy/Cover.antt =====
-- The pages that free blocks hold, counted page by page, and when free lists are in order.
use fat.Prelude.{
  ℕ, suc, ◌+◌, ◌%◌, ◌^◌, ◌≤◌, ◌≡◌, arith, List, [], ◌∷◌, ltb, leb, ◌&&◌, if◌then◌else◌,
}
use fat.Buddy.Order.{pow2-suc, pow2_pos}

-- 1 if the block of order `o` at `p` holds page `x`.
abbrev pub within : ℕ → ℕ → ℕ → ℕ
within o p x = if leb p x && ltb x (p + 2 ^ o) then 1 else 0

-- How many blocks of `l`, all of order `o`, hold page `x`.
abbrev pub cover : ℕ → List ℕ → ℕ → ℕ
cover o [] x = 0
cover o (p ∷ l) x = within o p x + cover o l x

-- How many blocks of the lists `block[o]`, `block[o + 1]`, … hold page `x`.
abbrev pub total : ℕ → List (List ℕ) → ℕ → ℕ
total o [] x = 0
total o (l ∷ ls) x = cover o l x + total (suc o) ls x

-- The blocks of `l` are aligned, in ascending order, apart, and not below `lb`.
abbrev pub Chain : ℕ → ℕ → List ℕ → Type 0
Chain o lb [] = Unit {0}
Chain o lb (p ∷ l) = (lb ≤ p) × (p % 2 ^ o ≡ 0) × Chain o (p + 2 ^ o) l

abbrev pub Chains : ℕ → List (List ℕ) → Type 0
Chains o [] = Unit {0}
Chains o (l ∷ ls) = Chain o 0 l × Chains (suc o) ls

pub Chain-mono : (o m n : ℕ) (l : List ℕ) → m ≤ n → Chain o n l → Chain o m l
Chain-mono o m n [] h c = tt
Chain-mono o m n (p ∷ l) h c = (omega arith, c.1, c.2)

-- Two buddies are the block that they merge to.
pub within-join : (o p q x : ℕ) → p + 2 ^ o ≡ q → within (suc o) p x ≡ within o p x + within o q x
within-join o p q x h = ground (arith, pow2-suc o, pow2_pos o)

within_self : (o p : ℕ) → within o p p ≡ 1
within_self o p = ground (arith, pow2_pos o)
