-- ===== src/Buddy/Build.antt =====
-- Free lists that are filled from low pages to high ones, as `buddy_system_init` of src/mm/buddy.c
-- fills them.
use native.Mathlib.Nat.{
  add-zero, add-mul-mod_self_left, mod-eq_of_lt, mod-lt, div-add-mod, add-mod_right,
}
use fat.Prelude.{
  ℕ, zero, suc, ◌+◌, ◌*◌, ◌/◌, ◌%◌, ◌^◌, ◌≤◌, ◌<◌, ◌≡◌, arith, List, [], ◌∷◌, ◌++◌, ltb, leb, ◌&&◌,
  if◌then◌else◌, length, Bool-cases, inl, inr, ap, subst, refl, ◌∙◌, ==_iff,
}
use fat.Buddy.{append_at, bit, add_bits}
use fat.Buddy.Order.{pow2-suc, pow2_pos, mod_mono}
use fat.Buddy.Cover.{within, cover, total, Chain, Chains}

-- 1 if `x` is one of the `n` pages from `left` on.
abbrev pub span : ℕ → ℕ → ℕ → ℕ
span left n x = if leb left x && ltb x (left + n) then 1 else 0

-- Every block of the lists from `block[o]` on ends at `hi` or before.
abbrev Ends : ℕ → ℕ → List ℕ → Type 0
Ends o hi [] = Unit {0}
Ends o hi (p ∷ l) = (p + 2 ^ o ≤ hi) × Ends o hi l

abbrev AllEnd : ℕ → ℕ → List (List ℕ) → Type 0
AllEnd o hi [] = Unit {0}
AllEnd o hi (l ∷ ls) = Ends o hi l × AllEnd (suc o) hi ls

Ends-mono : (o m n : ℕ) (l : List ℕ) → m ≤ n → Ends o m l → Ends o n l
Ends-mono o m n [] h e = tt
Ends-mono o m n (p ∷ l) h e = (omega arith, Ends-mono o m n l h e.1)

pub AllEnd-mono : (o m n : ℕ) (ls : List (List ℕ)) → m ≤ n → AllEnd o m ls → AllEnd o n ls
AllEnd-mono o m n [] h e = tt
AllEnd-mono o m n (l ∷ ls) h e = (Ends-mono o m n l h e.0, AllEnd-mono (suc o) m n ls h e.1)

Chain-append :
    (o lb p : ℕ) (l : List ℕ)
    → lb ≤ p
    → p % 2 ^ o ≡ 0
    → Ends o p l
    → Chain o lb l
    → Chain o lb (l ++ p ∷ [])
Chain-append o lb p [] h a e c = (h, a, tt)
Chain-append o lb p (q ∷ l) h a e c = (c.0, c.1, Chain-append o (q + 2 ^ o) p l e.0 a e.1 c.2)

Ends-append : (o hi p : ℕ) (l : List ℕ) → p + 2 ^ o ≤ hi → Ends o hi l → Ends o hi (l ++ p ∷ [])
Ends-append o hi p [] h e = (h, tt)
Ends-append o hi p (q ∷ l) h e = (e.0, Ends-append o hi p l h e.1)

cover-append : (o p x : ℕ) (l : List ℕ) → cover o (l ++ p ∷ []) x ≡ within o p x + cover o l x
cover-append o p x [] = omega arith
cover-append o p x (q ∷ l) = omega (arith, cover-append o p x l)

-- The lists while the pages below `hi` have been dealt with.
pub record Built (o hi : ℕ) (ls : List (List ℕ)) : Type 0 where
  pub chains : Chains o ls
  pub ends : AllEnd o hi ls

-- `ls'` has the pages of `ls` and the `n` from `left` on.
pub record Adds (o left n : ℕ) (ls ls' : List (List ℕ)) : Type 0 where
  pub same_length : length ls' ≡ length ls
  pub built : Built o (left + n) ls'
  pub pages : (x : ℕ) → total o ls' x ≡ span left n x + total o ls x

pub append_at-Adds :
    (o i m left : ℕ) (ls : List (List ℕ))
    → m ≡ o + i
    → i < length ls
    → left % 2 ^ m ≡ 0
    → Built o left ls
    → Adds o left (2 ^ m) ls (append_at i left ls)
unfolding append_at
append_at-Adds o i m left [] e h a b = absurd (omega arith)
append_at-Adds o zero m left (l ∷ ls) e h a b =
    let f : m ≡ o = omega arith in
    rw f (record {
      same_length = refl;
      built = record {
        chains =
            (Chain-append o 0 left l (omega arith) (rw f at a) b.ends.0 b.chains.0, b.chains.1);
        ends = (
          Ends-append o _ left l (omega arith) (Ends-mono o left _ l (omega arith) b.ends.0),
          AllEnd-mono (suc o) left _ ls (omega arith) b.ends.1,
        );
      };
      pages = λ x. omega (arith, cover-append o left x l);
    })
append_at-Adds o (suc i) m left (l ∷ ls) e h a b =
    let r =
      append_at-Adds (suc o) i m left ls (omega arith) (omega arith) a
        (record { chains = b.chains.1; ends = b.ends.1 }) in
    record {
      same_length = ap suc r.same_length;
      built = record {
        chains = (b.chains.0, r.built.chains);
        ends = (Ends-mono o left _ l (omega arith) b.ends.0, r.built.ends);
      };
      pages = λ x. omega (arith, r.pages x);
    }

-- The bits of `count` below `i + 1` are bit `i` and those below.
low-suc : (count m : ℕ) → 0 < m → count % (m + m) ≡ (count / m) % 2 * m + count % m
low-suc count m h =
    let q = count / m in
    let r = q % 2 * m + count % m in
    let small : r < m + m = grind (arith, mod-lt q {m = 2}, mod-lt count {m = m}) in
    let e : count ≡ r + (m + m) * (q / 2) =
      omega (arith, div-add-mod count m, ap (λ (t : ℕ). t * m) (div-add-mod q 2)) in
    ap (λ n. n % (m + m)) e ∙ add-mul-mod_self_left r (m + m) (q / 2) ∙ mod-eq_of_lt small

Adds-refl : (o left : ℕ) (ls : List (List ℕ)) → Built o left ls → Adds o left 0 ls ls
Adds-refl o left ls b = record {
  same_length = refl;
  built = rw add-zero b;
  pages = λ x. ground arith;
}

Adds-trans :
    (o left n m : ℕ) {k : ℕ} {ls ls' ls'' : List (List ℕ)}
    → k ≡ n + m
    → Adds o left n ls ls'
    → Adds o (left + n) m ls' ls''
    → Adds o left k ls ls''
Adds-trans o left n m {ls''} e r s = rw e (record {
  same_length = s.same_length ∙ r.same_length;
  built =
      subst (λ h. Built o h ls'') (let f : left + n + m ≡ left + (n + m) = omega arith in f)
        s.built;
  pages = λ x. ground (arith, r.pages x, s.pages x);
})

pub add_bits-Adds :
    (k count left : ℕ) (block : List (List ℕ))
    → k ≤ length block
    → left % 2 ^ k ≡ 0
    → Built 0 left block
    → Adds 0 left (count % 2 ^ k) block (add_bits k count left block)
unfolding add_bits
add_bits-Adds zero count left block h a b =
    rw (let e : count % 1 ≡ 0 = omega arith in e) (Adds-refl 0 left block b)
add_bits-Adds (suc i) count left block h a b =
    let m = 2 ^ i in
    let sum : count % 2 ^ suc i ≡ count / m % 2 * m + count % m =
      ap (λ n. count % n) (pow2-suc i) ∙ low-suc count m (pow2_pos i) in
    let a' : left % m ≡ 0 = mod_mono i (suc i) left (omega arith) a in
    elim (Bool-cases (bit count i)) [
      | inl e ↦
          let r = append_at-Adds 0 i i left block (omega arith) (omega arith) a' b in
          rw e (
            Adds-trans 0 left m (count % m)
              (omega (arith, sum, ap (λ (t : ℕ). t * m) ((==_iff _ _).0 e))) r
              (add_bits-Adds i count (left + m) (append_at i left block)
                (omega (arith, r.same_length)) (add-mod_right left m ∙ a') r.built))
      | inr e ↦ rw e (
          Adds-trans 0 left 0 (count % m)
            (omega
              (arith, sum, ap (λ (t : ℕ). t * m) (let z : count / m % 2 ≡ 0 = ground arith in z)))
            (Adds-refl 0 left block b)
            (rw add-zero (add_bits-Adds i count left block (omega arith) a' b)))
    ]
