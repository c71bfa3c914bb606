-- ===== src/Buddy/Insert.antt =====
-- `block_insert` of src/mm/buddy.c.
use mathlib.Core.Option
use fat.Prelude.{
  ℕ, zero, suc, ◌+◌, ◌-◌, ◌%◌, ◌^◌, ◌≤◌, ◌<◌, ◌≡◌, arith, Option, some, List, [], ◌∷◌, ltb, length,
  Bool-cases, inl, inr, true, ltb→lt, ap, sym, subst, refl,
}
use fat.Buddy.{
  max_order, check_order, joins, Pass, inserted, merged, keep, insert_pass, insert_from, insert_at,
  block_insert,
}
use fat.Buddy.Order.{check_order_iff, pow2_pos}
use fat.Buddy.Cover.{within, cover, total, Chain, Chains, Chain-mono, within-join}

-- A pass over `l` with the block at `page`: the lists stay in order, and the pages are kept.
data PassOf (o page lb : ℕ) (l : List ℕ) : Pass → Type 0 where
  inserts :
      {l' : List ℕ}
      → Chain o lb l'
      → ((x : ℕ) → cover o l' x ≡ within o page x + cover o l x)
      → PassOf o page lb l (inserted l')
  merges :
      {p' : ℕ} {l' : List ℕ}
      → o < max_order - 1
      → p' % 2 ^ suc o ≡ 0
      → Chain o lb l'
      → ((x : ℕ) → within (suc o) p' x + cover o l' x ≡ within o page x + cover o l x)
      → PassOf o page lb l (merged p' l')

module _ {o page lb p : ℕ} {l : List ℕ} where
  keep-PassOf :
      {r : Pass}
      → lb ≤ p
      → p % 2 ^ o ≡ 0
      → PassOf o page (p + 2 ^ o) l r
      → PassOf o page lb (p ∷ l) (keep p r)
  unfolding keep
  keep-PassOf h a (inserts c e) = inserts (h, a, c) (λ x. omega (arith, e x))
  keep-PassOf h a (merges s b c e) = merges s b (h, a, c) (λ x. omega (arith, e x))

joins-facts :
    (o a b : ℕ)
    → joins o a b ≡ true
    → (o < max_order - 1) × (a + 2 ^ o ≡ b) × (suc o ≤ check_order a)
joins-facts o a b h = ground arith

-- Two buddies that `joins` accepts are one aligned block of the next order.
joins-merges :
    (o a b lb : ℕ) (page : ℕ) (l l' : List ℕ)
    → joins o a b ≡ true
    → Chain o lb l'
    → ((x : ℕ) → within o a x + within o b x + cover o l' x ≡ within o page x + cover o l x)
    → PassOf o page lb l (merged a l')
joins-merges o a b lb page l l' j c e =
    let (s, t, k) = joins-facts o a b j in
    merges s ((check_order_iff a (suc o) (omega arith)).0 k) c
      (λ x. omega (arith, within-join o a b x t, e x))

module _ (o page p : ℕ) (l : List ℕ)
    (apart : (x : ℕ) → within o page x + cover o (p ∷ l) x ≤ 1) where
  apart-tail : (x : ℕ) → within o page x + cover o l x ≤ 1
  apart-tail x = omega (arith, apart x)

  apart_below : p < page → p + 2 ^ o ≤ page
  apart_below h = ground (arith, apart page, pow2_pos o)

  apart_above : page ≤ p → page + 2 ^ o ≤ p
  apart_above h = ground (arith, apart p, pow2_pos o)

insert_pass-PassOf :
    (o page lb : ℕ) (l : List ℕ)
    → lb ≤ page
    → page % 2 ^ o ≡ 0
    → Chain o lb l
    → ((x : ℕ) → within o page x + cover o l x ≤ 1)
    → PassOf o page lb l (insert_pass o page l)
unfolding insert_pass
insert_pass-PassOf o page lb [] h a c apart = inserts (h, a, tt) (λ x. omega arith)
insert_pass-PassOf o page lb (p ∷ l) h a (lo, b, c) apart = elim (Bool-cases (joins o p page)) [
  | inl e ↦ rw e (
      joins-merges o p page lb page (p ∷ l) l e (Chain-mono o lb _ l (omega arith) c)
        (λ x. omega arith))
  | inr e ↦ rw e (elim (Bool-cases (joins o page p)) [
    | inl f ↦ rw f (
        joins-merges o page p lb page (p ∷ l) l f (Chain-mono o lb _ l (omega arith) c)
          (λ x. omega arith))
    | inr f ↦ rw f (elim (Bool-cases (ltb p page)) [
      | inl g ↦ rw g (
          keep-PassOf lo b (
            insert_pass-PassOf o page (p + 2 ^ o) l (apart_below o page p l apart (ltb→lt p page g))
              a c (apart-tail o page p l apart)))
      | inr g ↦
          rw g
            (inserts (h, a, (apart_above o page p l apart (ground arith), b, c)) (λ x. omega arith))
    ])
  ])
]

-- The lists from `block[o]` on after a block of order `m` went in: as many, in order, and with the
-- pages of the block.
pub record Inserted (o m page : ℕ) (ls ls' : List (List ℕ)) : Type 0 where
  pub same_length : length ls' ≡ length ls
  pub chains : Chains o ls'
  pub pages : (x : ℕ) → total o ls' x ≡ within m page x + total o ls x

abbrev pub Inserts : ℕ → ℕ → ℕ → List (List ℕ) → Option (List (List ℕ)) → Type 0
Inserts o m page ls r = (ls' : List (List ℕ)) × (r ≡ some ls') × Inserted o m page ls ls'

-- What holds of the lists from `block[o]` on before a block of order `m` goes in.
pub record CanInsert (o m page : ℕ) (ls : List (List ℕ)) : Type 0 where
  pub lists : o + length ls ≡ max_order
  pub aligned : page % 2 ^ m ≡ 0
  pub chains : Chains o ls
  pub apart : (x : ℕ) → within m page x + total o ls x ≤ 1

insert_from-Inserts :
    (o page : ℕ) (ls : List (List ℕ))
    → o < max_order
    → CanInsert o o page ls
    → Inserts o o page ls (insert_from o page ls)
unfolding insert_from
insert_from-Inserts o page [] s c = absurd (omega arith)
insert_from-Inserts o page (l ∷ ls) s c =
    go _
      (insert_pass-PassOf o page 0 l (omega arith) c.aligned c.chains.0
        (λ x. omega (arith, c.apart x)))
      (λ q. insert_from-Inserts (suc o) q ls)
  where
    go :
        (r : Pass)
        → PassOf o page 0 l r
        → ((q : ℕ)
            → suc o < max_order
            → CanInsert (suc o) (suc o) q ls
            → Inserts (suc o) (suc o) q ls (insert_from (suc o) q ls))
        → Inserts o o page (l ∷ ls) (elim r [
          | inserted l' ↦ some (l' ∷ ls)
          | merged page' l' ↦ Option.map (λ ls'. l' ∷ ls') (insert_from (suc o) page' ls)
        ])
    go _ (inserts {l'} c' e) rec = (
      l' ∷ ls,
      refl,
      record { same_length = refl; chains = (c', c.chains.1); pages = λ x. omega (arith, e x) },
    )
    go _ (merges {p'} {l'} t b c' e) rec =
        let (ls', eq, i) = rec p' (omega arith) (record {
          lists = omega (arith, c.lists);
          aligned = b;
          chains = c.chains.1;
          apart = λ x. omega (arith, e x, c.apart x);
        }) in
        (
          l' ∷ ls',
          ap (Option.map (λ k. l' ∷ k)) eq,
          record {
            same_length = ap suc i.same_length;
            chains = (c', i.chains);
            pages = λ x. omega (arith, e x, i.pages x);
          },
        )

insert_at-Inserts :
    (o k page : ℕ) (ls : List (List ℕ))
    → o + k < max_order
    → CanInsert o (o + k) page ls
    → Inserts o (o + k) page ls (insert_at o k page ls)
unfolding insert_at
insert_at-Inserts o zero page ls s c =
    let e : o + 0 ≡ o = omega arith in
    subst (λ m. Inserts o m page ls (insert_from o page ls)) (sym e)
      (insert_from-Inserts o page ls (omega arith) (subst (λ m. CanInsert o m page ls) e c))
insert_at-Inserts o (suc k) page [] s c = absurd (omega (arith, c.lists))
insert_at-Inserts o (suc k) page (l ∷ ls) s c =
    let e : suc o + k ≡ o + suc k = omega arith in
    let (ls', eq, i) =
      subst (λ m. Inserts (suc o) m page ls (insert_at (suc o) k page ls)) e
        (insert_at-Inserts (suc o) k page ls (omega arith) (
          subst (λ m. CanInsert (suc o) m page ls) (sym e)
            (record {
              lists = omega (arith, c.lists);
              aligned = c.aligned;
              chains = c.chains.1;
              apart = λ x. omega (arith, c.apart x);
            }))) in
    (
      l ∷ ls',
      ap (Option.map (λ k. l ∷ k)) eq,
      record {
        same_length = ap suc i.same_length;
        chains = (c.chains.0, i.chains);
        pages = λ x. omega (arith, i.pages x);
      },
    )

-- An aligned block of order below `MAX_ORDER`, apart from the free blocks, goes in without a fault:
-- the lists stay ascending, aligned and apart, and hold exactly the pages of before and its own.
pub block_insert-Inserts :
    (page order : ℕ) (block : List (List ℕ))
    → order < max_order
    → CanInsert 0 order page block
    → Inserts 0 order page block (block_insert page order block)
unfolding block_insert
block_insert-Inserts page order block s c =
    let e : 0 + order ≡ order = omega arith in
    subst (λ m. Inserts 0 m page block (insert_at 0 order page block)) e
      (insert_at-Inserts 0 order page block (omega arith)
        (subst (λ m. CanInsert 0 m page block) (sym e) c))
