-- ===== src/Buddy/Alloc.antt =====
-- `__alloc_pages` of src/mm/buddy.c: the search for a block and its split.
use mathlib.Core.Option
use native.Mathlib.Nat.{add-mod_right, add-zero, add-suc, zero-add}
use fat.Prelude.{
  ℕ, zero, suc, ◌+◌, ◌%◌, ◌^◌, ◌≤◌, ◌<◌, ◌≡◌, arith, Option, none, some, List, [], ◌∷◌, leb, leb→le,
  length, Bool-cases, inl, inr, ◌⊎◌, ap, subst, refl, drop, ◌∙◌,
}
use fat.Buddy.{Buddy, max_order, find_from, find_block, split, alloc_block, block_insert}
use fat.Buddy.Order.{mod_mono}
use fat.Buddy.Cover.{within, cover, total, Chains, Chain-mono, within-join}
use fat.Buddy.Insert.{CanInsert, block_insert-Inserts}

-- The free lists are eight, ascending and aligned, and no page is in two free blocks.
pub record IsSound (block : List (List ℕ)) : Type 0 where
  pub lists : length block ≡ max_order
  pub chains : Chains 0 block
  pub apart : (x : ℕ) → total 0 block x ≤ 1

abbrev pub AllEmpty : List (List ℕ) → Type 0
AllEmpty [] = Unit {0}
AllEmpty (l ∷ ls) = (l ≡ []) × AllEmpty ls

-- A free block taken off the lists from `block[o]` on.
record Taken (o m page : ℕ) (ls ls' : List (List ℕ)) : Type 0 where
  same_length : length ls' ≡ length ls
  in_range : m < o + length ls
  aligned : page % 2 ^ m ≡ 0
  chains : Chains o ls'
  pages : (x : ℕ) → total o ls x ≡ within m page x + total o ls' x

abbrev Takes : ℕ → ℕ → List (List ℕ) → Option (ℕ × ℕ × List (List ℕ)) → Type 0
Takes o k ls none = AllEmpty (drop k ls)
Takes o k ls (some (d, page, ls')) = Taken o (o + k + d) page ls ls'

find_from-Takes : (o : ℕ) (ls : List (List ℕ)) → Chains o ls → Takes o 0 ls (find_from ls)
unfolding find_from
find_from-Takes o [] c = tt
find_from-Takes o ([] ∷ ls) c = go _ (find_from-Takes (suc o) ls c.1)
  where
    go :
        (r : Option (ℕ × ℕ × List (List ℕ)))
        → Takes (suc o) 0 ls r
        → Takes o 0 ([] ∷ ls) (Option.map (λ r. (suc r.0, r.1, [] ∷ r.2)) r)
    go none e = (refl, e)
    go (some (d, page, ls')) t =
        subst (λ m. Taken o m page ([] ∷ ls) ([] ∷ ls'))
          (let e : suc o + 0 + d ≡ o + 0 + suc d = omega arith in e)
          (record {
            same_length = ap suc t.same_length;
            in_range = omega (arith, t.in_range);
            aligned = t.aligned;
            chains = (tt, t.chains);
            pages = λ x. omega (arith, t.pages x);
          })
find_from-Takes o ((p ∷ l) ∷ ls) c = record {
  same_length = refl;
  in_range = omega arith;
  aligned = subst (λ m. p % 2 ^ m ≡ 0) e c.0.1;
  chains = (Chain-mono o 0 _ l (omega arith) c.0.2, c.1);
  pages = λ x.
      subst
        (λ m.
          within o p x + cover o l x + total (suc o) ls x
          ≡ within m p x + (cover o l x + total (suc o) ls x))
        e (omega arith);
}
  where
    e : o ≡ o + 0 + 0
    e = omega arith

find_block-Takes : (o k : ℕ) (ls : List (List ℕ)) → Chains o ls → Takes o k ls (find_block k ls)
unfolding find_block
find_block-Takes o zero ls c = find_from-Takes o ls c
find_block-Takes o (suc k) [] c = tt
find_block-Takes o (suc k) (l ∷ ls) c = go _ (find_block-Takes (suc o) k ls c.1)
  where
    go :
        (r : Option (ℕ × ℕ × List (List ℕ)))
        → Takes (suc o) k ls r
        → Takes o (suc k) (l ∷ ls) (Option.map (λ r. (r.0, r.1, l ∷ r.2)) r)
    go none e = e
    go (some (d, page, ls')) t =
        let e : suc o + k + d ≡ o + suc k + d = omega arith in
        subst (λ m. Taken o m page (l ∷ ls) (l ∷ ls')) e
          (record {
            same_length = ap suc t.same_length;
            in_range = omega (arith, t.in_range);
            aligned = t.aligned;
            chains = (c.0, t.chains);
            pages = λ x. omega (arith, t.pages x);
          })

-- The upper half of a block that is taken off the lists can go back.
upper-CanInsert :
    (m page : ℕ) (block : List (List ℕ))
    → IsSound block
    → page % 2 ^ suc m ≡ 0
    → ((x : ℕ) → within (suc m) page x + total 0 block x ≤ 1)
    → CanInsert 0 m (page + 2 ^ m) block
upper-CanInsert m page block s a apart = record {
  lists = omega (arith, s.lists);
  aligned = add-mod_right page (2 ^ m) ∙ mod_mono m (suc m) page (omega arith) a;
  chains = s.chains;
  apart = λ x. omega (arith, within-join m page (page + 2 ^ m) x refl, apart x);
}

-- One turn of the loop: the upper half of the block of order `suc m` at `page` becomes free.
half_freed :
    (m page : ℕ) (block : List (List ℕ))
    → m < max_order
    → IsSound block
    → page % 2 ^ suc m ≡ 0
    → ((x : ℕ) → within (suc m) page x + total 0 block x ≤ 1)
    → (block' : List (List ℕ)) × (block_insert (page + 2 ^ m) m block ≡ some block')
      × IsSound block'
      × ((x : ℕ) → within m page x + total 0 block' x ≡ within (suc m) page x + total 0 block x)
half_freed m page block h s a apart =
    let (block', eq, i) =
      block_insert-Inserts (page + 2 ^ m) m block h (upper-CanInsert m page block s a apart) in
    (
      block',
      eq,
      record {
        lists = i.same_length ∙ s.lists;
        chains = i.chains;
        apart = λ x. omega (arith, i.pages x, within-join m page (page + 2 ^ m) x refl, apart x);
      },
      λ x. omega (arith, i.pages x, within-join m page (page + 2 ^ m) x refl),
    )

abbrev Splits : ℕ → ℕ → ℕ → List (List ℕ) → Option (List (List ℕ)) → Type 0
Splits m order page block r =
    (block' : List (List ℕ)) × (r ≡ some block')
    × IsSound block'
    × ((x : ℕ) → within order page x + total 0 block' x ≡ within m page x + total 0 block x)

-- Of a block of order `order + d` the split keeps the lowest `2 ^ order` pages and frees the rest.
split-Splits :
    (d order page : ℕ) (block : List (List ℕ))
    → order + d < max_order
    → IsSound block
    → page % 2 ^ (order + d) ≡ 0
    → ((x : ℕ) → within (order + d) page x + total 0 block x ≤ 1)
    → Splits (order + d) order page block (split d order page block)
unfolding split
split-Splits zero order page block h s a apart = (block, refl, s, λ x. rw add-zero refl)
split-Splits (suc d) order page block h s a apart =
    let (block', eq, s', p) =
      half_freed (order + d) page block (omega arith) s (rw add-suc at a) (rw add-suc at apart) in
    let (out, eq', s'', q) =
      split-Splits d order page block' (omega arith) s'
        (mod_mono (order + d) (order + suc d) page (omega arith) a)
        (λ x. omega (arith, p x, rw add-suc at (apart x))) in
    (out, rw (eq, split) eq', s'', λ x. rw add-suc (q x ∙ p x))

-- When a request for `2 ^ order` pages may be refused.
abbrev Refused : ℕ → Buddy → Type 0
Refused order b = (max_order ≤ order) ⊎ AllEmpty (drop order b.block)

pub record Granted (order : ℕ) (b : Buddy) (page : ℕ) (b' : Buddy) : Type 0 where
  pub legal : order < max_order
  pub aligned : page % 2 ^ order ≡ 0
  pub active : b'.activate ≡ page ∷ b.activate
  pub sound : IsSound b'.block
  pub pages : (x : ℕ) → total 0 b.block x ≡ within order page x + total 0 b'.block x

abbrev pub AllocOutcome : ℕ → Buddy → Option (Option ℕ × Buddy) → Type 0
AllocOutcome order b r =
    ((r ≡ some (none, b)) × Refused order b)
    ⊎ ((page : ℕ) × (b' : Buddy) × (r ≡ some (some page, b')) × Granted order b page b')

found-Granted :
    (order : ℕ) (b : Buddy)
    → IsSound b.block
    → order < max_order
    → (r : Option (ℕ × ℕ × List (List ℕ))) → find_block order b.block ≡ r
    → Takes 0 order b.block r
    → AllocOutcome order b (alloc_block order b)
unfolding alloc_block
found-Granted order b s h none e t = inl (ground arith, inr t)
found-Granted order b s h (some (d, page, block)) e t =
    let taken : Taken 0 (order + d) page b.block block = rw zero-add at t in
    let (block', eq, s', p) =
      split-Splits d order page block (omega (arith, taken.in_range, s.lists))
        (record {
          lists = taken.same_length ∙ s.lists;
          chains = taken.chains;
          apart = λ x. omega (arith, taken.pages x, s.apart x);
        })
        taken.aligned (λ x. omega (arith, taken.pages x, s.apart x)) in
    inr (
      page,
      record b { block = block'; activate = page ∷ b.activate },
      ground arith,
      record {
        legal = h;
        aligned = mod_mono order (order + d) page (omega arith) taken.aligned;
        active = refl;
        sound = s';
        pages = λ x. omega (arith, taken.pages x, p x);
      },
    )

-- From sound free lists `__alloc_pages` never faults. Either it returns NULL and changes nothing,
-- and then `order` is at least `MAX_ORDER` or all lists from `block[order]` on are empty. Or it
-- returns a page that is a multiple of `2 ^ order`, puts it in front of `activate`, and the free
-- lists are sound again and have lost exactly the `2 ^ order` pages from there on.
pub alloc_block-Outcome :
    (order : ℕ) (b : Buddy) → IsSound b.block → AllocOutcome order b (alloc_block order b)
unfolding alloc_block
alloc_block-Outcome order b s = elim (Bool-cases (leb max_order order)) [
  | inl h ↦ inl (rw h refl, inl (leb→le _ _ h))
  | inr h ↦
      found-Granted order b s (ground arith) _ refl (find_block-Takes 0 order b.block s.chains)
]
