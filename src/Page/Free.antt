-- ===== src/Page/Free.antt =====
-- `free_proc_mm`: the pages it frees.
use mathlib.Core.Option.{none-ne-some, some-injective}
use fat.Prelude.{
  ℕ, zero, suc, ◌+◌, ◌/◌, ◌%◌, ◌^◌, ◌≤◌, ◌<◌, ◌≡◌, ◌≢◌, inl, inr, true, false, Option, none, some,
  List, [], ◌∷◌, ◌++◌, ◌==◌, ◌&&◌, if◌then◌else◌, arith, refl, sym, ap, ◌∙◌, ltb, Bool-cases,
  ==_iff, length,
}
use fat.Page.{Memory, target, each_entry, free_table, free_proc_mm}
use fat.Page.Tree.{IsIndex, Absent, Fresh, IsTree, find, IsPath, find_absent, find-cons, lookup}
use fat.Page.Reached.{IsFound, free_table-IsFound}
use fat.Page.Below.{count, count-append, count_self, longer, free_table-Below}

-- The loop gets to every entry.
count-each_entry :
    (x n ind i : ℕ) (row : ℕ → ℕ) (body : ℕ → List ℕ)
    → ind ≤ i
    → i < ind + n
    → row i ≢ 0
    → 0 < count x (body (target (row i)))
    → 0 < count x (each_entry n ind row body)
unfolding each_entry
count-each_entry x zero ind i row body a b e c = absurd (omega (arith, a, b))
count-each_entry x (suc n) ind i row body a b e c = elim (Bool-cases (ind == i)) [
  | inl y ↦
      let here : ind ≡ i = (==_iff ind i).0 y in
      let tested : (row ind == 0) ≡ false = rw here (ground (arith, e)) in
      rw tested (
        omega (
          arith,
          count-append x (body (target (row ind))) (each_entry n (ind + 1) row body),
          ap (λ j. count x (body (target (row j)))) here,
          c,
        ))
  | inr y ↦ omega (
    arith,
    count-append x (if row ind == 0 then [] else body (target (row ind)))
        (each_entry n (ind + 1) row body),
    count-each_entry x n (ind + 1) i row body (ground (arith, a, y)) (omega (arith, b)) e c,
  )
]

outer : (ks : List ℕ) (i j : ℕ) → IsIndex (ks ++ i ∷ []) j → j < 512
outer [] i j l = l.0
outer (k ∷ ks) i j l = l.0

count-free_table :
    (levels nr_entry table x ind : ℕ) (path ks : List ℕ) (m : Memory)
    → ((i : ℕ) → IsIndex ks i → i < nr_entry)
    → IsPath ks (ind ∷ path)
    → length path ≤ levels
    → find m (ind ∷ path) table ≡ some x
    → 0 < count x (free_table levels nr_entry table m)
unfolding free_table
count-free_table zero nr_entry table x ind [] ks m o ip l e =
    let c = find-cons m ind [] table x e in
    count-each_entry x nr_entry 0 ind (m.word table) (λ page. page ∷ []) (omega arith)
      (omega (arith, o ind ip.0)) c.0
      (omega (arith, count_self x (target (m.word table ind)) (sym (some-injective _ x c.1))))
count-free_table zero nr_entry table x ind (j ∷ path) ks m o ip l e = absurd (omega (arith, l))
count-free_table (suc levels) nr_entry table x ind [] ks m o ip l e =
    let c = find-cons m ind [] table x e in
    count-each_entry x nr_entry 0 ind (m.word table)
      (λ next. free_table levels 512 next m ++ next ∷ []) (omega arith) (omega (arith, o ind ip.0))
      c.0
      (omega (
        arith,
        count-append x (free_table levels 512 (target (m.word table ind)) m)
            (target (m.word table ind) ∷ []),
        count_self x (target (m.word table ind)) (sym (some-injective _ x c.1)),
      ))
count-free_table (suc levels) nr_entry table x ind (j ∷ path) ks m o ip l e =
    let c = find-cons m ind (j ∷ path) table x e in
    count-each_entry x nr_entry 0 ind (m.word table)
      (λ next. free_table levels 512 next m ++ next ∷ []) (omega arith) (omega (arith, o ind ip.0))
      c.0
      (omega (
        arith,
        count-append x (free_table levels 512 (target (m.word table ind)) m)
            (target (m.word table ind) ∷ []),
        count-free_table levels 512 (target (m.word table ind)) x j path (ks ++ ind ∷ []) m
            (λ i h. outer ks ind i h) ip.1 (omega (arith, l)) c.1,
      ))

pub record Freed (pml4 : ℕ) (m : Memory) (freed : List ℕ) (m' : Memory) : Type 0 where
  pub once : (x : ℕ) → count x freed ≤ 1
  pub in_use : (x : ℕ) → 0 < count x freed → (x ≢ pml4) × Absent x m.pages
  pub only : (x : ℕ) → 0 < count x freed → IsFound 3 [] pml4 m x
  pub all :
      (ind x : ℕ) (path : List ℕ)
      → IsPath [] (ind ∷ path)
      → length path ≤ 3
      → find m (ind ∷ path) pml4 ≡ some x
      → count x freed ≡ 1
  pub unmapped : (v : ℕ) → v < 2 ^ 47 → lookup pml4 m' v ≡ none
  pub shared : (i : ℕ) → 256 ≤ i → m'.word pml4 i ≡ m.word pml4 i

in_use_lem :
    (place : ℕ → Option (List ℕ)) (x : ℕ) (is pages : List ℕ)
    → place x ≡ some is
    → Fresh place pages
    → Absent x pages
in_use_lem place x is [] e f = tt
in_use_lem place x is (p ∷ ps) e f =
    (λ h. none-ne-some is (sym f.0 ∙ ap place (sym h) ∙ e), in_use_lem place x is ps e f.3)

-- `free_proc_mm` frees every page that is mapped for the user and every table on the way to it exactly
-- once, and nothing else: a page that it frees is found from the first table over one to four indices in
-- the user's half, and is neither the first table nor a page that the allocator has. After it no address of the user is mapped, and the upper half of the first table is as before. The tables are
-- well-formed.
pub free_proc_mm-Freed :
    (pml4 : ℕ) (m : Memory)
    → IsTree pml4 m
    → Freed pml4 m (free_proc_mm pml4 m).0 (free_proc_mm pml4 m).1
unfolding free_proc_mm
free_proc_mm-Freed pml4 m (place, t) =
    let below =
      λ (x : ℕ). free_table-Below place x 3 256 pml4 pml4 [] m t t.root (λ i l. l) (omega arith) in
    record {
      once = λ x. (below x).0;
      in_use = λ x h.
          let (i, zs, le, e) = (below x).1 h in
          (
            λ y.
                absurd
                  (longer [] zs i (some-injective [] (i ∷ zs) (sym t.root ∙ ap place (sym y) ∙ e))),
            in_use_lem place x (i ∷ zs) m.pages e t.fresh,
          );
      only = λ x. free_table-IsFound 3 256 pml4 x [] m (λ i l. l) (omega arith);
      all = λ ind x path ip l e.
          omega (arith, (below x).0, count-free_table 3 256 pml4 x ind path [] m (λ i h. h) ip l e);
      unmapped = λ v l.
          let zeroed : (pml4 == pml4 && ltb (v / 2 ^ 39) 256) ≡ true = ground (arith, l) in
          find_absent (free_proc_mm pml4 m).1 (v / 2 ^ 39)
            (v / 2 ^ 30 % 512 ∷ v / 2 ^ 21 % 512 ∷ v / 2 ^ 12 % 512 ∷ []) pml4 (rw zeroed refl);
      shared = λ i l.
          let upper : (pml4 == pml4 && ltb i 256) ≡ false = ground (arith, l) in rw upper refl;
    }
