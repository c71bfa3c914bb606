-- ===== src/Process/Copied.antt =====
-- What the loops of `copy_mm` make: pages of the child that are like those of the parent.
use fat.Prelude.{
  ℕ, ◌+◌, ◌/◌, ◌%◌, ◌^◌, ◌≤◌, ◌<◌, ◌≡◌, ◌≢◌, ◌⊎◌, inl, inr, Option, some, List, [], ◌==◌, arith,
  refl, sym, ap, ◌∙◌, Bool-cases, ==_iff,
}
use fat.Page.{Memory, map_page}
use fat.Page.Tree.{find, lookup, find-Placed, path_of, path_of-IsPath, page-path_of}
use fat.Page.Map.{Mapped, map_page-Mapped}
use fat.Process.Pair.{Pair, Stayed, map_page-Stayed}
use fat.Process.Copy.{copy_page, Alike, find-kept, copy-word, copy-Pair, not_leaf, not_theirs}

-- The range is copied: nothing changed for the parent, and the child has the range, and every address where it
-- was like the parent before, like the parent.
pub record Copied (parent : ℕ → Option (List ℕ)) (pgd cur start end : ℕ) (m m' : Memory)
    : Type 0 where
  pub place : ℕ → Option (List ℕ)
  pub pair : Pair place parent pgd cur m'
  pub words : (t i : ℕ) (is : List ℕ) → parent t ≡ some is → m'.word t i ≡ m.word t i
  pub copies :
      (v : ℕ) → v < 2 ^ 47 → Alike pgd cur v m ⊎ ((start ≤ v) × (v < end)) → Alike pgd cur v m'

copy_self :
    (page src i : ℕ) (m : Memory) → i < 512 → (copy_page page src m).word page i ≡ m.word src i
unfolding copy_page
copy_self page src i m l = ground (arith, l)

module _ (place parent : ℕ → Option (List ℕ)) (pgd cur start src page : ℕ) (m m1 : Memory)
    (c : Pair place parent pgd cur m) (a : start % 0x1000 ≡ 0) (l : start < 2 ^ 47)
    (source : lookup cur m start ≡ some src) (e : map_page pgd start m ≡ some (page, m1)) where
  step : Stayed place parent pgd cur (path_of start) page m m1
  step = map_page-Stayed place parent pgd cur start page m m1 c l e

  start-Mapped : Mapped pgd start page m m1
  start-Mapped = map_page-Mapped pgd start page m m1 (place, c.own) l e

  other_page : (t : ℕ) (is : List ℕ) → parent t ≡ some is → t ≢ page
  other_page = not_theirs step.place' parent pgd cur page (path_of start) m1 step.pair step.at

  words_kept :
      (t i : ℕ) (is : List ℕ) → parent t ≡ some is → (copy_page page src m1).word t i ≡ m.word t i
  words_kept t i is h = copy-word page src t i m1 (other_page t is h) ∙ step.framed.theirs t i is h

  parent_kept : (v : ℕ) → v < 2 ^ 47 → lookup cur (copy_page page src m1) v ≡ lookup cur m v
  parent_kept v k =
      find-kept parent cur m (copy_page page src m1) c.theirs (λ t i is h o. words_kept t i is h)
        (path_of v) [] cur c.theirs.root (path_of-IsPath v k)

  pub parent_mapped : lookup cur m1 start ≡ some src
  parent_mapped =
      find-kept parent cur m m1 c.theirs (λ t i is h o. step.framed.theirs t i is h) (path_of start)
        [] cur c.theirs.root (path_of-IsPath start l)
      ∙ source

  child_kept : (v : ℕ) → v < 2 ^ 47 → lookup pgd (copy_page page src m1) v ≡ lookup pgd m1 v
  child_kept v k =
      find-kept step.place' pgd m1 (copy_page page src m1) step.pair.own
        (λ t i is h o. copy-word page src t i m1 (
          not_leaf step.place' parent pgd cur page (path_of start) m1 step.pair step.at refl t i is
            h o))
        (path_of v) [] pgd step.pair.own.root (path_of-IsPath v k)

  src_at : (v q : ℕ) → v < 2 ^ 47 → lookup cur m v ≡ some q → parent q ≡ some (path_of v)
  src_at v q k h = find-Placed (path_of v) [] cur q c.theirs c.theirs.root (path_of-IsPath v k) h

  start-Alike :
      (v : ℕ) → v < 2 ^ 47 → v / 2 ^ 12 ≡ start / 2 ^ 12 → Alike pgd cur v (copy_page page src m1)
  start-Alike v k s = (
    page,
    src,
    child_kept v k ∙ ap (λ x. find m1 x pgd) (page-path_of v start s) ∙ start-Mapped.mapped,
    parent_kept v k ∙ ap (λ x. find m x cur) (page-path_of v start s) ∙ source,
    λ i j.
        copy_self page src i m1 j
        ∙ sym (
            copy-word page src src i m1
              (other_page src (path_of start) (src_at start src l source))),
  )

  other-Alike :
      (v : ℕ)
      → v < 2 ^ 47
      → v / 2 ^ 12 ≢ start / 2 ^ 12
      → Alike pgd cur v m
      → Alike pgd cur v (copy_page page src m1)
  other-Alike v k n (p, q, lp, lq, w) =
      let still : lookup pgd m1 v ≡ some p = start-Mapped.kept v k n ∙ lp in
      let not_page : p ≢ page = λ h. n (start-Mapped.apart v k (still ∙ ap some h)) in
      let leaf = find-Placed (path_of v) [] pgd p c.own c.own.root (path_of-IsPath v k) lp in
      (
        p,
        q,
        child_kept v k ∙ still,
        parent_kept v k ∙ lq,
        λ i j.
            copy-word page src p i m1 not_page
            ∙ step.framed.leaves p i (path_of v) leaf refl
            ∙ w i j
            ∙ sym (words_kept q i (path_of v) (src_at v q k lq)),
      )

  pub page-Copied : Copied parent pgd cur start (start + 0x1000) m (copy_page page src m1)
  page-Copied = record {
    place = step.place';
    pair = copy-Pair step.place' parent pgd cur page src (path_of start) m1 step.pair step.at refl;
    words = words_kept;
    copies = λ v k h. elim (Bool-cases (v / 2 ^ 12 == start / 2 ^ 12)) [
      | inl y ↦ start-Alike v k ((==_iff (v / 2 ^ 12) (start / 2 ^ 12)).0 y)
      | inr y ↦ elim h [
        | inl before ↦ other-Alike v k (λ s. absurd (ground (arith, y, s))) before
        | inr r ↦ absurd (ground (arith, y, a, r.0, r.1))
      ]
    ];
  }
