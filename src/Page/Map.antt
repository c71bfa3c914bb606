-- ===== src/Page/Map.antt =====
-- `map_page` and `kmap`: the tables as a map from the pages of the user to pages of memory.
use mathlib.Core.Option.{some-injective}
use fat.Prelude.{
  ℕ, ◌+◌, ◌-◌, ◌*◌, ◌/◌, ◌%◌, ◌^◌, ◌≤◌, ◌<◌, ◌≡◌, ◌≢◌, true, Option, some, List, [], ◌∷◌, ◌==◌,
  arith, refl, sym, ap, ◌∙◌, ==_iff, length, subst, ◌>>=◌, >>=-eq-some,
}
use fat.Page.{Memory, target, walk, map_page, kmap, to_vir}
use fat.Page.Tree.{
  IsPage, IsTree, find, IsPath, find-Placed, find-cons, lookup, path_of, path_of-IsPath,
  path_of_page,
}
use fat.Page.Step.{walk-Followed, Stepped-Followed, walk_supplied, walk_open}

pub record Mapped (pml4 u page : ℕ) (m m' : Memory) : Type 0 where
  pub tree : IsTree pml4 m'
  pub mapped : lookup pml4 m' u ≡ some page
  pub kept : (v : ℕ) → v < 2 ^ 47 → v / 2 ^ 12 ≢ u / 2 ^ 12 → lookup pml4 m' v ≡ lookup pml4 m v
  pub apart : (v : ℕ) → v < 2 ^ 47 → lookup pml4 m' v ≡ some page → v / 2 ^ 12 ≡ u / 2 ^ 12

-- No page of memory is mapped at two pages of the user.
lookup_apart :
    (pml4 u v page : ℕ) (m : Memory)
    → IsTree pml4 m
    → u < 2 ^ 47
    → v < 2 ^ 47
    → lookup pml4 m u ≡ some page
    → lookup pml4 m v ≡ some page
    → v / 2 ^ 12 ≡ u / 2 ^ 12
lookup_apart pml4 u v page m (place, t) k l e f = path_of_page v u (
    some-injective (path_of v) (path_of u) (
      sym (find-Placed (path_of v) [] pml4 page t t.root (path_of-IsPath v l) f)
      ∙ find-Placed (path_of u) [] pml4 page t t.root (path_of-IsPath u k) e))

-- `map_page` after the indices.
abbrev pub walks : ℕ → ℕ → ℕ → ℕ → ℕ → Memory → Option (ℕ × Memory)
walks a b c d pml4 m = do
  pdpt ← walk pml4 a m
  pd ← walk pdpt.0 b pdpt.1
  pt ← walk pd.0 c pd.1
  walk pt.0 d pt.1

-- The steps of the four levels in a row.
record Chain (pml4 a b c d page : ℕ) (m m' : Memory) : Type 0 where
  tree : IsTree pml4 m'
  reached : find m' (a ∷ b ∷ c ∷ d ∷ []) pml4 ≡ some page
  kept :
      (js : List ℕ)
      → IsPath [] js
      → length js ≡ 4
      → js ≢ a ∷ b ∷ c ∷ d ∷ []
      → find m' js pml4 ≡ find m js pml4

walks-Chain :
    (pml4 a b c d page : ℕ) (m m' : Memory)
    → IsTree pml4 m
    → IsPath [] (a ∷ b ∷ c ∷ d ∷ [])
    → walks a b c d pml4 m ≡ some (page, m')
    → Chain pml4 a b c d page m m'
walks-Chain pml4 a b c d page m m' t ip e =
    let (pdpt, e1, f1) = >>=-eq-some (walk pml4 a m) _ e in
    let (pd, e2, f2) = >>=-eq-some (walk pdpt.0 b pdpt.1) _ f1 in
    let (pt, e3, f3) = >>=-eq-some (walk pd.0 c pd.1) _ f2 in
    let s1 =
      Stepped-Followed pml4 pml4 a [] m _ _ t tt ip.0 refl (walk-Followed pml4 a m pdpt e1) in
    let s2 =
      Stepped-Followed pml4 pdpt.0 b (a ∷ []) pdpt.1 _ _ s1.tree (ip.0, tt) ip.1.0 s1.reached
        (walk-Followed pdpt.0 b pdpt.1 pd e2) in
    let s3 =
      Stepped-Followed pml4 pd.0 c (a ∷ b ∷ []) pd.1 _ _ s2.tree (ip.0, (ip.1.0, tt)) ip.1.1.0
        s2.reached (walk-Followed pd.0 c pd.1 pt e3) in
    let s4 =
      Stepped-Followed pml4 pt.0 d (a ∷ b ∷ c ∷ []) pt.1 _ _ s3.tree
        (ip.0, (ip.1.0, (ip.1.1.0, tt))) ip.1.1.1.0 s3.reached
        (walk-Followed pt.0 d pt.1 (page, m') f3) in
    record {
      tree = s4.tree;
      reached = s4.reached;
      kept = λ js jp four ne.
          s4.kept js jp ne
          ∙ s3.kept js jp (λ h. absurd (omega (arith, four, ap length h)))
          ∙ s2.kept js jp (λ h. absurd (omega (arith, four, ap length h)))
          ∙ s1.kept js jp (λ h. absurd (omega (arith, four, ap length h)));
    }

-- The indices that `map_page` computes.
pub path_of_masked :
    (u : ℕ)
    → u < 2 ^ 47
    → path_of u
      ≡ u % 2 ^ 48 / 2 ^ 39
        ∷ u % 2 ^ 48 % 2 ^ 39 / 2 ^ 30
        ∷ u % 2 ^ 48 % 2 ^ 39 % 2 ^ 30 / 2 ^ 21
        ∷ u % 2 ^ 48 % 2 ^ 39 % 2 ^ 30 % 2 ^ 21 / 2 ^ 12
        ∷ []
path_of_masked u l =
    let a : u / 2 ^ 39 ≡ u % 2 ^ 48 / 2 ^ 39 = omega (arith, l) in
    let b : u / 2 ^ 30 % 512 ≡ u % 2 ^ 48 % 2 ^ 39 / 2 ^ 30 = omega (arith, l) in
    let c : u / 2 ^ 21 % 512 ≡ u % 2 ^ 48 % 2 ^ 39 % 2 ^ 30 / 2 ^ 21 = omega (arith, l) in
    let d : u / 2 ^ 12 % 512 ≡ u % 2 ^ 48 % 2 ^ 39 % 2 ^ 30 % 2 ^ 21 / 2 ^ 12 = omega (arith, l) in
    rw (a, b, c, d) refl

-- `map_page` that returns gives the page of the address, and every other page of the user is mapped as
-- before, to the same page or to none, and none to the page of the address; the tables stay well-formed. The tables are well-formed and the
-- address is one of the user.
pub map_page-Mapped :
    (pml4 u page : ℕ) (m m' : Memory)
    → IsTree pml4 m
    → u < 2 ^ 47
    → map_page pml4 u m ≡ some (page, m')
    → Mapped pml4 u page m m'
unfolding map_page
map_page-Mapped pml4 u page m m' t l e =
    let chain =
      walks-Chain pml4 _ _ _ _ page m m' t
        (subst (IsPath []) (path_of_masked u l) (path_of-IsPath u l)) e in
    let found : lookup pml4 m' u ≡ some page =
      ap (λ x. find m' x pml4) (path_of_masked u l) ∙ chain.reached in
    record {
      tree = chain.tree;
      mapped = found;
      apart = λ v k f. lookup_apart pml4 u v page m' chain.tree l k found f;
      kept = λ v k ne.
          chain.kept (path_of v) (path_of-IsPath v k) refl
            (λ h. ne (path_of_page v u (h ∙ sym (path_of_masked u l))));
    }

walks_supplied :
    (pml4 a b c d n : ℕ) (m : Memory)
    → n + 3 < length m.pages
    → (r : ℕ × Memory) × (walks a b c d pml4 m ≡ some r) × (n ≤ length r.1.pages)
walks_supplied pml4 a b c d n m l =
    let (pdpt, e1, l1) = walk_supplied pml4 a (n + 3) m l in
    let (pd, e2, l2) = walk_supplied pdpt.0 b (n + 2) pdpt.1 (omega (arith, l1)) in
    let (pt, e3, l3) = walk_supplied pd.0 c (n + 1) pd.1 (omega (arith, l2)) in
    let (page, e4, l4) = walk_supplied pt.0 d n pt.1 (omega (arith, l3)) in
    (page, rw (e1, e2, e3, e4) refl, l4)

-- With four pages at hand `map_page` returns, and takes four at most.
pub map_page_supplied :
    (pml4 u : ℕ) (m : Memory)
    → 4 ≤ length m.pages
    → (r : ℕ × Memory) × (map_page pml4 u m ≡ some r) × (length m.pages ≤ length r.1.pages + 4)
unfolding map_page
map_page_supplied pml4 u m l =
    let (r, e, k) = walks_supplied pml4 _ _ _ _ (length m.pages - 4) m (omega (arith, l)) in
    (r, e, omega (arith, k))

-- The page behind the entry of a table.
abbrev behind : Memory → ℕ → ℕ → ℕ
behind m table ind = target (m.word table ind)

find_four :
    (m : Memory) (a b c d p q : ℕ)
    → find m (a ∷ b ∷ c ∷ d ∷ []) p ≡ some q
    → (m.word p a ≢ 0)
      × (m.word (behind m p a) b ≢ 0)
      × (m.word (behind m (behind m p a) b) c ≢ 0)
      × (m.word (behind m (behind m (behind m p a) b) c) d ≢ 0)
      × (behind m (behind m (behind m (behind m p a) b) c) d ≡ q)
find_four m a b c d p q e =
    let c1 = find-cons m a (b ∷ c ∷ d ∷ []) p q e in
    let c2 = find-cons m b (c ∷ d ∷ []) (behind m p a) q c1.1 in
    let c3 = find-cons m c (d ∷ []) (behind m (behind m p a) b) q c2.1 in
    let c4 = find-cons m d [] (behind m (behind m (behind m p a) b) c) q c3.1 in
    (
      c1.0,
      c2.0,
      c3.0,
      c4.0,
      some-injective (behind m (behind m (behind m (behind m p a) b) c) d) q c4.1,
    )

-- `map_page` of an address that is mapped gives its page and changes nothing.
pub map_page_mapped :
    (pml4 u page : ℕ) (m : Memory)
    → u < 2 ^ 47
    → lookup pml4 m u ≡ some page
    → map_page pml4 u m ≡ some (page, m)
unfolding map_page
map_page_mapped pml4 u page m l e =
    let f = sym (ap (λ x. find m x pml4) (path_of_masked u l)) ∙ e in
    let four = find_four m _ _ _ _ pml4 page f in
    rw
      (
        walk_open _ _ m four.0,
        walk_open _ _ m four.1,
        walk_open _ _ m four.2,
        walk_open _ _ m four.3,
      )
      (ap (λ x. some (x, m)) four.4)

to_vir_offset :
    (entry offset page : ℕ)
    → IsPage page
    → target entry ≡ page
    → offset < 2 ^ 12
    → to_vir (entry / 2 ^ 12 * 2 ^ 12 + offset) ≡ page + offset
unfolding target
to_vir_offset entry offset page v e l = omega (arith, v.0, v.1, v.2, e, l)

-- The kernel reaches an address of the user that is mapped at the offset in its page.
pub kmap-lookup :
    (pml4 u page : ℕ) (m : Memory)
    → IsTree pml4 m
    → u < 2 ^ 47
    → lookup pml4 m u ≡ some page
    → kmap pml4 u m ≡ page + u % 2 ^ 12
unfolding kmap
kmap-lookup pml4 u page m (place, t) l e =
    let four =
      find_four m (u / 2 ^ 39) (u / 2 ^ 30 % 512) (u / 2 ^ 21 % 512) (u / 2 ^ 12 % 512) pml4 page
        e in
    let valid =
      t.valid page (path_of u)
        (find-Placed (path_of u) [] pml4 page t t.root (path_of-IsPath u l) e) in
    let low : (u / 2 ^ 48 == 0) ≡ true = (==_iff (u / 2 ^ 48) 0).1 (omega (arith, l)) in
    let b : u % 2 ^ 39 / 2 ^ 30 ≡ u / 2 ^ 30 % 512 = omega arith in
    let c : u % 2 ^ 39 % 2 ^ 30 / 2 ^ 21 ≡ u / 2 ^ 21 % 512 = omega arith in
    let d : u % 2 ^ 39 % 2 ^ 30 % 2 ^ 21 / 2 ^ 12 ≡ u / 2 ^ 12 % 512 = omega arith in
    let o : u % 2 ^ 39 % 2 ^ 30 % 2 ^ 21 % 2 ^ 12 ≡ u % 2 ^ 12 = omega arith in
    let small : u % 2 ^ 12 < 2 ^ 12 = omega arith in
    rw low (rw (b, c, d, o) (to_vir_offset _ (u % 2 ^ 12) page valid four.4 small))
