-- ===== src/Process/Pair.antt =====
-- The page tables of a child beside those of its parent, in one memory.
use mathlib.Core.Option.{none-ne-some, some-injective}
use fat.Prelude.{
  ℕ, ◌^◌, ◌<◌, ◌≡◌, ◌≢◌, false, Option, none, some, List, [], ◌∷◌, ◌++◌, ◌==◌, ◌&&◌, arith, refl,
  sym, ap, ◌∙◌, length, subst, >>=-eq-some,
}
use fat.Page.{Memory, map_page, walk, target}
use fat.Page.Tree.{Fresh, IsIndex, IsPath, Placed, path_of, path_of-IsPath}
use fat.Page.Map.{path_of_masked, walks}
use fat.Page.Walks.{
  grown, extended, grown-Placed, extended_self, extended_ne, grown-word_other, new_page, placed_ne,
  extended_keeps,
}
use fat.Page.Step.{Followed, old, new, walk-Followed}

-- No page is in both trees.
pub record Pair (place parent : ℕ → Option (List ℕ)) (pgd cur : ℕ) (m : Memory) : Type 0 where
  pub own : Placed place pgd m
  pub theirs : Placed parent cur m
  pub apart : (p : ℕ) (is : List ℕ) → parent p ≡ some is → place p ≡ none

-- What changes nothing in the tree of the parent, nor in the pages that the child's tables lead to.
pub record Framed (place parent : ℕ → Option (List ℕ)) (m m' : Memory) : Type 0 where
  pub theirs : (t i : ℕ) (is : List ℕ) → parent t ≡ some is → m'.word t i ≡ m.word t i
  pub leaves :
      (t i : ℕ) (is : List ℕ) → place t ≡ some is → length is ≡ 4 → m'.word t i ≡ m.word t i

-- A step of `map_page` in the tables of the child.
pub record Stayed (place parent : ℕ → Option (List ℕ)) (pgd cur : ℕ) (path : List ℕ) (page : ℕ)
    (m m' : Memory) : Type 0 where
  pub place' : ℕ → Option (List ℕ)
  pub pair : Pair place' parent pgd cur m'
  pub framed : Framed place parent m m'
  pub at : place' page ≡ some path
  pub grows : (p : ℕ) (is : List ℕ) → place p ≡ some is → place' p ≡ some is

pub index_depth : (is : List ℕ) (ind : ℕ) → IsIndex is ind → length is < 4
index_depth [] ind o = omega arith
index_depth (i ∷ is) ind o = omega (arith, o.1)

at_other : (t table i ind : ℕ) → t ≢ table → (t == table && i == ind) ≡ false
at_other t table i ind n = ground (arith, n)

Stayed-Followed :
    (place parent : ℕ → Option (List ℕ)) (pgd cur table ind : ℕ) (js : List ℕ) (m : Memory)
    (page : ℕ) (m' : Memory)
    → Pair place parent pgd cur m
    → place table ≡ some js
    → IsIndex js ind
    → Followed table ind m page m'
    → Stayed place parent pgd cur (js ++ ind ∷ []) page m m'
Stayed-Followed place parent pgd cur table ind js m _ _ c at o (old n) = record {
  place' = place;
  pair = c;
  framed = record { theirs = λ t i is e. refl; leaves = λ t i is e l. refl };
  at = c.own.child table ind js at o n;
  grows = λ p is e. e;
}
Stayed-Followed place parent pgd cur table ind js m _ _ c at o (new page rest z s) =
    let fresh = new_page place pgd table ind page rest js m c.own at s in
    let theirs_fresh : Fresh parent (page ∷ rest) = subst (Fresh parent) s c.theirs.fresh in
    let not_table : (t : ℕ) (is : List ℕ) → parent t ≡ some is → t ≢ table =
      λ t is e h. absurd (none-ne-some js (sym (c.apart t is e) ∙ ap place h ∙ at)) in
    let not_new : (t : ℕ) (is : List ℕ) → parent t ≡ some is → t ≢ page =
      λ t is e h. absurd (none-ne-some is (sym theirs_fresh.0 ∙ ap parent (sym h) ∙ e)) in
    let same_word : (t i : ℕ) (is : List ℕ)
        → parent t ≡ some is
        → (grown table ind page rest m).word t i ≡ m.word t i =
      λ t i is e.
        grown-word_other table ind page rest m t i (not_new t is e)
          (at_other t table i ind (not_table t is e)) in
    record {
      place' = extended page (js ++ ind ∷ []) place;
      pair = record {
        own = grown-Placed place pgd table ind page rest js m c.own at s;
        theirs = record {
          root = c.theirs.root;
          valid = c.theirs.valid;
          child = λ t i is e k n.
              ap (λ w. parent (target w)) (same_word t i is e)
              ∙ c.theirs.child t i is e k (λ z. n (same_word t i is e ∙ z));
          fresh = theirs_fresh.3;
        };
        apart =
            λ p is e. extended_ne place p page (js ++ ind ∷ []) (not_new p is e) ∙ c.apart p is e;
      };
      framed = record {
        theirs = same_word;
        leaves = λ t i is e l.
            grown-word_other table ind page rest m t i
              (placed_ne place pgd table ind page rest js m c.own at s t is e)
              (at_other t table i ind (λ h. absurd (
                omega (
                  arith,
                  l,
                  index_depth js ind o,
                  ap length (some-injective is js (sym e ∙ ap place h ∙ at)),
                ))));
      };
      at = extended_self place page (js ++ ind ∷ []);
      grows = extended_keeps place pgd table ind page rest js m c.own at s;
    }

Framed-trans :
    (place place' parent : ℕ → Option (List ℕ)) (m m1 m2 : Memory)
    → ((p : ℕ) (is : List ℕ) → place p ≡ some is → place' p ≡ some is)
    → Framed place parent m m1
    → Framed place' parent m1 m2
    → Framed place parent m m2
Framed-trans place place' parent m m1 m2 g a b = record {
  theirs = λ t i is e. b.theirs t i is e ∙ a.theirs t i is e;
  leaves = λ t i is e l. b.leaves t i is (g t is e) l ∙ a.leaves t i is e l;
}

Stayed-trans :
    (place parent : ℕ → Option (List ℕ)) (pgd cur : ℕ) (p1 p2 : List ℕ) (q1 q2 : ℕ)
    (m m1 m2 : Memory)
    → (a : Stayed place parent pgd cur p1 q1 m m1) → Stayed a.place' parent pgd cur p2 q2 m1 m2
    → Stayed place parent pgd cur p2 q2 m m2
Stayed-trans place parent pgd cur p1 p2 q1 q2 m m1 m2 a b = record {
  place' = b.place';
  pair = b.pair;
  framed = Framed-trans place a.place' parent m m1 m2 a.grows a.framed b.framed;
  at = b.at;
  grows = λ p is e. b.grows p is (a.grows p is e);
}

walks-Stayed :
    (place parent : ℕ → Option (List ℕ)) (pgd cur a b c d page : ℕ) (m m' : Memory)
    → Pair place parent pgd cur m
    → IsPath [] (a ∷ b ∷ c ∷ d ∷ [])
    → walks a b c d pgd m ≡ some (page, m')
    → Stayed place parent pgd cur (a ∷ b ∷ c ∷ d ∷ []) page m m'
walks-Stayed place parent pgd cur a b c d page m m' pair ip e =
    let (pdpt, e1, f1) = >>=-eq-some (walk pgd a m) _ e in
    let (pd, e2, f2) = >>=-eq-some (walk pdpt.0 b pdpt.1) _ f1 in
    let (pt, e3, f3) = >>=-eq-some (walk pd.0 c pd.1) _ f2 in
    let s1 =
      Stayed-Followed place parent pgd cur pgd a [] m _ _ pair pair.own.root ip.0
        (walk-Followed pgd a m pdpt e1) in
    let s2 =
      Stayed-Followed s1.place' parent pgd cur pdpt.0 b (a ∷ []) pdpt.1 _ _ s1.pair s1.at ip.1.0
        (walk-Followed pdpt.0 b pdpt.1 pd e2) in
    let s3 =
      Stayed-Followed s2.place' parent pgd cur pd.0 c (a ∷ b ∷ []) pd.1 _ _ s2.pair s2.at ip.1.1.0
        (walk-Followed pd.0 c pd.1 pt e3) in
    let s4 =
      Stayed-Followed s3.place' parent pgd cur pt.0 d (a ∷ b ∷ c ∷ []) pt.1 _ _ s3.pair s3.at
        ip.1.1.1.0 (walk-Followed pt.0 d pt.1 (page, m') f3) in
    Stayed-trans place parent pgd cur _ _ _ _ m _ _ s1 (
      Stayed-trans s1.place' parent pgd cur _ _ _ _ _ _ _ s2
        (Stayed-trans s2.place' parent pgd cur _ _ _ _ _ _ _ s3 s4))

-- `map_page` in the tables of the child.
pub map_page-Stayed :
    (place parent : ℕ → Option (List ℕ)) (pgd cur u page : ℕ) (m m' : Memory)
    → Pair place parent pgd cur m
    → u < 2 ^ 47
    → map_page pgd u m ≡ some (page, m')
    → Stayed place parent pgd cur (path_of u) page m m'
unfolding map_page
map_page-Stayed place parent pgd cur u page m m' c l e =
    subst (λ p. Stayed place parent pgd cur p page m m') (sym (path_of_masked u l))
      (walks-Stayed place parent pgd cur _ _ _ _ page m m' c
        (subst (IsPath []) (path_of_masked u l) (path_of-IsPath u l)) e)
