-- ===== src/Process/Fork.antt =====
-- `copy_mm`: the child has the memory of its parent, and each its own.
use mathlib.Core.Option.{none-ne-some, some-injective}
use fat.Prelude.{
  ℕ, ◌*◌, ◌/◌, ◌^◌, ◌<◌, ◌≡◌, ◌≢◌, inl, inr, true, false, Option, none, some, List, [], ◌∷◌, ◌++◌,
  ◌==◌, if◌then◌else◌, arith, refl, sym, ap, ◌∙◌, Bool-cases, ==_iff, length, subst, ◌>>=◌, map,
}
use fat.Page.{Memory, target, get_zeroed_page}
use fat.Page.Tree.{Absent, Fresh, IsPage, IsIndex, Placed, path_of, path_of-IsPath}
use fat.Process.Brk.{page_upper_align}
use fat.Process.Pair.{Pair}
use fat.Process.Copy.{copy_ranges, Mm, copy_pgd, copy_mm, Alike, find-kept}
use fat.Process.Ranges.{AreRanges, AreRanges-kept, Within, pages_of, copy_ranges-Forked}

abbrev only : ℕ → ℕ → Option (List ℕ)
only pgd p = if p == pgd then some [] else none

only_at : (pgd p : ℕ) (is : List ℕ) → only pgd p ≡ some is → (p ≡ pgd) × (is ≡ [])
only_at pgd p is e = elim (Bool-cases (p == pgd)) [
  | inl y ↦
      let root : only pgd p ≡ some [] = rw y refl in
      ((==_iff p pgd).0 y, some-injective is [] (sym e ∙ root))
  | inr y ↦
      let nowhere : only pgd p ≡ none = rw y refl in absurd (none-ne-some is (sym nowhere ∙ e))
]

only_ne : (pgd p : ℕ) → p ≢ pgd → only pgd p ≡ none
only_ne pgd p n = let y : (p == pgd) ≡ false = ground (arith, n) in rw y refl

Fresh-only :
    (parent : ℕ → Option (List ℕ)) (pgd : ℕ) (ps : List ℕ)
    → Absent pgd ps
    → Fresh parent ps
    → Fresh (only pgd) ps
Fresh-only parent pgd [] a f = tt
Fresh-only parent pgd (p ∷ ps) a f =
    (only_ne pgd p (λ e. a.0 (sym e)), f.1, f.2, Fresh-only parent pgd ps a.1 f.3)

-- The memory with the first table of the child.
abbrev prepared : ℕ → ℕ → List ℕ → Memory → Memory
prepared cur pgd rest m =
    copy_pgd cur pgd (record m { word = λ t i. if t == pgd then 0 else m.word t i; pages = rest })

prepared-word :
    (cur pgd t i : ℕ) (rest : List ℕ) (m : Memory)
    → t ≢ pgd
    → (prepared cur pgd rest m).word t i ≡ m.word t i
unfolding copy_pgd
prepared-word cur pgd t i rest m n = ground (arith, n)

prepared_empty :
    (cur pgd i : ℕ) (rest : List ℕ) (m : Memory)
    → i < 256
    → (prepared cur pgd rest m).word pgd i ≡ 0
unfolding copy_pgd
prepared_empty cur pgd i rest m l = ground (arith, l)

prepared-Pair :
    (parent : ℕ → Option (List ℕ)) (cur pgd : ℕ) (rest : List ℕ) (m : Memory)
    → Placed parent cur m
    → m.pages ≡ pgd ∷ rest
    → Pair (only pgd) parent pgd cur (prepared cur pgd rest m)
unfolding copy_pgd
prepared-Pair parent cur pgd rest m t s =
    let fresh : Fresh parent (pgd ∷ rest) = subst (Fresh parent) s t.fresh in
    let not_new : (p : ℕ) (is : List ℕ) → parent p ≡ some is → p ≢ pgd =
      λ p is e h. absurd (none-ne-some is (sym fresh.0 ∙ ap parent (sym h) ∙ e)) in
    record {
      own = record {
        root = (let y : (pgd == pgd) ≡ true = ground arith in rw y refl);
        valid = λ p is e. subst IsPage (sym (only_at pgd p is e).0) fresh.1;
        child = λ p i is e o n.
            let (here, first) = only_at pgd p is e in
            absurd (
              n (
                ap (λ x. (prepared cur pgd rest m).word x i) here
                ∙ prepared_empty cur pgd i rest m (subst (λ x. IsIndex x i) first o)));
        fresh = Fresh-only parent pgd rest fresh.2 fresh.3;
      };
      theirs = record {
        root = t.root;
        valid = t.valid;
        child = λ p i is e o n.
            let w = prepared-word cur pgd p i rest m (not_new p is e) in
            ap (λ x. parent (target x)) w ∙ t.child p i is e o (λ z. n (w ∙ z));
        fresh = fresh.3;
      };
      apart = λ p is e. only_ne pgd p (not_new p is e);
    }

-- The ranges that `copy_mm` copies.
abbrev pub ranges_of : Mm → List (ℕ × ℕ)
ranges_of cur =
    map (λ seg. (seg.0 / 0x1000 * 0x1000, page_upper_align seg.1)) cur.psegs
    ++ (cur.start_stack, cur.end_stack) ∷ (cur.start_brk, cur.brk) ∷ []

pub record Child (parent : ℕ → Option (List ℕ)) (cur : Mm) (m : Memory) (child : Mm) (m' : Memory)
    : Type 0 where
  pub place : ℕ → Option (List ℕ)
  pub pair : Pair place parent child.pgd cur.pgd m'
  pub words : (t i : ℕ) (is : List ℕ) → parent t ≡ some is → m'.word t i ≡ m.word t i
  pub copies : (v : ℕ) → v < 2 ^ 47 → Within v (ranges_of cur) → Alike child.pgd cur.pgd v m'

copy_mm_step :
    (cur : Mm) (pgd : ℕ) (m zeroed m' : Memory)
    → get_zeroed_page m ≡ some (pgd, zeroed)
    → copy_ranges cur.pgd pgd (ranges_of cur) (copy_pgd cur.pgd pgd zeroed) ≡ some m'
    → copy_mm cur m ≡ some (record cur { pgd = pgd }, m')
unfolding copy_mm
copy_mm_step cur pgd m zeroed m' g f =
    let after_page : ℕ × Memory → Option (Mm × Memory) = λ r.
      copy_ranges cur.pgd r.0 (ranges_of cur) (copy_pgd cur.pgd r.0 r.1) >>= λ m'.
      some (record cur { pgd = r.0 }, m') in
    ap (λ o. o >>= after_page) g ∙ ap (λ o. o >>= λ m'. some (record cur { pgd = pgd }, m')) f

copy_mm-Child_at :
    (parent : ℕ → Option (List ℕ)) (cur : Mm) (m : Memory) (pages : List ℕ)
    → m.pages ≡ pages
    → Placed parent cur.pgd m
    → AreRanges cur.pgd (ranges_of cur) m
    → pages_of (ranges_of cur) * 4 < length pages
    → (r : Mm × Memory) × (copy_mm cur m ≡ some r) × Child parent cur m r.0 r.1
unfolding copy_mm get_zeroed_page
copy_mm-Child_at parent cur m [] s t a l = absurd (omega (arith, l))
copy_mm-Child_at parent cur m (pgd ∷ rest) s t a l =
    let c = prepared-Pair parent cur.pgd pgd rest m t s in
    let m1 : Memory = prepared cur.pgd pgd rest m in
    let zeroed : Memory = record m {
      word = λ t i. if t == pgd then 0 else m.word t i;
      pages = rest;
    } in
    let not_new : (p : ℕ) (is : List ℕ) → parent p ≡ some is → p ≢ pgd =
      λ p is e h. absurd (none-ne-some [] (sym (c.apart p is e) ∙ ap (only pgd) h ∙ c.own.root)) in
    let same_word : (p i : ℕ) (is : List ℕ) → parent p ≡ some is → m1.word p i ≡ m.word p i =
      λ p i is e. prepared-word cur.pgd pgd p i rest m (not_new p is e) in
    let still : AreRanges cur.pgd (ranges_of cur) m1 =
      AreRanges-kept cur.pgd (ranges_of cur) m m1
        (λ v k.
          find-kept parent cur.pgd m m1 t (λ p i is e o. same_word p i is e) (path_of v) [] cur.pgd
            t.root (path_of-IsPath v k))
        a in
    let (m', f, d) =
      copy_ranges-Forked (ranges_of cur) (only pgd) parent pgd cur.pgd m1 c still
        (omega (arith, l)) in
    let got : get_zeroed_page m ≡ some (pgd, zeroed) = rw s refl in
    (
      (record cur { pgd = pgd }, m'),
      copy_mm_step cur pgd m zeroed m' got f,
      record {
        place = d.place;
        pair = d.pair;
        words = λ p i is e. d.words p i is e ∙ same_word p i is e;
        copies = λ v k w. d.copies v k (inr w);
      },
    )

-- If there are pages enough, the first table and four for each page of the ranges, `copy_mm` succeeds: every
-- address in the segments, the stack and the heap of the parent is mapped for the child, to a page with the
-- same words as the parent's; no page is in the tables of both; and no word of a page that the parent's tables
-- lead to changed. The parent's tables are well-formed, and its ranges are whole pages that it has mapped.
pub copy_mm-Child :
    (parent : ℕ → Option (List ℕ)) (cur : Mm) (m : Memory)
    → Placed parent cur.pgd m
    → AreRanges cur.pgd (ranges_of cur) m
    → pages_of (ranges_of cur) * 4 < length m.pages
    → (r : Mm × Memory) × (copy_mm cur m ≡ some r) × Child parent cur m r.0 r.1
copy_mm-Child parent cur m = copy_mm-Child_at parent cur m m.pages refl
