-- ===== src/Process/Ranges.antt =====
-- The loops of `copy_mm` over a list of ranges.
use fat.Prelude.{
  ℕ, zero, suc, ◌+◌, ◌-◌, ◌*◌, ◌/◌, ◌%◌, ◌^◌, ◌≤◌, ◌<◌, ◌≡◌, ◌⊎◌, inl, inr, true, false, Option,
  some, List, [], ◌∷◌, ◌==◌, arith, refl, ◌∙◌, ltb, Bool-cases, length,
}
use fat.Page.{Memory}
use fat.Page.Tree.{lookup, path_of, path_of-IsPath}
use fat.Page.Map.{map_page_supplied}
use fat.Process.Pair.{Pair}
use fat.Process.Copy.{copy_page, copy_pages, copy_ranges, Alike, find-kept}
use fat.Process.Copied.{Copied, page-Copied, parent_mapped}

-- The parent has the range mapped.
abbrev pub Maps : ℕ → ℕ → ℕ → Memory → Type 0
Maps cur start end m = (v : ℕ) → start ≤ v → v < end → (q : ℕ) × (lookup cur m v ≡ some q)

lookup-Copied :
    (place parent : ℕ → Option (List ℕ)) (pgd cur start end v : ℕ) (m m' : Memory)
    → Pair place parent pgd cur m
    → Copied parent pgd cur start end m m'
    → v < 2 ^ 47
    → lookup cur m' v ≡ lookup cur m v
lookup-Copied place parent pgd cur start end v m m' c d k =
    find-kept parent cur m m' c.theirs (λ t i is h o. d.words t i is h) (path_of v) [] cur
      c.theirs.root (path_of-IsPath v k)

Copied-trans :
    (parent : ℕ → Option (List ℕ)) (pgd cur start mid end : ℕ) (m m1 m2 : Memory)
    → Copied parent pgd cur start mid m m1
    → Copied parent pgd cur mid end m1 m2
    → Copied parent pgd cur start end m m2
Copied-trans parent pgd cur start mid end m m1 m2 a b = record {
  place = b.place;
  pair = b.pair;
  words = λ t i is h. b.words t i is h ∙ a.words t i is h;
  copies = λ v k h. elim h [
    | inl before ↦ b.copies v k (inl (a.copies v k (inl before)))
    | inr r ↦ elim (Bool-cases (ltb v mid)) [
      | inl y ↦ b.copies v k (inl (a.copies v k (inr (r.0, ground (arith, y)))))
      | inr y ↦ b.copies v k (inr (ground (arith, y), r.1))
    ]
  ];
}

copy_pages-Copied :
    (turns : ℕ) (place parent : ℕ → Option (List ℕ)) (pgd cur start end : ℕ) (m : Memory)
    → Pair place parent pgd cur m
    → start % 0x1000 ≡ 0
    → start + turns * 0x1000 ≡ end
    → end ≤ 2 ^ 47
    → Maps cur start end m
    → turns * 4 ≤ length m.pages
    → (m' : Memory) × (copy_pages turns cur pgd start end m ≡ some m')
      × Copied parent pgd cur start end m m'
      × (length m.pages ≤ length m'.pages + turns * 4)
unfolding copy_pages copy_page
copy_pages-Copied zero place parent pgd cur start end m c a d l w s =
    let over : (start == end) ≡ true = ground (arith, d) in
    (
      m,
      rw over refl,
      record {
        place = place;
        pair = c;
        words = λ t i is h. refl;
        copies =
            λ v k h. elim h [ inl before ↦ before | inr r ↦ absurd (omega (arith, r.0, r.1, d)) ];
      },
      omega arith,
    )
copy_pages-Copied (suc turns) place parent pgd cur start end m c a d l w s =
    let more : (start == end) ≡ false = ground (arith, d) in
    let (src, source) = w start (omega arith) (omega (arith, d)) in
    let (r, e, used) = map_page_supplied pgd start m (omega (arith, s)) in
    let below : start < 2 ^ 47 = omega (arith, d, l) in
    let m2 : Memory = copy_page r.0 src r.1 in
    let first : Copied parent pgd cur start (start + 0x1000) m m2 =
      page-Copied place parent pgd cur start src r.0 m r.1 c a below source e in
    let found = parent_mapped place parent pgd cur start src r.0 m r.1 c a below source e in
    let (m', f, rest, left) =
      copy_pages-Copied turns first.place parent pgd cur (start + 0x1000) end m2 first.pair
        (omega (arith, a)) (omega (arith, d)) l
        (λ v x y.
          let (q, g) = w v (omega (arith, x)) y in
          (
            q,
            lookup-Copied place parent pgd cur start (start + 0x1000) v m m2 c first
                  (omega (arith, y, l))
                ∙ g,
          ))
        (omega (arith, s, used)) in
    (
      m',
      rw (more, e) (rw found f),
      Copied-trans parent pgd cur start (start + 0x1000) end m m2 m' first rest,
      omega (arith, left, used),
    )

-- Ranges of whole pages of the user, which the parent has mapped.
abbrev pub AreRanges : ℕ → List (ℕ × ℕ) → Memory → Type 0
AreRanges cur [] m = Unit {0}
AreRanges cur (r ∷ rs) m =
    (r.0 % 0x1000 ≡ 0)
    × (r.1 % 0x1000 ≡ 0)
    × (r.0 ≤ r.1)
    × (r.1 ≤ 2 ^ 47)
    × Maps cur r.0 r.1 m
    × AreRanges cur rs m

abbrev pub Within : ℕ → List (ℕ × ℕ) → Type 0
Within v [] = v < 0
Within v (r ∷ rs) = ((r.0 ≤ v) × (v < r.1)) ⊎ Within v rs

abbrev pub pages_of : List (ℕ × ℕ) → ℕ
pages_of [] = 0
pages_of (r ∷ rs) = (r.1 - r.0) / 0x1000 + pages_of rs

-- The ranges are copied, and nothing changed for the parent.
pub record Forked (parent : ℕ → Option (List ℕ)) (pgd cur : ℕ) (rs : List (ℕ × ℕ)) (m m' : Memory)
    : Type 0 where
  pub place : ℕ → Option (List ℕ)
  pub pair : Pair place parent pgd cur m'
  pub words : (t i : ℕ) (is : List ℕ) → parent t ≡ some is → m'.word t i ≡ m.word t i
  pub copies : (v : ℕ) → v < 2 ^ 47 → Alike pgd cur v m ⊎ Within v rs → Alike pgd cur v m'

pub AreRanges-kept :
    (cur : ℕ) (rs : List (ℕ × ℕ)) (m m' : Memory)
    → ((v : ℕ) → v < 2 ^ 47 → lookup cur m' v ≡ lookup cur m v)
    → AreRanges cur rs m
    → AreRanges cur rs m'
AreRanges-kept cur [] m m' h a = tt
AreRanges-kept cur (r ∷ rs) m m' h a = (
  a.0,
  a.1,
  a.2,
  a.3,
  (λ v x y. let (q, g) = a.4 v x y in (q, h v (omega (arith, y, a.3)) ∙ g)),
  AreRanges-kept cur rs m m' h a.5,
)

Forked-trans :
    (parent : ℕ → Option (List ℕ)) (pgd cur start end : ℕ) (rs : List (ℕ × ℕ)) (m m1 m' : Memory)
    → Copied parent pgd cur start end m m1
    → Forked parent pgd cur rs m1 m'
    → Forked parent pgd cur ((start, end) ∷ rs) m m'
Forked-trans parent pgd cur start end rs m m1 m' first rest = record {
  place = rest.place;
  pair = rest.pair;
  words = λ t i is h. rest.words t i is h ∙ first.words t i is h;
  copies = λ v k h. elim h [
    | inl before ↦ rest.copies v k (inl (first.copies v k (inl before)))
    | inr w ↦ elim w [
      | inl here ↦ rest.copies v k (inl (first.copies v k (inr here)))
      | inr later ↦ rest.copies v k (inr later)
    ]
  ];
}

pub copy_ranges-Forked :
    (rs : List (ℕ × ℕ)) (place parent : ℕ → Option (List ℕ)) (pgd cur : ℕ) (m : Memory)
    → Pair place parent pgd cur m
    → AreRanges cur rs m
    → pages_of rs * 4 ≤ length m.pages
    → (m' : Memory) × (copy_ranges cur pgd rs m ≡ some m') × Forked parent pgd cur rs m m'
unfolding copy_ranges
copy_ranges-Forked [] place parent pgd cur m c a s = (
  m,
  refl,
  record {
    place = place;
    pair = c;
    words = λ t i is h. refl;
    copies = λ v k h. elim h [ inl before ↦ before | inr r ↦ absurd (omega (arith, r)) ];
  },
)
copy_ranges-Forked (r ∷ rs) place parent pgd cur m c a s =
    let (m1, e, first, left) =
      copy_pages-Copied ((r.1 - r.0) / 0x1000) place parent pgd cur r.0 r.1 m c a.0
        (omega (arith, a.0, a.1, a.2)) a.3 a.4 (omega (arith, s)) in
    let (m', f, rest) =
      copy_ranges-Forked rs first.place parent pgd cur m1 first.pair
        (AreRanges-kept cur rs m m1
          (λ v k. lookup-Copied place parent pgd cur r.0 r.1 v m m1 c first k) a.5)
        (omega (arith, s, left)) in
    (m', rw e f, Forked-trans parent pgd cur r.0 r.1 rs m m1 m' first rest)
