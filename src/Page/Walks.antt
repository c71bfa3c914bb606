-- ===== src/Page/Walks.antt =====
-- One level of `map_page`: what a step does to the tree.
use mathlib.Core.Option.{none-ne-some, some-injective}
use fat.Prelude.{
  ℕ, ◌≡◌, ◌≢◌, inl, inr, true, false, Option, none, some, List, [], ◌∷◌, ◌++◌, ◌==◌, ◌&&◌,
  if◌then◌else◌, arith, refl, sym, ap, ◌∙◌, Bool-cases, ==_iff, append_assoc, subst,
}
use fat.Page.{Memory, target, entry_of}
use fat.Page.Tree.{
  IsPage, IsIndex, Absent, Fresh, Placed, find, IsPath, target-entry_of, entry_of_ne, find_step,
  find_absent,
}

-- The tree with one more place.
abbrev pub extended : ℕ → List ℕ → (ℕ → Option (List ℕ)) → ℕ → Option (List ℕ)
extended q is place p = if p == q then some is else place p

-- The memory with a new page behind an entry.
abbrev pub grown : ℕ → ℕ → ℕ → List ℕ → Memory → Memory
grown table ind q qs m = record {
  word = λ t i. if t == table && i == ind then entry_of q else if t == q then 0 else m.word t i;
  pages = qs;
}

pub extended_self :
    (place : ℕ → Option (List ℕ)) (q : ℕ) (is : List ℕ) → extended q is place q ≡ some is
extended_self place q is = rw ((==_iff q q).1 refl) refl

pub extended_ne :
    (place : ℕ → Option (List ℕ)) (p q : ℕ) (is : List ℕ) → p ≢ q → extended q is place p ≡ place p
extended_ne place p q is n = let e : (p == q) ≡ false = ground (arith, n) in rw e refl

Fresh-extended :
    (place : ℕ → Option (List ℕ)) (q : ℕ) (is : List ℕ) (ps : List ℕ)
    → Absent q ps
    → Fresh place ps
    → Fresh (extended q is place) ps
Fresh-extended place q is [] a f = tt
Fresh-extended place q is (p ∷ ps) a f = (
  extended_ne place p q is (λ e. a.0 (sym e)) ∙ f.0,
  f.1,
  f.2,
  Fresh-extended place q is ps a.1 f.3,
)

pub grown-word_self :
    (table ind q : ℕ) (qs : List ℕ) (m : Memory)
    → (grown table ind q qs m).word table ind ≡ entry_of q
grown-word_self table ind q qs m =
    let e : (table == table && ind == ind) ≡ true = ground arith in rw e refl

grown-word_new :
    (table ind q : ℕ) (qs : List ℕ) (m : Memory) (i : ℕ)
    → table ≢ q
    → (grown table ind q qs m).word q i ≡ 0
grown-word_new table ind q qs m i n =
    let e : (q == table) ≡ false = ground (arith, n) in
    let s : (q == q) ≡ true = ground arith in rw (e, s) refl

pub grown-word_other :
    (table ind q : ℕ) (qs : List ℕ) (m : Memory) (t i : ℕ)
    → t ≢ q
    → (t == table && i == ind) ≡ false
    → (grown table ind q qs m).word t i ≡ m.word t i
grown-word_other table ind q qs m t i n o =
    let s : (t == q) ≡ false = ground (arith, n) in rw (o, s) refl

at_entry : (t table i ind : ℕ) → (t == table && i == ind) ≡ true → (t ≡ table) × (i ≡ ind)
at_entry t table i ind h = (ground (arith, h), ground (arith, h))

module _ (place : ℕ → Option (List ℕ)) (pml4 table ind q : ℕ) (qs is : List ℕ) (m : Memory)
    (t : Placed place pml4 m) (at : place table ≡ some is) (supply : m.pages ≡ q ∷ qs) where
  pub new_page : Fresh place (q ∷ qs)
  new_page = subst (Fresh place) supply t.fresh

  pub placed_ne : (p : ℕ) (js : List ℕ) → place p ≡ some js → p ≢ q
  placed_ne p js e h = absurd (none-ne-some js (sym new_page.0 ∙ ap place (sym h) ∙ e))

  pub extended_keeps :
      (p : ℕ) (js : List ℕ) → place p ≡ some js → extended q (is ++ ind ∷ []) place p ≡ some js
  extended_keeps p js e = extended_ne place p q (is ++ ind ∷ []) (placed_ne p js e) ∙ e

  entry_made : (p i : ℕ) → p ≡ table → i ≡ ind → (grown table ind q qs m).word p i ≡ entry_of q
  entry_made p i a b =
      ap (λ x. (grown table ind q qs m).word x i) a
      ∙ ap (λ x. (grown table ind q qs m).word table x) b
      ∙ grown-word_self table ind q qs m

  child_kept :
      (p i : ℕ) (js : List ℕ)
      → p ≢ q
      → place p ≡ some js
      → IsIndex js i
      → (grown table ind q qs m).word p i ≢ 0
      → extended q (is ++ ind ∷ []) place (target ((grown table ind q qs m).word p i))
        ≡ some (js ++ i ∷ [])
  child_kept p i js ne e o n = elim (Bool-cases (p == table && i == ind)) [
    | inl b ↦
        let s = at_entry p table i ind b in
        let same_place : js ≡ is = some-injective js is (sym e ∙ ap place s.0 ∙ at) in
        ap (λ x. extended q (is ++ ind ∷ []) place (target x)) (entry_made p i s.0 s.1)
        ∙ ap (extended q (is ++ ind ∷ []) place) (target-entry_of q new_page.1)
        ∙ extended_self place q (is ++ ind ∷ [])
        ∙ ap (λ x. some (x ++ ind ∷ [])) (sym same_place)
        ∙ ap (λ x. some (js ++ x ∷ [])) (sym s.1)
    | inr b ↦
        let w = grown-word_other table ind q qs m p i ne b in
        ap (λ x. extended q (is ++ ind ∷ []) place (target x)) w
        ∙ extended_keeps (target (m.word p i)) (js ++ i ∷ []) (t.child p i js e o (λ z. n (w ∙ z)))
  ]

  -- The tree stays well-formed.
  pub grown-Placed : Placed (extended q (is ++ ind ∷ []) place) pml4 (grown table ind q qs m)
  grown-Placed = record {
    root = extended_keeps pml4 [] t.root;
    valid = λ p js e. elim (Bool-cases (p == q)) [
      | inl y ↦ subst IsPage (sym ((==_iff p q).0 y)) new_page.1
      | inr y ↦ t.valid p js (ap (λ b. if b then some (is ++ ind ∷ []) else place p) (sym y) ∙ e)
    ];
    child = λ p i js e o n. elim (Bool-cases (p == q)) [
      | inl y ↦ absurd (
          n (
            ap (λ x. (grown table ind q qs m).word x i) ((==_iff p q).0 y)
            ∙ grown-word_new table ind q qs m i (placed_ne table is at)))
      | inr y ↦
          child_kept p i js (λ h. absurd (ground (arith, y, h)))
            (ap (λ b. if b then some (is ++ ind ∷ []) else place p) (sym y) ∙ e) o n
    ];
    fresh = Fresh-extended place q (is ++ ind ∷ []) qs new_page.2 new_page.3;
  }

  find-grown_new :
      (path js : List ℕ) (i : ℕ)
      → js ++ i ∷ path ≢ js ++ i ∷ []
      → find (grown table ind q qs m) path q ≡ none
  find-grown_new [] js i n = absurd (n refl)
  find-grown_new (k ∷ path) js i n =
      find_absent (grown table ind q qs m) k path q
        (grown-word_new table ind q qs m k (placed_ne table is at))

  -- The paths that do not go to the new page lead where they led.
  pub find-grown :
      m.word table ind ≡ 0
      → (path js : List ℕ) (p : ℕ) → place p ≡ some js
      → IsPath js path
      → js ++ path ≢ is ++ ind ∷ []
      → find (grown table ind q qs m) path p ≡ find m path p
  find-grown z [] js p e ip n = refl
  find-grown z (i ∷ path) js p e ip n =
      let ne = placed_ne p js e in
      elim (Bool-cases (p == table && i == ind)) [
        | inl b ↦
            let s = at_entry p table i ind b in
            let same_place : js ≡ is = some-injective js is (sym e ∙ ap place s.0 ∙ at) in
            let made = entry_made p i s.0 s.1 in
            let zero_entry : m.word p i ≡ 0 =
              ap (λ x. m.word x i) s.0 ∙ ap (m.word table) s.1 ∙ z in
            find_step (grown table ind q qs m) i path p (λ h. entry_of_ne q (sym made ∙ h))
            ∙ ap (λ x. find (grown table ind q qs m) path (target x)) made
            ∙ ap (find (grown table ind q qs m) path) (target-entry_of q new_page.1)
            ∙ find-grown_new path js i
                (λ h. n (h ∙ ap (λ x. x ++ i ∷ []) same_place ∙ ap (λ x. is ++ x ∷ []) s.1))
            ∙ sym (find_absent m i path p zero_entry)
        | inr b ↦
            let w = grown-word_other table ind q qs m p i ne b in
            elim (Bool-cases (m.word p i == 0)) [
              | inl h ↦
                  let zero_entry : m.word p i ≡ 0 = (==_iff (m.word p i) 0).0 h in
                  find_absent (grown table ind q qs m) i path p (w ∙ zero_entry)
                  ∙ sym (find_absent m i path p zero_entry)
              | inr h ↦
                  let entry : m.word p i ≢ 0 = λ x. absurd (ground (arith, h, x)) in
                  find_step (grown table ind q qs m) i path p (λ x. entry (sym w ∙ x))
                  ∙ ap (λ x. find (grown table ind q qs m) path (target x)) w
                  ∙ find-grown z path (js ++ i ∷ []) (target (m.word p i))
                      (t.child p i js e ip.0 entry) ip.1
                      (λ x. n (sym (append_assoc js (i ∷ []) path) ∙ x))
                  ∙ sym (find_step m i path p entry)
            ]
      ]
