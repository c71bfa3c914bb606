-- ===== src/Page/Below.antt =====
-- What the loops of `free_proc_mm` free, at most once each.
use mathlib.Core.Option.{some-injective}
use fat.Prelude.{
  ℕ, zero, suc, ◌+◌, ◌≤◌, ◌<◌, ◌≡◌, ◌≢◌, inl, inr, Option, some, List, [], ◌∷◌, ◌++◌, ◌==◌,
  if◌then◌else◌, arith, refl, sym, ap, ◌∙◌, Bool-cases, ==_iff, append_assoc, append-nil, length,
  length-append, get_or,
}
use fat.Page.{Memory, target, each_entry, free_table}
use fat.Page.Tree.{IsIndex, Placed}

-- How often a page is freed.
abbrev pub count : ℕ → List ℕ → ℕ
count x [] = 0
count x (y ∷ ys) = (if x == y then 1 else 0) + count x ys

pub count-append : (x : ℕ) (ys zs : List ℕ) → count x (ys ++ zs) ≡ count x ys + count x zs
count-append x [] zs = omega arith
count-append x (y ∷ ys) zs = omega (arith, count-append x ys zs)

pub count_one : (x y : ℕ) → 0 < count x (y ∷ []) → x ≡ y
count_one x y h = ground (arith, h)

pub count_self : (x y : ℕ) → x ≡ y → count x (y ∷ []) ≡ 1
count_self x y h = ground (arith, h)

pub count_le_one : (x y : ℕ) → count x (y ∷ []) ≤ 1
count_le_one x y = ground arith

get_or-append : (ks : List ℕ) (i : ℕ) (zs : List ℕ) → get_or (ks ++ i ∷ zs) (length ks) 0 ≡ i
get_or-append [] i zs = refl
get_or-append (k ∷ ks) i zs = get_or-append ks i zs

branch : (ks : List ℕ) (i j : ℕ) (ys zs : List ℕ) → ks ++ i ∷ ys ≡ ks ++ j ∷ zs → i ≡ j
branch ks i j ys zs e =
    sym (get_or-append ks i ys) ∙ ap (λ l. get_or l (length ks) 0) e ∙ get_or-append ks j zs

pub longer : (ks zs : List ℕ) (j : ℕ) → ks ≢ ks ++ j ∷ zs
longer ks zs j e = absurd (omega (arith, ap length e, length-append ks (j ∷ zs)))

pub inner : (ks : List ℕ) (i j : ℕ) → length ks < 3 → j < 512 → IsIndex (ks ++ i ∷ []) j
inner [] i j d l = (l, omega arith)
inner (k ∷ ks) i j d l = (l, omega (arith, d, length-append ks (i ∷ [])))

module _ (place : ℕ → Option (List ℕ)) (x : ℕ) where
  -- At most once, and only a page below the table at `ks`, by an index from `from` on.
  abbrev pub Below : List ℕ → ℕ → List ℕ → Type 0
  Below ks from l =
      (count x l ≤ 1)
      × (0 < count x l → (i : ℕ) × (zs : List ℕ) × (from ≤ i) × (place x ≡ some (ks ++ i ∷ zs)))

  -- At most once, and only the page at `ks` or one below.
  abbrev At : List ℕ → List ℕ → Type 0
  At ks l = (count x l ≤ 1) × (0 < count x l → (zs : List ℕ) × (place x ≡ some (ks ++ zs)))

  Below-apart :
      (ks : List ℕ) (ind : ℕ) (l rest : List ℕ)
      → At (ks ++ ind ∷ []) l
      → Below ks (ind + 1) rest
      → 0 < count x l
      → count x rest ≡ 0
  Below-apart ks ind l rest a b h = elim (Bool-cases (count x rest == 0)) [
    | inl z ↦ (==_iff (count x rest) 0).0 z
    | inr n ↦
        let (zs, e) = a.1 h in
        let (i, ys, le, f) = b.1 (ground (arith, n)) in
        let same_place : ks ++ ind ∷ zs ≡ ks ++ i ∷ ys =
          sym (append_assoc ks (ind ∷ []) zs) ∙ some-injective _ _ (sym e ∙ f) in
        absurd (omega (arith, le, branch ks ind i zs ys same_place))
  ]

  Below-append :
      (ks : List ℕ) (ind : ℕ) (l rest : List ℕ)
      → At (ks ++ ind ∷ []) l
      → Below ks (ind + 1) rest
      → Below ks ind (l ++ rest)
  Below-append ks ind l rest a b =
      let total = count-append x l rest in
      elim (Bool-cases (count x l == 0)) [
        | inl z ↦
            let none_here : count x l ≡ 0 = (==_iff (count x l) 0).0 z in
            (
              omega (arith, total, none_here, b.0),
              λ h.
                  let (i, zs, le, e) = b.1 (omega (arith, h, total, none_here)) in
                  (i, zs, omega (arith, le), e),
            )
        | inr n ↦
            let some_here : 0 < count x l = ground (arith, n) in
            (
              omega (arith, total, Below-apart ks ind l rest a b some_here, a.0),
              λ h.
                  let (zs, e) = a.1 some_here in
                  (ind, zs, omega arith, e ∙ ap some (append_assoc ks (ind ∷ []) zs)),
            )
      ]

  each_entry-Below :
      (n ind : ℕ) (ks : List ℕ) (row : ℕ → ℕ) (body : ℕ → List ℕ)
      → ((i : ℕ) → i < ind + n → row i ≢ 0 → At (ks ++ i ∷ []) (body (target (row i))))
      → Below ks ind (each_entry n ind row body)
  unfolding each_entry
  each_entry-Below zero ind ks row body h = (omega arith, λ c. absurd (omega (arith, c)))
  each_entry-Below (suc n) ind ks row body h =
      let rest = each_entry-Below n (ind + 1) ks row body (λ i l. h i (omega (arith, l))) in
      elim (Bool-cases (row ind == 0)) [
        | inl z ↦ rw z (
            Below-append ks ind [] (each_entry n (ind + 1) row body)
              (omega arith, λ c. absurd (omega (arith, c))) rest)
        | inr z ↦ rw z (
            Below-append ks ind (body (target (row ind))) (each_entry n (ind + 1) row body)
              (h ind (omega arith) (λ e. absurd (ground (arith, z, e)))) rest)
      ]

  -- A table after what is below it.
  At-append :
      (ks : List ℕ) (next : ℕ) (l : List ℕ)
      → place next ≡ some ks
      → Below ks 0 l
      → At ks (l ++ next ∷ [])
  At-append ks next l e b =
      let total = count-append x l (next ∷ []) in
      elim (Bool-cases (x == next)) [
        | inl y ↦
            let here : x ≡ next = (==_iff x next).0 y in
            let nowhere_else : count x l ≡ 0 = elim (Bool-cases (count x l == 0)) [
              | inl z ↦ (==_iff (count x l) 0).0 z
              | inr n ↦
                  let (i, zs, le, f) = b.1 (ground (arith, n)) in
                  absurd (
                    longer ks zs i
                      (some-injective ks (ks ++ i ∷ zs) (sym e ∙ ap place (sym here) ∙ f)))
            ] in
            (
              omega (arith, total, nowhere_else, count_le_one x next),
              λ h. ([], ap place here ∙ e ∙ ap some (sym (append-nil ks))),
            )
        | inr y ↦
            let not_here : count x (next ∷ []) ≡ 0 = ground (arith, y) in
            (
              omega (arith, total, not_here, b.0),
              λ h. let (i, zs, le, f) = b.1 (omega (arith, total, not_here, h)) in (i ∷ zs, f),
            )
      ]

  pub free_table-Below :
      (levels nr_entry table pml4 : ℕ) (ks : List ℕ) (m : Memory)
      → Placed place pml4 m
      → place table ≡ some ks
      → ((i : ℕ) → i < nr_entry → IsIndex ks i)
      → length ks + levels ≤ 3
      → Below ks 0 (free_table levels nr_entry table m)
  unfolding free_table
  free_table-Below zero nr_entry table pml4 ks m t e o d =
      each_entry-Below nr_entry 0 ks (m.word table) (λ page. page ∷ [])
        (λ i l n. (
          count_le_one x (target (m.word table i)),
          λ c. (
            [],
            ap place (count_one x (target (m.word table i)) c)
                ∙ t.child table i ks e (o i (omega (arith, l))) n
                ∙ ap some (sym (append-nil (ks ++ i ∷ []))),
          ),
        ))
  free_table-Below (suc levels) nr_entry table pml4 ks m t e o d =
      each_entry-Below nr_entry 0 ks (m.word table)
        (λ next. free_table levels 512 next m ++ next ∷ [])
        (λ i l n.
          let c = t.child table i ks e (o i (omega (arith, l))) n in
          At-append (ks ++ i ∷ []) (target (m.word table i))
            (free_table levels 512 (target (m.word table i)) m) c
            (free_table-Below levels 512 (target (m.word table i)) pml4 (ks ++ i ∷ []) m t c
              (λ j k. inner ks i j (omega (arith, d)) k)
              (omega (arith, d, length-append ks (i ∷ [])))))
