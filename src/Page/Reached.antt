-- ===== src/Page/Reached.antt =====
-- `free_proc_mm`: what it frees is found by the indices of an address of the user.
use fat.Prelude.{
  ℕ, zero, suc, ◌+◌, ◌≤◌, ◌<◌, ◌≡◌, ◌≢◌, inl, inr, some, List, [], ◌∷◌, ◌++◌, ◌==◌, arith, ap, ◌∙◌,
  Bool-cases, length, length-append, sym, refl,
}
use fat.Page.{Memory, target, each_entry, free_table}
use fat.Page.Tree.{IsIndex, find, find_step, IsPath}
use fat.Page.Below.{count, count-append, count_one, inner}

-- A path below the table at `ks` leads to the page, over no more tables than there are levels.
abbrev pub IsFound : ℕ → List ℕ → ℕ → Memory → ℕ → Type 0
IsFound levels ks table m x =
    (ind : ℕ) × (path : List ℕ) × IsPath ks (ind ∷ path)
    × (length path ≤ levels)
    × (find m (ind ∷ path) table ≡ some x)

-- What the loop gives comes from an entry that is not 0.
each_entry_from :
    (x n ind : ℕ) (row : ℕ → ℕ) (body : ℕ → List ℕ)
    → 0 < count x (each_entry n ind row body)
    → (i : ℕ) × (i < ind + n) × (row i ≢ 0) × (0 < count x (body (target (row i))))
unfolding each_entry
each_entry_from x zero ind row body c = absurd (omega (arith, c))
each_entry_from x (suc n) ind row body c = elim (Bool-cases (row ind == 0)) [
  | inl z ↦
      let total : count x (each_entry (suc n) ind row body)
          ≡ count x (each_entry n (ind + 1) row body) =
        rw z refl in
      let (i, l, e, d) = each_entry_from x n (ind + 1) row body (omega (arith, c, total)) in
      (i, omega (arith, l), e, d)
  | inr z ↦
      let total : count x (each_entry (suc n) ind row body)
          ≡ count x (body (target (row ind))) + count x (each_entry n (ind + 1) row body) =
        rw z (count-append x (body (target (row ind))) (each_entry n (ind + 1) row body)) in
      elim (Bool-cases (count x (body (target (row ind))) == 0)) [
        | inl y ↦
            let (i, l, e, d) =
              each_entry_from x n (ind + 1) row body (ground (arith, c, total, y)) in
            (i, omega (arith, l), e, d)
        | inr y ↦ (ind, omega arith, (λ e. absurd (ground (arith, z, e))), ground (arith, y))
      ]
]

-- The page of an entry itself.
IsFound-here :
    (levels ind x table : ℕ) (ks : List ℕ) (m : Memory)
    → IsIndex ks ind
    → m.word table ind ≢ 0
    → x ≡ target (m.word table ind)
    → IsFound levels ks table m x
IsFound-here levels ind x table ks m o n e =
    (ind, [], (o, tt), omega arith, find_step m ind [] table n ∙ ap some (sym e))

-- A page that is found from the table of an entry is found from the table of the entry.
IsFound-under :
    (levels ind x table : ℕ) (ks : List ℕ) (m : Memory)
    → IsIndex ks ind
    → m.word table ind ≢ 0
    → IsFound levels (ks ++ ind ∷ []) (target (m.word table ind)) m x
    → IsFound (suc levels) ks table m x
IsFound-under levels ind x table ks m o n (i, path, ip, l, e) =
    (ind, i ∷ path, (o, ip), omega (arith, l), find_step m ind (i ∷ path) table n ∙ e)

pub free_table-IsFound :
    (levels nr_entry table x : ℕ) (ks : List ℕ) (m : Memory)
    → ((i : ℕ) → i < nr_entry → IsIndex ks i)
    → length ks + levels ≤ 3
    → 0 < count x (free_table levels nr_entry table m)
    → IsFound levels ks table m x
unfolding free_table
free_table-IsFound zero nr_entry table x ks m o d c =
    let (i, l, n, h) = each_entry_from x nr_entry 0 (m.word table) (λ page. page ∷ []) c in
    IsFound-here 0 i x table ks m (o i (omega (arith, l))) n
      (count_one x (target (m.word table i)) h)
free_table-IsFound (suc levels) nr_entry table x ks m o d c =
    let (i, l, n, h) =
      each_entry_from x nr_entry 0 (m.word table)
        (λ next. free_table levels 512 next m ++ next ∷ []) c in
    let next = target (m.word table i) in
    let at = o i (omega (arith, l)) in
    let total = count-append x (free_table levels 512 next m) (next ∷ []) in
    elim (Bool-cases (x == next)) [
      | inl y ↦ IsFound-here (suc levels) i x table ks m at n (ground (arith, y))
      | inr y ↦
          let not_here : count x (next ∷ []) ≡ 0 = ground (arith, y) in
          IsFound-under levels i x table ks m at n (
            free_table-IsFound levels 512 next x (ks ++ i ∷ []) m
              (λ j k. inner ks i j (omega (arith, d)) k)
              (omega (arith, d, length-append ks (i ∷ []))) (omega (arith, total, not_here, h)))
    ]
