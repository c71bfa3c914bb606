-- ===== src/Page/Tree.antt =====
-- What well-formed page tables are: each page of the tree stands at one place, the indices from the
-- first table to it, so that no page is used twice.
use fat.Prelude.{
  length, ℕ, ◌/◌, ◌%◌, ◌^◌, ◌≤◌, ◌<◌, ◌≡◌, ◌≢◌, inl, inr, true, false, Option, none, some, List, [],
  ◌∷◌, ◌++◌, ◌==◌, if◌then◌else◌, arith, refl, sym, ap, ◌∙◌, get_or, Bool-cases, append-nil,
  append_assoc,
}
use mathlib.Core.Option.{none-ne-some, some-injective}
use fat.Buddy.{kernel_offset}
use fat.Page.{Memory, target, entry_of}

-- The address of a page in the memory that the kernel maps.
abbrev pub IsPage : ℕ → Type 0
IsPage page = (page % 2 ^ 12 ≡ 0) × (kernel_offset ≤ page) × (page < 2 ^ 64)

-- The user's half of the first table has 256 entries, and there are four levels of tables: the words of the
-- pages that they map are of no concern.
abbrev pub IsIndex : List ℕ → ℕ → Type 0
IsIndex [] ind = ind < 256
IsIndex (i ∷ is) ind = (ind < 512) × (length is < 3)

abbrev pub Absent : ℕ → List ℕ → Type 0
Absent page [] = Unit {0}
Absent page (p ∷ ps) = (page ≢ p) × Absent page ps

-- Pages that are not in the tree, and no two the same.
abbrev pub Fresh : (ℕ → Option (List ℕ)) → List ℕ → Type 0
Fresh place [] = Unit {0}
Fresh place (p ∷ ps) = (place p ≡ none) × IsPage p × Absent p ps × Fresh place ps

pub record Placed (place : ℕ → Option (List ℕ)) (pml4 : ℕ) (m : Memory) : Type 0 where
  pub root : place pml4 ≡ some []
  pub valid : (page : ℕ) (is : List ℕ) → place page ≡ some is → IsPage page
  pub child :
      (table ind : ℕ) (is : List ℕ)
      → place table ≡ some is
      → IsIndex is ind
      → m.word table ind ≢ 0
      → place (target (m.word table ind)) ≡ some (is ++ ind ∷ [])
  pub fresh : Fresh place m.pages

abbrev pub IsTree : ℕ → Memory → Type 0
IsTree pml4 m = (place : ℕ → Option (List ℕ)) × Placed place pml4 m

-- The page at the end of a path of indices.
abbrev pub find : Memory → List ℕ → ℕ → Option ℕ
find m [] table = some table
find m (ind ∷ path) table =
    if m.word table ind == 0 then none else find m path (target (m.word table ind))

-- Indices that stay in the tables, below a table at a place.
abbrev pub IsPath : List ℕ → List ℕ → Type 0
IsPath is [] = Unit {0}
IsPath is (ind ∷ path) = IsIndex is ind × IsPath (is ++ ind ∷ []) path

-- The indices of an address of the user.
abbrev pub path_of : ℕ → List ℕ
path_of u = u / 2 ^ 39 ∷ u / 2 ^ 30 % 512 ∷ u / 2 ^ 21 % 512 ∷ u / 2 ^ 12 % 512 ∷ []

-- The page that an address of the user is mapped to.
abbrev pub lookup : ℕ → Memory → ℕ → Option ℕ
lookup pml4 m u = find m (path_of u) pml4

pub path_of-IsPath : (u : ℕ) → u < 2 ^ 47 → IsPath [] (path_of u)
path_of-IsPath u h = (
  omega (arith, h),
  ((omega arith, omega arith), ((omega arith, omega arith), ((omega arith, omega arith), tt))),
)

pub path_of_page : (u v : ℕ) → path_of u ≡ path_of v → u / 2 ^ 12 ≡ v / 2 ^ 12
path_of_page u v e = omega (
  arith,
  ap (λ l. get_or l 0 0) e,
  ap (λ l. get_or l 1 0) e,
  ap (λ l. get_or l 2 0) e,
  ap (λ l. get_or l 3 0) e,
)

pub page-path_of : (u v : ℕ) → u / 2 ^ 12 ≡ v / 2 ^ 12 → path_of u ≡ path_of v
page-path_of u v e =
    let a : u / 2 ^ 39 ≡ v / 2 ^ 39 = omega (arith, e) in
    let b : u / 2 ^ 30 ≡ v / 2 ^ 30 = omega (arith, e) in
    let c : u / 2 ^ 21 ≡ v / 2 ^ 21 = omega (arith, e) in rw (a, b, c, e) refl

pub target-entry_of : (page : ℕ) → IsPage page → target (entry_of page) ≡ page
unfolding target entry_of
target-entry_of page v = omega (arith, v.0, v.1, v.2)

pub entry_of_ne : (page : ℕ) → entry_of page ≢ 0
unfolding entry_of
entry_of_ne page e = absurd (omega (arith, e))

-- A path that leads to a page goes through an entry that is not 0.
pub find-cons :
    (m : Memory) (ind : ℕ) (path : List ℕ) (p q : ℕ)
    → find m (ind ∷ path) p ≡ some q
    → (m.word p ind ≢ 0) × (find m path (target (m.word p ind)) ≡ some q)
find-cons m ind path p q e = elim (Bool-cases (m.word p ind == 0)) [
  | inl z ↦
      let shut : find m (ind ∷ path) p ≡ none = rw z refl in absurd (none-ne-some q (sym shut ∙ e))
  | inr n ↦ (λ z. absurd (ground (arith, n, z)), sym (rw n refl) ∙ e)
]

pub find_step :
    (m : Memory) (ind : ℕ) (path : List ℕ) (p : ℕ)
    → m.word p ind ≢ 0
    → find m (ind ∷ path) p ≡ find m path (target (m.word p ind))
find_step m ind path p n = let z : (m.word p ind == 0) ≡ false = ground (arith, n) in rw z refl

pub find_absent :
    (m : Memory) (ind : ℕ) (path : List ℕ) (p : ℕ) → m.word p ind ≡ 0 → find m (ind ∷ path) p ≡ none
find_absent m ind path p n = let z : (m.word p ind == 0) ≡ true = ground (arith, n) in rw z refl

pub find-append :
    (m : Memory) (path : List ℕ) (ind p q : ℕ)
    → find m path p ≡ some q
    → find m (path ++ ind ∷ []) p ≡ find m (ind ∷ []) q
find-append m [] ind p q e = ap (find m (ind ∷ [])) (some-injective p q e)
find-append m (i ∷ path) ind p q e =
    let s = find-cons m i path p q e in
    find_step m i (path ++ ind ∷ []) p s.0 ∙ find-append m path ind (target (m.word p i)) q s.1

-- A path leads to the page at its place.
pub find-Placed :
    {place : ℕ → Option (List ℕ)} {pml4 : ℕ} {m : Memory} (path is : List ℕ) (p q : ℕ)
    → Placed place pml4 m
    → place p ≡ some is
    → IsPath is path
    → find m path p ≡ some q
    → place q ≡ some (is ++ path)
find-Placed {place} [] is p q t at ip e =
    ap place (sym (some-injective p q e)) ∙ at ∙ ap some (sym (append-nil is))
find-Placed {place} {m} (i ∷ path) is p q t at ip e =
    let s = find-cons m i path p q e in
    find-Placed path (is ++ i ∷ []) (target (m.word p i)) q t (t.child p i is at ip.0 s.0) ip.1 s.1
    ∙ ap some (append_assoc is (i ∷ []) path)
