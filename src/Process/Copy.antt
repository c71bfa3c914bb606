-- ===== src/Process/Copy.antt =====
-- `copy_mm` of src/core/fork.c: the memory of a child. A range is its first address and its end. `none` is a
-- failed assertion of `map_page`, an address that the parent has not mapped, or a bound that is too small.
use mathlib.Core.Option.{none-ne-some, some-injective}
use fat.Prelude.{
  ℕ, zero, suc, ◌+◌, ◌-◌, ◌*◌, ◌/◌, ◌<◌, ◌≡◌, ◌≢◌, inl, inr, Option, none, some, List, [], ◌∷◌,
  ◌++◌, ◌==◌, ◌&&◌, if◌then◌else◌, arith, refl, sym, ap, ◌∙◌, ltb, Bool-cases, ==_iff, length,
  ◌>>=◌, map,
}
use fat.Page.{Memory, map_page, target, get_zeroed_page}
use fat.Page.Tree.{IsIndex, IsPath, Placed, find, find_step, find_absent, lookup}
use fat.Process.Brk.{page_upper_align}
use fat.Process.Pair.{Pair, index_depth}

-- `memcpy((void *)kstart, (void *)start, PAGE_SIZE)`, from the page behind `start`.
unfoldable pub copy_page : ℕ → ℕ → Memory → Memory
copy_page kstart src m = record m {
  word = λ t i. if t == kstart && ltb i 512 then m.word src i else m.word t i;
}

-- `while (start != end)`, with a bound on its turns.
unfoldable pub copy_pages : ℕ → ℕ → ℕ → ℕ → ℕ → Memory → Option Memory
unfolding copy_page
copy_pages zero cur pgd start end m = if start == end then some m else none
copy_pages (suc turns) cur pgd start end m =
    let turn = (do
      r ← map_page pgd start m
      src ← lookup cur r.1 start
      copy_pages turns cur pgd (start + 0x1000) end (copy_page r.0 src r.1)) in
    if start == end then some m else turn

unfoldable pub copy_ranges : ℕ → ℕ → List (ℕ × ℕ) → Memory → Option Memory
unfolding copy_pages
copy_ranges cur pgd [] m = some m
copy_ranges cur pgd (r ∷ rs) m = do
  m' ← copy_pages ((r.1 - r.0) / 0x1000) cur pgd r.0 r.1 m
  copy_ranges cur pgd rs m'

-- The fields of `mm`.
pub record Mm : Type 0 where
  pub pgd : ℕ
  pub psegs : List (ℕ × ℕ)
  pub start_brk : ℕ
  pub brk : ℕ
  pub start_stack : ℕ
  pub end_stack : ℕ

-- A first table with the upper half of the other one.
unfoldable pub copy_pgd : ℕ → ℕ → Memory → Memory
copy_pgd cur pgd m = record m {
  word =
      λ t i. if t == pgd && ltb i 512 then (if ltb i 256 then 0 else m.word cur i) else m.word t i;
}

-- The mm of the child, the memory, and the answer -1 as `none` when there is no page for the table.
unfoldable pub copy_mm : Mm → Memory → Option (Mm × Memory)
unfolding copy_ranges copy_pgd get_zeroed_page page_upper_align
copy_mm cur m = do
  r ← get_zeroed_page m
  m' ←
      copy_ranges cur.pgd r.0
        (map (λ seg. (seg.0 / 0x1000 * 0x1000, page_upper_align seg.1)) cur.psegs
          ++ (cur.start_stack, cur.end_stack) ∷ (cur.start_brk, cur.brk) ∷ [])
        (copy_pgd cur.pgd r.0 r.1)
  some (record cur { pgd = r.0 }, m')

-- Both processes have the address mapped, to pages with the same words.
abbrev pub Alike : ℕ → ℕ → ℕ → Memory → Type 0
Alike pgd cur v m =
    (p : ℕ) × (q : ℕ) × (lookup pgd m v ≡ some p)
    × (lookup cur m v ≡ some q)
    × ((i : ℕ) → i < 512 → m.word p i ≡ m.word q i)

-- Paths do not change with words that are not in the tables on their way.
pub find-kept :
    (place : ℕ → Option (List ℕ)) (pgd : ℕ) (m m' : Memory)
    → Placed place pgd m
    → ((t i : ℕ) (is : List ℕ) → place t ≡ some is → IsIndex is i → m'.word t i ≡ m.word t i)
    → (path js : List ℕ) (p : ℕ) → place p ≡ some js
    → IsPath js path
    → find m' path p ≡ find m path p
find-kept place pgd m m' t w [] js p at ip = refl
find-kept place pgd m m' t w (i ∷ path) js p at ip =
    let same_word = w p i js at ip.0 in
    elim (Bool-cases (m.word p i == 0)) [
      | inl y ↦
          let z : m.word p i ≡ 0 = (==_iff (m.word p i) 0).0 y in
          find_absent m' i path p (same_word ∙ z) ∙ sym (find_absent m i path p z)
      | inr y ↦
          let n : m.word p i ≢ 0 = λ e. absurd (ground (arith, y, e)) in
          find_step m' i path p (λ e. n (sym same_word ∙ e))
          ∙ ap (λ x. find m' path (target x)) same_word
          ∙ find-kept place pgd m m' t w path (js ++ i ∷ []) (target (m.word p i))
              (t.child p i js at ip.0 n) ip.1
          ∙ sym (find_step m i path p n)
    ]

pub copy-word :
    (page src t i : ℕ) (m : Memory) → t ≢ page → (copy_page page src m).word t i ≡ m.word t i
unfolding copy_page
copy-word page src t i m n = ground (arith, n)

module _ (place parent : ℕ → Option (List ℕ)) (pgd cur page : ℕ) (path : List ℕ) (m : Memory)
    (c : Pair place parent pgd cur m) (at : place page ≡ some path) where
  pub not_leaf :
      length path ≡ 4 → (t i : ℕ) (is : List ℕ) → place t ≡ some is → IsIndex is i → t ≢ page
  not_leaf four t i is e o h = absurd (
      omega (
        arith,
        four,
        index_depth is i o,
        ap length (some-injective is path (sym e ∙ ap place h ∙ at)),
      ))

  pub not_theirs : (t : ℕ) (is : List ℕ) → parent t ≡ some is → t ≢ page
  not_theirs t is e h = absurd (none-ne-some path (sym (c.apart t is e) ∙ ap place h ∙ at))

-- The copy into a page that the child maps.
pub copy-Pair :
    (place parent : ℕ → Option (List ℕ)) (pgd cur page src : ℕ) (path : List ℕ) (m : Memory)
    → Pair place parent pgd cur m
    → place page ≡ some path
    → length path ≡ 4
    → Pair place parent pgd cur (copy_page page src m)
unfolding copy_page
copy-Pair place parent pgd cur page src path m c at four = record {
  own = record {
    root = c.own.root;
    valid = c.own.valid;
    child = λ t i is e o n.
        let w =
          copy-word page src t i m
            (not_leaf place parent pgd cur page path m c at four t i is e o) in
        ap (λ x. place (target x)) w ∙ c.own.child t i is e o (λ z. n (w ∙ z));
    fresh = c.own.fresh;
  };
  theirs = record {
    root = c.theirs.root;
    valid = c.theirs.valid;
    child = λ t i is e o n.
        let w =
          copy-word page src t i m (not_theirs place parent pgd cur page path m c at t is e) in
        ap (λ x. parent (target x)) w ∙ c.theirs.child t i is e o (λ z. n (w ∙ z));
    fresh = c.theirs.fresh;
  };
  apart = c.apart;
}
