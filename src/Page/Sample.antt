-- ===== src/Page/Sample.antt =====
-- Page tables with no entries and with one page, for the tests.
use mathlib.Core.Option.{none-ne-some}
use fat.Prelude.{
  ℕ, ◌+◌, ◌*◌, ◌≡◌, Option, none, some, List, [], ◌∷◌, ◌==◌, if◌then◌else◌, arith, refl, sym, ◌∙◌,
  Bool-cases, ==_iff, inl, inr,
}
use fat.Buddy.{kernel_offset}
use fat.Page.{Memory, map_page, walk, write, get_zeroed_page, entry_of, target}
use fat.Page.Walks.{grown}
use fat.Page.Tree.{Placed, IsTree, lookup}
use fat.Page.Map.{map_page-Mapped}

-- The page at a number of pages into the memory of the kernel.
abbrev pub nth_page : ℕ → ℕ
nth_page n = kernel_offset + n * 0x1000

abbrev pub later_pages : List ℕ
later_pages = nth_page 6 ∷ nth_page 7 ∷ nth_page 8 ∷ nth_page 9 ∷ nth_page 10 ∷ []

-- No entries, and nine pages at hand.
abbrev pub empty_tables : Memory
empty_tables = record {
  word = λ t i. 0;
  pages = nth_page 2 ∷ nth_page 3 ∷ nth_page 4 ∷ nth_page 5 ∷ later_pages;
}

abbrev pub only_root : ℕ → Option (List ℕ)
only_root p = if p == nth_page 1 then some [] else none

pub empty_tables-Placed : Placed only_root (nth_page 1) empty_tables
empty_tables-Placed = record {
  root = refl;
  valid = λ p is e. elim (Bool-cases (p == nth_page 1)) [
    | inl y ↦
        let here : p ≡ nth_page 1 = (==_iff p (nth_page 1)).0 y in
        (omega (arith, here), omega (arith, here), omega (arith, here))
    | inr y ↦
        let nowhere : only_root p ≡ none = rw y refl in absurd (none-ne-some is (sym nowhere ∙ e))
  ];
  child = λ t i is e o n. absurd (n refl);
  fresh = ground arith;
}

-- The tables with the page at 0x400000.
abbrev pub mapped_tables : Memory
mapped_tables = grown (nth_page 4) 0 (nth_page 5) later_pages (
    grown (nth_page 3) 2 (nth_page 4) (nth_page 5 ∷ later_pages) (
      grown (nth_page 2) 0 (nth_page 3) (nth_page 4 ∷ nth_page 5 ∷ later_pages) (
        grown (nth_page 1) 0 (nth_page 2) (nth_page 3 ∷ nth_page 4 ∷ nth_page 5 ∷ later_pages)
          empty_tables)))

pub map_page_run : map_page (nth_page 1) 0x400123 empty_tables ≡ some (nth_page 5, mapped_tables)
unfolding map_page walk write get_zeroed_page entry_of target
map_page_run = refl

pub mapped_tables-IsTree : IsTree (nth_page 1) mapped_tables
mapped_tables-IsTree =
    (map_page-Mapped (nth_page 1) 0x400123 (nth_page 5) empty_tables mapped_tables
      (only_root, empty_tables-Placed) (omega arith) map_page_run).tree

pub mapped_tables_found : lookup (nth_page 1) mapped_tables 0x400456 ≡ some (nth_page 5)
unfolding target entry_of
mapped_tables_found = refl
