-- ===== src/Page/Examples.antt =====
-- Page tables at concrete inputs.
use fat.Prelude.{length, ◌≤◌, ℕ, ◌+◌, ◌≡◌, some, arith, ◌+◌}
use fat.Page.{Memory, map_page, kmap, free_proc_mm}
use fat.Page.Map.{Mapped, map_page-Mapped, map_page_supplied, kmap-lookup}
use fat.Page.Free.{Freed, free_proc_mm-Freed}
use fat.Page.Sample.{
  nth_page, empty_tables, only_root, empty_tables-Placed, mapped_tables, map_page_run,
  mapped_tables-IsTree, mapped_tables_found,
}

map_page-Mapped_example : Mapped (nth_page 1) 0x400123 (nth_page 5) empty_tables mapped_tables
map_page-Mapped_example =
    map_page-Mapped (nth_page 1) 0x400123 (nth_page 5) empty_tables mapped_tables
      (only_root, empty_tables-Placed) (omega arith) map_page_run

map_page_supplied_example :
    (r : ℕ × Memory) × (map_page (nth_page 1) 0x400123 empty_tables ≡ some r)
    × (length empty_tables.pages ≤ length r.1.pages + 4)
map_page_supplied_example = map_page_supplied (nth_page 1) 0x400123 empty_tables (omega arith)

kmap-lookup_example : kmap (nth_page 1) 0x400456 mapped_tables ≡ nth_page 5 + 0x456
kmap-lookup_example =
    kmap-lookup (nth_page 1) 0x400456 (nth_page 5) mapped_tables mapped_tables-IsTree (omega arith)
      mapped_tables_found

free_proc_mm-Freed_example :
    Freed
      (nth_page 1)
      mapped_tables
      (free_proc_mm (nth_page 1) mapped_tables).0
      (free_proc_mm (nth_page 1) mapped_tables).1
free_proc_mm-Freed_example = free_proc_mm-Freed (nth_page 1) mapped_tables mapped_tables-IsTree
