-- ===== src/Page.antt =====
-- src/mm/page.c: the page tables of a process. A page is named by its linear address, and memory is a
-- function from a page and the index of one of its 512 words to the word. The pages that the page allocator
-- is going to answer are a list, at whose end it answers NULL. `none` is a failed assertion, on which the
-- kernel stops. The upper half of the first table, which all processes share, is not walked.
pub mod Tree
pub mod Walks
pub mod Step
pub mod Map
pub mod Below
pub mod Reached
pub mod Free
pub mod Sample
mod Examples
use fat.Prelude.{
  ℕ, zero, suc, ◌+◌, ◌-◌, ◌*◌, ◌/◌, ◌%◌, ◌^◌, Bool, true, false, Option, none, some, List, [], ◌∷◌,
  ◌++◌, ◌==◌, ◌&&◌, ltb, if◌then◌else◌, bit_or, ◌>>=◌,
}
use fat.Buddy.{kernel_offset}

pub record Memory : Type 0 where
  pub word : ℕ → ℕ → ℕ
  pub pages : List ℕ

abbrev pub to_vir : ℕ → ℕ
to_vir address = (address + kernel_offset) % 2 ^ 64

abbrev pub to_phy : ℕ → ℕ
to_phy address = (address + 2 ^ 64 - kernel_offset) % 2 ^ 64

-- `to_vir(entry & -(1 << 12))`
unfoldable pub target : ℕ → ℕ
target entry = to_vir (entry / 2 ^ 12 * 2 ^ 12)

-- `to_phy(page) | 0x007`, which is the attribute of all four levels.
unfoldable pub entry_of : ℕ → ℕ
entry_of page = to_phy page / 8 * 8 + 7

unfoldable pub write : ℕ → ℕ → ℕ → Memory → Memory
write table ind entry m = record m {
  word = λ t i. if t == table && i == ind then entry else m.word t i;
}

unfoldable pub get_zeroed_page : Memory → Option (ℕ × Memory)
get_zeroed_page m = elim m.pages [
  | [] ↦ none
  | page ∷ rest ↦
      some (page, record m { word = λ t i. if t == page then 0 else m.word t i; pages = rest })
]

-- The step of one level: the table or the page behind an entry, which is made if there is none.
unfoldable pub walk : ℕ → ℕ → Memory → Option (ℕ × Memory)
unfolding get_zeroed_page write entry_of target
walk table ind m =
    if m.word table ind == 0
    then (do r ← get_zeroed_page m; some (r.0, write table ind (entry_of r.0) r.1))
    else some (target (m.word table ind), m)

unfoldable pub map_page : ℕ → ℕ → Memory → Option (ℕ × Memory)
unfolding walk
map_page pml4 ustart m = do
  let ustart4 = ustart % 2 ^ 48
  pdpt ← walk pml4 (ustart4 / 2 ^ 39) m
  let ustart3 = ustart4 % 2 ^ 39
  pd ← walk pdpt.0 (ustart3 / 2 ^ 30) pdpt.1
  let ustart2 = ustart3 % 2 ^ 30
  pt ← walk pd.0 (ustart2 / 2 ^ 21) pd.1
  let ustart1 = ustart2 % 2 ^ 21
  walk pt.0 (ustart1 / 2 ^ 12) pt.1

unfoldable pub kmap : ℕ → ℕ → Memory → ℕ
unfolding target
kmap pml4 uaddr m =
    if uaddr / 2 ^ 48 == 0
    then (let pdpt = target (m.word pml4 (uaddr / 2 ^ 39)) in
        let addr3 = uaddr % 2 ^ 39 in
        let pd = target (m.word pdpt (addr3 / 2 ^ 30)) in
        let addr2 = addr3 % 2 ^ 30 in
        let pt = target (m.word pd (addr2 / 2 ^ 21)) in
        let addr1 = addr2 % 2 ^ 21 in
        to_vir (m.word pt (addr1 / 2 ^ 12) / 2 ^ 12 * 2 ^ 12 + addr1 % 2 ^ 12))
    else uaddr

-- A loop over the entries of a table from the index on, with what the body frees for one that is not 0.
unfoldable pub each_entry : ℕ → ℕ → (ℕ → ℕ) → (ℕ → List ℕ) → List ℕ
each_entry zero ind row body = []
each_entry (suc n) ind row body =
    (if row ind == 0 then [] else body (target (row ind))) ++ each_entry n (ind + 1) row body

-- The pages that the loop over a table frees: `levels` tables lie between it and the pages of the process.
unfoldable pub free_table : ℕ → ℕ → ℕ → Memory → List ℕ
free_table zero nr_entry table m = each_entry nr_entry 0 (m.word table) (λ page. page ∷ [])
free_table (suc levels) nr_entry table m =
    each_entry nr_entry 0 (m.word table) (λ next. free_table levels 512 next m ++ next ∷ [])

-- The pages freed, in order, and the memory with the lower half of the first table zero.
unfoldable pub free_proc_mm : ℕ → Memory → List ℕ × Memory
free_proc_mm pml4 m = (
  free_table 3 256 pml4 m,
  record m { word = λ t i. if t == pml4 && ltb i 256 then 0 else m.word t i },
)
