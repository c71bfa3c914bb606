-- ===== src/Buddy.antt =====
-- src/mm/buddy.c: the page allocator. A `struct page *` is its index in `mem_map`, the list
-- `block[i]` is the sequence of the pages on it, and the spin lock makes each call one step.
-- `x & ((1 << i) - 1)` is written `x % 2 ^ i`.
pub mod Cover
pub mod Order
pub mod Insert
pub mod Alloc
pub mod Free
pub mod Build
pub mod Init
mod Examples
use mathlib.Core.Option
use fat.Prelude.{
  ℕ, zero, suc, ◌+◌, ◌-◌, ◌*◌, ◌/◌, ◌%◌, ◌^◌, Bool, ◌&&◌, Option, none, some, List, [], ◌∷◌, ◌++◌,
  not, ltb, leb, ◌==◌, if◌then◌else◌, bit_or,
}

abbrev pub max_order : ℕ
max_order = 8

abbrev pub page_size : ℕ
page_size = 0x1000

abbrev pub kernel_offset : ℕ
kernel_offset = 0xffff_8000_0000_0000

abbrev pf_reserve : ℕ
pf_reserve = 1

abbrev pub pf_busy : ℕ
pf_busy = 2

-- The free lists, `block[0]` first, the pages that are handed out, and the `flags` of each page.
pub record Buddy : Type 0 where
  pub block : List (List ℕ)
  pub activate : List ℕ
  pub flags : ℕ → ℕ

-- The tests of `i = k - 1, …, 0`.
check_order_loop : ℕ → ℕ → ℕ
check_order_loop zero offset = 0
check_order_loop (suc i) offset = if offset % 2 ^ i == 0 then i else check_order_loop i offset

pub check_order : ℕ → ℕ
unfolding check_order_loop
check_order page = check_order_loop max_order (page % 2 ^ 32)

-- What a pass over `block[order]` does: it links the page in and stops, or it takes the buddy off
-- and goes on, one order up, with the merged page.
pub data Pass : Type 0 where
  inserted : List ℕ → Pass
  merged : ℕ → List ℕ → Pass

keep : ℕ → Pass → Pass
keep p (inserted l) = inserted (p ∷ l)
keep p (merged page l) = merged page (p ∷ l)

-- `i < MAX_ORDER - 1 && a + (1 << order) == b && check_order(a) >= order + 1`
abbrev joins : ℕ → ℕ → ℕ → Bool
joins order a b =
    ltb order (max_order - 1) && (a + 2 ^ order == b) && leb (order + 1) (check_order a)

insert_pass : ℕ → ℕ → List ℕ → Pass
unfolding keep
insert_pass order page [] = inserted (page ∷ [])
insert_pass order page (p ∷ l) =
    if joins order p page
    then merged p l
    else if joins order page p
    then merged page l
    else if ltb p page
    then keep p (insert_pass order page l)
    else inserted (page ∷ p ∷ l)

-- The outer loop, over `block[order]`, `block[order + 1]`, …. With no list left `p` is never set and
-- the final `__list_add` reads it: `none` is that fault.
insert_from : ℕ → ℕ → List (List ℕ) → Option (List (List ℕ))
insert_from order page [] = none
insert_from order page (l ∷ ls) = elim (insert_pass order page l) [
  | inserted l' ↦ some (l' ∷ ls)
  | merged page' l' ↦ Option.map (λ ls'. l' ∷ ls') (insert_from (suc order) page' ls)
]

-- `insert_at o k` has the lists from `block[o]` on, and inserts at order `o + k`.
insert_at : ℕ → ℕ → ℕ → List (List ℕ) → Option (List (List ℕ))
unfolding insert_from
insert_at o zero page ls = insert_from o page ls
insert_at o (suc k) page [] = none
insert_at o (suc k) page (l ∷ ls) = Option.map (λ ls'. l ∷ ls') (insert_at (suc o) k page ls)

pub block_insert : ℕ → ℕ → List (List ℕ) → Option (List (List ℕ))
unfolding insert_at
block_insert page order block = insert_at 0 order page block

-- The first page of the first list that is not empty, with how many lists were passed over.
find_from : List (List ℕ) → Option (ℕ × ℕ × List (List ℕ))
find_from [] = none
find_from ([] ∷ ls) = Option.map (λ r. (suc r.0, r.1, [] ∷ r.2)) (find_from ls)
find_from ((p ∷ l) ∷ ls) = some (0, p, l ∷ ls)

-- The search from `block[order]` on.
find_block : ℕ → List (List ℕ) → Option (ℕ × ℕ × List (List ℕ))
unfolding find_from
find_block zero ls = find_from ls
find_block (suc k) [] = none
find_block (suc k) (l ∷ ls) = Option.map (λ r. (r.0, r.1, l ∷ r.2)) (find_block k ls)

-- `while (next > order)`, with `next = order + d`: the upper halves go back.
split : ℕ → ℕ → ℕ → List (List ℕ) → Option (List (List ℕ))
split zero order page block = some block
split (suc d) order page block = elim (block_insert (page + 2 ^ (order + d)) (order + d) block) [
  | none ↦ none
  | some block' ↦ split d order page block'
]

-- The outer option is a fault, the inner one the returned pointer.
pub alloc_block : ℕ → Buddy → Option (Option ℕ × Buddy)
unfolding find_block split
alloc_block order b =
    if leb max_order order then some (none, b) else elim (find_block order b.block) [
      | none ↦ some (none, b)
      | some (d, page, block) ↦
          Option.map
            (λ block'. (some page, record b { block = block'; activate = page ∷ b.activate }))
            (split d order page block)
    ]

-- Both cases of the switch on `gfp_mask` do the same.
pub alloc_pages : ℕ → Buddy → Option (Option ℕ × Buddy)
alloc_pages order b = elim (alloc_block order b) [
  | none ↦ none
  | some (none, b') ↦ some (none, b')
  | some (some page, b') ↦ some (
    some page,
    record b' { flags = λ i. if i == page then bit_or (b'.flags page) pf_busy else b'.flags i },
  )
]

-- `page->virtual`, as `init_pages` of src/mm/memory.c sets it.
pub virtual : ℕ → ℕ
virtual page = (page * page_size + kernel_offset) % 2 ^ 64

-- The address of the block, or 0.
pub get_free_pages : ℕ → Buddy → Option (ℕ × Buddy)
get_free_pages order b =
    Option.map (λ r. (elim r.0 [ none ↦ 0 | some page ↦ virtual page ], r.1)) (alloc_pages order b)

-- The page with this address on the list of those handed out, and the list without it.
find_active : ℕ → List ℕ → Option (ℕ × List ℕ)
find_active addr [] = none
find_active addr (pos ∷ l) =
    if virtual pos == addr
    then some (pos, l)
    else Option.map (λ r. (r.0, pos ∷ r.1)) (find_active addr l)

pub free_block : ℕ → ℕ → Buddy → Option Buddy
free_block page order b =
    Option.map (λ block. record b { block = block }) (block_insert page order b.block)

pub free_pages : ℕ → ℕ → Buddy → Option Buddy
unfolding find_active free_block
free_pages addr order b =
    if addr == 0 then some b else elim (find_active (addr / page_size * page_size) b.activate) [
      | none ↦ some b
      | some (page, rest) ↦ free_block page order (record b { activate = rest })
    ]

-- `list_add_tail` of a page to `block[i]`.
pub append_at : ℕ → ℕ → List (List ℕ) → List (List ℕ)
append_at i page [] = []
append_at zero page (l ∷ ls) = (l ++ page ∷ []) ∷ ls
append_at (suc i) page (l ∷ ls) = l ∷ append_at i page ls

-- `count & (1 << i)`
abbrev bit : ℕ → ℕ → Bool
bit count i = count / 2 ^ i % 2 == 1

-- `for (; order >= 0; order--)`, for `order = k - 1, …, 0`.
pub add_bits : ℕ → ℕ → ℕ → List (List ℕ) → List (List ℕ)
unfolding append_at
add_bits zero count left block = block
add_bits (suc i) count left block =
    add_bits i count (if bit count i then left + 2 ^ i else left)
      (if bit count i then append_at i left block else block)

module _ (reserved : ℕ → Bool) (tail : ℕ) where
  -- The inner loop: the pages from `right` on that are free, at most `k`.
  count_pages : ℕ → ℕ → ℕ
  count_pages zero right = 0
  count_pages (suc k) right =
      if not (reserved right) && not (right == tail) then suc (count_pages k (right + 1)) else 0

  add_run : ℕ → ℕ → ℕ → List (List ℕ) → List (List ℕ)
  unfolding append_at add_bits
  add_run order count left block =
      if count == 2 ^ order
      then append_at order left block
      else add_bits (suc order) count left block

  -- The outer loop, on fuel; `none` means that the fuel ran out.
  init_loop : ℕ → ℕ → ℕ → List (List ℕ) → Option (List (List ℕ))
  unfolding count_pages add_run
  init_loop zero left right block = if right == tail then some block else none
  init_loop (suc f) left right block =
      let order = check_order left in
      let count = count_pages (2 ^ order) right in
      let skip = init_loop f (right + 1) (right + 1) block in
      let next = init_loop f (right + count) (right + count) (add_run order count left block) in
      if right == tail then some block else if reserved right then skip else next

-- `MAX_ORDER` fresh lists.
abbrev pub no_blocks : List (List ℕ)
no_blocks = [] ∷ [] ∷ [] ∷ [] ∷ [] ∷ [] ∷ [] ∷ [] ∷ []

-- Each turn moves `right` on, so `nr_pages` turns are enough. The caller's `flags` stay.
pub buddy_system_init : ℕ → (ℕ → ℕ) → Option Buddy
unfolding init_loop
buddy_system_init nr_pages flags =
    Option.map (λ block. record { block = block; activate = []; flags = flags })
      (init_loop (λ i. bit (flags i) 0) nr_pages nr_pages 0 0 no_blocks)
