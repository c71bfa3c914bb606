-- ===== src/Buddy/Examples.antt =====
-- Runs of the page allocator of src/mm/buddy.c, and its theorems at concrete lists.
use fat.Prelude.{ℕ, ◌≡◌, arith, some, List, [], ◌∷◌, ltb, not, ◌&&◌, if◌then◌else◌, refl, ◌==◌}
use fat.Buddy.{
  Buddy, check_order, insert_pass, block_insert, alloc_block, alloc_pages, get_free_pages,
  free_pages, virtual, buddy_system_init, bit,
}
use fat.Buddy.Cover.{total}
use fat.Buddy.Alloc.{IsSound, AllocOutcome, alloc_block-Outcome}
use fat.Buddy.Free.{Restored, free-alloc}
use fat.Buddy.Init.{init-usable}

-- Pages 1 and 4 are free alone, and 8 to 15 as a block.
abbrev some_blocks : List (List ℕ)
some_blocks = (1 ∷ 4 ∷ []) ∷ [] ∷ [] ∷ (8 ∷ []) ∷ [] ∷ [] ∷ [] ∷ [] ∷ []

abbrev some_buddy : Buddy
some_buddy = record { block = some_blocks; activate = []; flags = λ i. 0 }

some_blocks-IsSound : IsSound some_blocks
some_blocks-IsSound = record { lists = refl; chains = omega arith; apart = λ x. ground arith }

-- 5 joins 4, and the pair is not aligned with a free buddy.
insert_5 :
    block_insert 5 0 some_blocks
    ≡ some ((1 ∷ []) ∷ (4 ∷ []) ∷ [] ∷ (8 ∷ []) ∷ [] ∷ [] ∷ [] ∷ [] ∷ [])
unfolding block_insert insert_pass check_order
insert_5 = refl

-- A request for four pages splits the block at 8.
alloc_4 :
    alloc_block 2 some_buddy
    ≡ some (
      some 8,
      record some_buddy {
        block = (1 ∷ 4 ∷ []) ∷ [] ∷ (12 ∷ []) ∷ [] ∷ [] ∷ [] ∷ [] ∷ [] ∷ [];
        activate = 8 ∷ [];
      },
    )
unfolding alloc_block block_insert insert_pass check_order
alloc_4 = refl

alloc_block-Outcome_example : AllocOutcome 2 some_buddy (alloc_block 2 some_buddy)
alloc_block-Outcome_example = alloc_block-Outcome 2 some_buddy some_blocks-IsSound

abbrev after_alloc : Buddy
after_alloc = record {
  block = (1 ∷ 4 ∷ []) ∷ [] ∷ (12 ∷ []) ∷ [] ∷ [] ∷ [] ∷ [] ∷ [] ∷ [];
  activate = 8 ∷ [];
  flags = λ i. if i == 8 then 2 else 0;
}

free-alloc_example :
    (c : Buddy) × (free_pages (virtual 8) 2 after_alloc ≡ some c) × Restored some_buddy c
unfolding get_free_pages alloc_pages alloc_block block_insert insert_pass check_order virtual
free-alloc_example =
    free-alloc 2 (virtual 8) some_buddy after_alloc some_blocks-IsSound refl (omega arith)

init-usable_example :
    (b : Buddy) × (buddy_system_init 6 (λ i. if ltb i 2 then 1 else 0) ≡ some b)
    × IsSound b.block
    × (b.activate ≡ [])
    × ((x : ℕ)
        → total 0 b.block x ≡ (if ltb x 6 && not (bit (if ltb x 2 then 1 else 0) 0) then 1 else 0))
init-usable_example = init-usable 6 (λ i. if ltb i 2 then 1 else 0)

-- Of the pages 2 to 9 that are free, 2 and 8 start pairs and 4 starts a block of four.
init_10 :
    buddy_system_init 10 (λ i. if ltb i 2 then 1 else 0)
    ≡ some (record {
      block = [] ∷ (2 ∷ 8 ∷ []) ∷ (4 ∷ []) ∷ [] ∷ [] ∷ [] ∷ [] ∷ [] ∷ [];
      activate = [];
      flags = λ i. if ltb i 2 then 1 else 0;
    })
unfolding buddy_system_init check_order
init_10 = refl
