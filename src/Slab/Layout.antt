-- ===== src/Slab/Layout.antt =====
-- The sizes that `kmem_cache_create` of src/mm/slab.c computes.
use fat.Prelude.{ℕ, ◌+◌, ◌*◌, ◌%◌, ◌^◌, ◌≤◌, ◌<◌, ◌≡◌, Option, none, some}
use fat.Buddy.{page_size, max_order}
use fat.Slab.{KmemCache, head_of}

-- The header with its array and the objects behind it fit into the pages, with one object at least.
pub record Fits (order num size : ℕ) : Type 0 where
  pub some_object : 0 < num
  pub room : head_of num + num * size ≤ 2 ^ order * page_size

-- The sizes of a cache for objects of a size.
pub record Sized (size : ℕ) (c : KmemCache) : Type 0 where
  pub order : c.gfporder < max_order
  pub large : size ≤ c.size
  pub aligned : c.size % 8 ≡ 0
  pub fits : Fits c.gfporder c.num c.size

SizedIf : ℕ → Option KmemCache → Type 0
SizedIf size none = Unit {0}
SizedIf size (some c) = Sized size c
