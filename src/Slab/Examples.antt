-- ===== src/Slab/Examples.antt =====
-- The theorems on src/mm/slab.c at a cache for objects of 500 bytes.
use fat.Prelude.{[]}
use fat.Slab.{KmemCache}

abbrev small_cache : KmemCache
small_cache = record {
  total_slab = 0;
  free_slab = 0;
  num = 8;
  size = 504;
  gfporder = 0;
  slabs_partial = [];
  slabs_full = [];
  slabs_free = [];
}
