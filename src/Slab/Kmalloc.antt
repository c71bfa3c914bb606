-- ===== src/Slab/Kmalloc.antt =====
-- `kmalloc` of src/mm/kmalloc.c: a cache for each power of two from 32 bytes to 32 KB.
use fat.Prelude.{
  ℕ, zero, suc, ◌+◌, ◌^◌, ◌≤◌, ◌<◌, ◌≡◌, Option, none, ltb, leb, ◌==◌, if◌then◌else◌, ◌&&◌, arith,
}
use fat.Slab.{KmemCache, kmem_cache_alloc}

abbrev kmalloc_cache_size : ℕ
kmalloc_cache_size = 11

-- `kmalloc_cache[i].size`
abbrev size_of : ℕ → ℕ
size_of i = 2 ^ (i + 5)

-- The loop, from the cache `i` on.
index_loop : ℕ → ℕ → ℕ → ℕ
index_loop zero size i = i
index_loop (suc turns) size i =
    let next = index_loop turns size (i + 1) in
    if ltb i kmalloc_cache_size && ltb (size_of i) size then next else i

-- The object and the caches after it, with the pages that a cache may grow by.
kmalloc : Option ℕ → ℕ → (ℕ → KmemCache) → Option ℕ × (ℕ → KmemCache)
unfolding index_loop
kmalloc pages size caches =
    let i = index_loop kmalloc_cache_size size 0 in
    let t = kmem_cache_alloc pages (caches i) in
    if leb kmalloc_cache_size i
    then (none, caches)
    else (t.0, λ j. if j == i then t.1 else caches j)

-- A cache that the loop stops at, within the caches, has objects with room for the size.
index_loop-room :
    (turns size i : ℕ)
    → turns + i ≡ kmalloc_cache_size
    → index_loop turns size i < kmalloc_cache_size
    → size ≤ size_of (index_loop turns size i)
unfolding index_loop
index_loop-room zero size i e h = ground arith
index_loop-room (suc turns) size i e h = ground (arith, index_loop-room turns size (i + 1))
