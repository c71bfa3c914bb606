-- ===== src/Slab/Take/Cache.antt =====
-- `kmem_cache_alloc` of src/mm/slab.c on a whole cache.
use fat.Prelude.{ℕ, ◌+◌, ◌≤◌, ◌<◌, ◌≡◌, Option, none, some, List, [], ◌∷◌}
use fat.Slab.{
  Slab, KmemCache, bufctl_end, new_slab, cache_grow, Walked, take_partial, take_free, cache_alloc,
}
use fat.Slab.Take.{frees, available, AllSlabs}

-- Slabs of at least one object, and of no more than the end of an array allows.
pub record IsCache (c : KmemCache) : Type 0 where
  pub some_object : 0 < c.num
  pub below_end : c.num ≤ bufctl_end
  pub partial : AllSlabs c.num c.slabs_partial
  pub free : AllSlabs c.num c.slabs_free

-- The first object that the cache has goes, or it has none and its lists are empty.
pub data Given (c : KmemCache) : Option ℕ × KmemCache → Type 0 where
  gone :
      {p : ℕ} {c' : KmemCache}
      → available c ≡ p ∷ available c'
      → IsCache c'
      → c'.size ≡ c.size
      → c'.num ≡ c.num
      → Given c (some p, c')
  empty :
      {full : List Slab}
      → available c ≡ []
      → Given c (none, record c { slabs_partial = []; slabs_free = []; slabs_full = full })

-- The end of `__cache_alloc`, after the walks.
after_walks : Walked → Walked → KmemCache → Option ℕ × KmemCache
after_walks w f c = elim (w.object) [
  | some (p, s, full) ↦ take_partial p s full w c
  | none ↦ take_free w f c
]

-- An object that the cache had, one of the slab that it grew by, or nothing.
pub data Outcome (c : KmemCache) : Option ℕ → Option ℕ × KmemCache → Type 0 where
  had :
      {pages : Option ℕ} {p : ℕ} {c' : KmemCache}
      → available c ≡ p ∷ available c'
      → IsCache c'
      → c'.size ≡ c.size
      → c'.num ≡ c.num
      → Outcome c pages (some p, c')
  grown :
      {a p : ℕ} {c' : KmemCache}
      → available c ≡ []
      → frees c.num c.size (new_slab c.num a) ≡ p ∷ available c'
      → IsCache c'
      → c'.size ≡ c.size
      → c'.num ≡ c.num
      → Outcome c (some a) (some p, c')
  exhausted :
      {c' : KmemCache}
      → available c ≡ []
      → available c' ≡ []
      → IsCache c'
      → c'.size ≡ c.size
      → c'.num ≡ c.num
      → Outcome c none (none, c')

-- What follows the first try.
retry : Option ℕ → Option ℕ × KmemCache → Option ℕ × KmemCache
retry pages t = elim (t.0) [
  | some p ↦ t
  | none ↦ elim (cache_grow pages t.1) [ none ↦ (none, t.1) | some c' ↦ cache_alloc c' ]
]

-- The cache with the new slab in its empty lists.
abbrev with_slab : ℕ → List Slab → KmemCache → KmemCache
with_slab a full c = record c {
  total_slab = c.total_slab + 1;
  free_slab = c.free_slab + 1;
  slabs_partial = [];
  slabs_full = full;
  slabs_free = new_slab c.num a ∷ [];
}
