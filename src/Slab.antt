-- ===== src/Slab.antt =====
-- src/mm/slab.c: caches of objects of one size. A slab is named by the address of its pages, and has the
-- array behind its header as a function. The lists of a cache are sequences of slabs. What the page
-- allocator answers is an argument, and what goes back to it is a result. `flags` and the marks on the
-- pages are left out.
pub mod Layout
pub mod Take
pub mod Release
pub mod Kmalloc
mod Examples
use fat.Prelude.{
  ℕ, zero, suc, ◌+◌, ◌-◌, ◌*◌, ◌/◌, ◌%◌, ◌^◌, Bool, true, false, Option, none, some, List, [], ◌∷◌,
  ◌++◌, ◌==◌, ltb, leb, not, if◌then◌else◌, ◌&&◌, map,
}
use fat.Buddy.{page_size, max_order}

abbrev pub slab_min_num : ℕ
slab_min_num = 4

abbrev pub slab_max_free : ℕ
slab_max_free = 4

abbrev pub bufctl_end : ℕ
bufctl_end = 65535

-- `sizeof(struct slab)`
abbrev header_size : ℕ
header_size = 32

pub record Slab : Type 0 where
  pub slabp : ℕ
  pub s_mem : ℕ
  pub inuse : ℕ
  pub free : ℕ
  pub array : ℕ → ℕ

pub record KmemCache : Type 0 where
  pub total_slab : ℕ
  pub free_slab : ℕ
  pub num : ℕ
  pub size : ℕ
  pub gfporder : ℕ
  pub slabs_partial : List Slab
  pub slabs_full : List Slab
  pub slabs_free : List Slab

-- One less, of 32 bits.
abbrev pub decrement : ℕ → ℕ
decrement n = (n + 2 ^ 32 - 1) % 2 ^ 32

pub kmem_align : ℕ → ℕ
kmem_align size = size / 8 * 8 + (if size % 8 == 0 then 0 else 8)

-- The header with an array of `num` entries and its end.
pub head_of : ℕ → ℕ
unfolding kmem_align
head_of num = kmem_align (header_size + (num + 1) * 2)

-- A slab in the pages at the address.
pub new_slab : ℕ → ℕ → Slab
unfolding head_of
new_slab num slabp = record {
  slabp = slabp;
  s_mem = slabp + head_of num;
  inuse = 0;
  free = 0;
  array = λ i. if i == num then bufctl_end else i;
}

-- `none` is an allocator without pages.
pub cache_grow : Option ℕ → KmemCache → Option KmemCache
unfolding new_slab
cache_grow none c = none
cache_grow (some slabp) c = some (record c {
  total_slab = c.total_slab + 1;
  free_slab = c.free_slab + 1;
  slabs_free = new_slab c.num slabp ∷ c.slabs_free;
})

-- The loop for the order of the pages, from `i` on; MAX_ORDER is too large.
pub order_loop : ℕ → ℕ → ℕ → ℕ
order_loop zero size i = i
order_loop (suc turns) size i =
    let next = order_loop turns size (i + 1) in
    if ltb (page_size * 2 ^ i) (size * slab_min_num) && ltb i max_order then next else i

-- `num`, from an order and an aligned size.
pub objects_in : ℕ → ℕ → ℕ
unfolding head_of
objects_in order size = (2 ^ order * page_size - head_of (2 ^ order * page_size / size)) / size

-- An empty cache for objects of the size, or `none` for an object that is too large.
pub geometry : ℕ → Option KmemCache
unfolding kmem_align order_loop objects_in
geometry size =
    let aligned = kmem_align size in
    let order = order_loop max_order aligned 0 in
    if leb (page_size * 2 ^ (max_order - 3)) size
    then none
    else if leb max_order order
    then none
    else some (record {
      total_slab = 0;
      free_slab = 0;
      num = objects_in order aligned;
      size = aligned;
      gfporder = order;
      slabs_partial = [];
      slabs_full = [];
      slabs_free = [];
    })

-- With the page for the cache, and those for the first slab. The size is not 0, which is divided by.
kmem_cache_create : ℕ → Option ℕ → Option ℕ → Option KmemCache
unfolding geometry cache_grow
kmem_cache_create size cache_page pages = elim (geometry size) [
  | none ↦ none
  | some c ↦ elim cache_page [ none ↦ none | some a ↦ cache_grow pages c ]
]

-- The slabs that a cache gives back, before its own page.
kmem_cache_destroy : KmemCache → List ℕ
kmem_cache_destroy c =
    map (λ s. s.slabp) c.slabs_partial
    ++ map (λ s. s.slabp) c.slabs_full
    ++ map (λ s. s.slabp) c.slabs_free

-- `____cache_alloc`: the object, the slab after it, and whether it moves to the full ones. An object is not
-- at the address 0.
pub take_object : ℕ → Slab → Option ℕ × Slab × Bool
take_object size s = if s.array s.free == bufctl_end then (none, s, true) else (
  some (s.s_mem + size * s.array s.free),
  record s { free = s.free + 1; inuse = s.inuse + 1 },
  s.array (s.free + 1) == bufctl_end,
)

-- What a walk over a list leaves: the object and its slab, the slabs that stay in the list, before and
-- behind, and those that went to the front of the full ones.
pub record Walked : Type 0 where
  pub object : Option (ℕ × Slab × Bool)
  pub stay : List Slab
  pub moved : List Slab

-- The loop over a list. The slab with the object is not among those that stay or moved.
pub walk_slabs : ℕ → List Slab → Walked
unfolding take_object
walk_slabs size [] = record { object = none; stay = []; moved = [] }
walk_slabs size (s ∷ l) =
    let t = take_object size s in
    let rest = walk_slabs size l in
    elim (t.0) [
      | some p ↦ record { object = some (p, t.1, t.2); stay = l; moved = [] }
      | none ↦ record { object = rest.object; stay = rest.stay; moved = rest.moved ++ s ∷ [] }
    ]

-- After the walk over the partial slabs: the slab with the object stays at its place, or becomes full.
pub take_partial : ℕ → Slab → Bool → Walked → KmemCache → Option ℕ × KmemCache
take_partial p s full w c = (
  some p,
  record c {
    slabs_partial = if full then w.stay else s ∷ w.stay;
    slabs_full = if full then s ∷ w.moved ++ c.slabs_full else w.moved ++ c.slabs_full;
  },
)

-- After a walk over the free ones, the slab with the object is partial.
pub take_free : Walked → Walked → KmemCache → Option ℕ × KmemCache
take_free w f c = elim (f.object) [
  | some (p, s, full) ↦ (
    some p,
    record c {
      slabs_partial = s ∷ w.stay;
      slabs_full = f.moved ++ w.moved ++ c.slabs_full;
      slabs_free = f.stay;
      free_slab = decrement c.free_slab;
    },
  )
  | none ↦ (
    none,
    record c {
      slabs_partial = w.stay;
      slabs_full = f.moved ++ w.moved ++ c.slabs_full;
      slabs_free = f.stay;
    },
  )
]

-- `__cache_alloc`
pub cache_alloc : KmemCache → Option ℕ × KmemCache
unfolding walk_slabs take_partial take_free
cache_alloc c =
    let w = walk_slabs c.size c.slabs_partial in
    elim (w.object) [
      | some (p, s, full) ↦ take_partial p s full w c
      | none ↦ take_free w (walk_slabs c.size c.slabs_free) c
    ]

-- With the pages that the allocator has for a further slab.
pub kmem_cache_alloc : Option ℕ → KmemCache → Option ℕ × KmemCache
unfolding cache_alloc cache_grow
kmem_cache_alloc pages c =
    let t = cache_alloc c in
    elim (t.0) [
      | some p ↦ t
      | none ↦ elim (cache_grow pages t.1) [ none ↦ (none, t.1) | some c' ↦ cache_alloc c' ]
    ]
