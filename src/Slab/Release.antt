-- ===== src/Slab/Release.antt =====
-- `kmem_cache_free` of src/mm/slab.c: the way of an object back to its slab, and of slabs to the pages.
use fat.Prelude.{
  ℕ, zero, suc, ◌+◌, ◌-◌, ◌*◌, ◌/◌, ◌%◌, ◌^◌, Option, none, some, List, [], ◌∷◌, ◌++◌, ◌==◌, ltb,
  if◌then◌else◌,
}
use fat.Slab.{Slab, KmemCache, slab_max_free, decrement}

-- The index of an object, or `none` for one of another slab.
slab_index : KmemCache → Slab → ℕ → Option ℕ
slab_index c s objp =
    if ltb objp s.s_mem
    then none
    else if ltb (s.s_mem + (c.num - 1) * c.size) objp
    then none
    else some ((objp - s.s_mem) / c.size)

-- The object goes back on the array.
put_object : ℕ → Slab → Slab
put_object ind s = if s.free == 0 then s else record s {
  free = s.free - 1;
  inuse = decrement s.inuse;
  array = λ i. if i == s.free - 1 then ind % 2 ^ 16 else s.array i;
}

-- The slab of an object in a list, with its index and the slabs before and behind it.
find_slab : KmemCache → ℕ → List Slab → Option (ℕ × Slab × List Slab)
unfolding slab_index
find_slab c objp [] = none
find_slab c objp (s ∷ l) =
    let rest = find_slab c objp l in
    elim (slab_index c s objp) [
      | some ind ↦ some (ind, s, l)
      | none ↦ elim rest [ none ↦ none | some (ind, t, others) ↦ some (ind, t, s ∷ others) ]
    ]

-- The list with the slab of the object written.
write_slab : KmemCache → ℕ → Slab → List Slab → List Slab
unfolding slab_index
write_slab c objp t [] = []
write_slab c objp t (s ∷ l) =
    let rest = write_slab c objp t l in
    elim (slab_index c s objp) [ some ind ↦ t ∷ l | none ↦ s ∷ rest ]

-- `__cache_free`, of an object of the cache; `none` writes through the last slab of the lists, or NULL.
cache_free : ℕ → KmemCache → Option KmemCache
unfolding find_slab write_slab put_object
cache_free objp c = elim (find_slab c objp c.slabs_full) [
  | some (ind, s, others) ↦
      let t = put_object ind s in
      some (
        if t.inuse == 0
        then record c {
          slabs_full = others;
          slabs_free = t ∷ c.slabs_free;
          free_slab = c.free_slab + 1;
        }
        else record c { slabs_full = write_slab c objp t c.slabs_full })
  | none ↦ elim (find_slab c objp c.slabs_partial) [
    | some (ind, s, others) ↦
        let t = put_object ind s in
        some (
          if t.inuse == 0
          then record c {
            slabs_partial = others;
            slabs_free = t ∷ c.slabs_free;
            free_slab = c.free_slab + 1;
          }
          else record c { slabs_partial = write_slab c objp t c.slabs_partial })
    | none ↦ none
  ]
]

-- The pages that the loop gives back: those of the first free slab, once for each slab too many, since
-- the slab stays in the list. `none` takes the head of an empty list for a slab.
drop_loop : ℕ → KmemCache → List ℕ → Option (List ℕ × KmemCache)
drop_loop zero c given = some (given, c)
drop_loop (suc many) c given = elim (c.slabs_free) [
  | [] ↦ none
  | s ∷ l ↦ drop_loop many (record c { free_slab = decrement c.free_slab }) (given ++ s.slabp ∷ [])
]

kmem_cache_free : ℕ → KmemCache → Option (List ℕ × KmemCache)
unfolding cache_free drop_loop
kmem_cache_free objp c = elim (cache_free objp c) [
  | none ↦ none
  | some c' ↦ drop_loop (c'.free_slab - slab_max_free) c' []
]
