-- ===== src/Slab/Take.antt =====
-- `kmem_cache_alloc` of src/mm/slab.c, against the sequence of the objects that a cache can give out.
pub mod Cache
use fat.Prelude.{
  ℕ, zero, suc, ◌+◌, ◌-◌, ◌*◌, ◌≤◌, ◌<◌, ◌≡◌, ◌≢◌, Bool, true, Option, none, some, List, [], ◌∷◌,
  ◌++◌, if◌then◌else◌, arith, refl, ap, ◌∙◌, Option-cases, append-nil, append_assoc,
}
use fat.Slab.{
  Slab, KmemCache, bufctl_end, new_slab, cache_grow, Walked, take_partial, take_free, cache_alloc,
  kmem_cache_alloc,
}

-- The objects of the array from `i` on, in `n` entries.
objects : ℕ → ℕ → ℕ → Slab → List ℕ
objects size zero i s = []
objects size (suc n) i s = (s.s_mem + size * s.array i) ∷ objects size n (i + 1) s

-- The objects of a slab that are free, in the order in which they are given out.
pub frees : ℕ → ℕ → Slab → List ℕ
unfolding objects
frees num size s = objects size (num - s.free) s.free s

pub frees_all : ℕ → ℕ → List Slab → List ℕ
unfolding frees
frees_all num size [] = []
frees_all num size (s ∷ l) = frees num size s ++ frees_all num size l

-- What the cache can give out: the free objects of the partial slabs, and then those of the free ones.
pub available : KmemCache → List ℕ
unfolding frees_all
available c = frees_all c.num c.size c.slabs_partial ++ frees_all c.num c.size c.slabs_free

-- The end of the array stands behind its entries, and nowhere before.
pub record IsSlab (num : ℕ) (s : Slab) : Type 0 where
  pub inside : s.free ≤ num
  pub end : s.array num ≡ bufctl_end
  pub entries : (i : ℕ) → i < num → s.array i ≢ bufctl_end

pub data AllSlabs (num : ℕ) : List Slab → Type 0 where
  all_nil : AllSlabs num []
  all_cons : {s : Slab} {l : List Slab} → IsSlab num s → AllSlabs num l → AllSlabs num (s ∷ l)

-- A slab without its first object.
abbrev pub taken : Slab → Slab
taken s = record s { free = s.free + 1; inuse = s.inuse + 1 }

objects-taken : (size n i : ℕ) (s : Slab) → objects size n i s ≡ objects size n i (taken s)
unfolding objects
objects-taken size zero i s = refl
objects-taken size (suc n) i s =
    ap (λ l. (s.s_mem + size * s.array i) ∷ l) (objects-taken size n (i + 1) s)

pub frees-taken :
    (num size : ℕ) (s : Slab)
    → s.free < num
    → frees num size s ≡ (s.s_mem + size * s.array s.free) ∷ frees num size (taken s)
unfolding frees objects
frees-taken num size s l =
    ap (λ n. objects size n s.free s) (one_more num s.free l)
    ∙ ap (λ l. (s.s_mem + size * s.array s.free) ∷ l)
        (objects-taken size (num - (s.free + 1)) (s.free + 1) s)
  where
    one_more : (num free : ℕ) → free < num → num - free ≡ suc (num - (free + 1))
    one_more num free l = omega (arith, l)

-- What a walk over slabs does: either each is empty and goes to the full ones, or the first object goes.
pub data Walk (num size : ℕ) (l : List Slab) : Walked → Type 0 where
  walk_none :
      {m : List Slab}
      → frees_all num size l ≡ []
      → Walk num size l (record { object = none; stay = []; moved = m })
  walk_some :
      {p : ℕ} {s : Slab} {full : Bool} {k m : List Slab}
      → frees_all num size l ≡ p ∷ frees num size s ++ frees_all num size k
      → ((full ≡ true) → frees num size s ≡ [])
      → IsSlab num s
      → AllSlabs num k
      → Walk num size l (record { object = some (p, s, full); stay = k; moved = m })

-- A slab that has nothing, before the others.
skipped : Slab → Walked → Walked
skipped s w = record { object = w.object; stay = w.stay; moved = w.moved ++ s ∷ [] }

-- What the loop makes of a slab.
step : Slab → List Slab → Walked → Option ℕ × Slab × Bool → Walked
step s l rest t = elim (t.0) [
  | some p ↦ record { object = some (p, t.1, t.2); stay = l; moved = [] }
  | none ↦ record { object = rest.object; stay = rest.stay; moved = rest.moved ++ s ∷ [] }
]
