-- ===== src/Buddy/Free.antt =====
-- `alloc_pages`, `__get_free_pages`, `__free_pages` and `free_pages` of src/mm/buddy.c.
use mathlib.Core.Option.{some-injective}
use mathlib.Core.Path.{subst₂}
use fat.Prelude.{
  ℕ, ◌+◌, ◌*◌, ◌/◌, ◌%◌, ◌^◌, ◌≤◌, ◌<◌, ◌≡◌, ◌≢◌, arith, Option, none, some, List, ◌∷◌, ◌==◌, inl,
  inr, false, bit_or, if◌then◌else◌, ap, sym, refl, ◌∙◌,
}
use fat.Buddy.{
  Buddy, max_order, page_size, pf_busy, virtual, alloc_pages, get_free_pages, find_active,
  free_block, free_pages,
}
use fat.Buddy.Cover.{within, total}
use fat.Buddy.Insert.{block_insert-Inserts}
use fat.Buddy.Alloc.{IsSound, Granted, AllocOutcome, alloc_block-Outcome}

-- `b'` has the pages of `b` and those of the block of order `order` at `page`, and is sound.
pub record Freed (order page : ℕ) (b b' : Buddy) : Type 0 where
  pub sound : IsSound b'.block
  pub pages : (x : ℕ) → total 0 b'.block x ≡ within order page x + total 0 b.block x
  pub active : b'.activate ≡ b.activate

-- What a caller of `__free_pages` owes: an aligned block of a legal order, none of it free.
pub record CanFree (order page : ℕ) (b : Buddy) : Type 0 where
  pub legal : order < max_order
  pub aligned : page % 2 ^ order ≡ 0
  pub apart : (x : ℕ) → within order page x + total 0 b.block x ≤ 1

free_block-Freed :
    (page order : ℕ) (b : Buddy)
    → IsSound b.block
    → CanFree order page b
    → (b' : Buddy) × (free_block page order b ≡ some b') × Freed order page b b'
unfolding free_block
free_block-Freed page order b s c =
    let (block, e, i) = block_insert-Inserts page order b.block c.legal (record {
      lists = omega (arith, s.lists);
      aligned = c.aligned;
      chains = s.chains;
      apart = c.apart;
    }) in
    (
      record b { block = block },
      rw e,
      record {
        sound = record {
          lists = i.same_length ∙ s.lists;
          chains = i.chains;
          apart = λ x. omega (arith, i.pages x, c.apart x);
        };
        pages = i.pages;
        active = refl;
      },
    )

-- The address of a page is a multiple of the page size.
virtual-aligned : (page : ℕ) → virtual page / page_size * page_size ≡ virtual page
unfolding virtual
virtual-aligned page = omega arith

-- A page at the front of `activate` is found by its address.
find_active_front :
    (page : ℕ) (rest : List ℕ)
    → find_active (virtual page / page_size * page_size) (page ∷ rest) ≡ some (page, rest)
unfolding find_active
find_active_front page rest = rw (virtual-aligned page) (ground arith)

free_pages_front :
    (page order : ℕ) (b : Buddy) (rest : List ℕ)
    → virtual page ≢ 0
    → b.activate ≡ page ∷ rest
    → free_pages (virtual page) order b ≡ free_block page order (record b { activate = rest })
unfolding free_pages
free_pages_front page order b rest h e =
    let found : find_active (virtual page / page_size * page_size) b.activate ≡ some (page, rest) =
      rw e (find_active_front page rest) in
    let valid : (virtual page == 0) ≡ false = ground arith in rw (valid, found, free_pages) refl

-- `alloc_pages` returns what `__alloc_pages` does; it also marks the first page as busy.
alloc_pages-Outcome :
    (order : ℕ) (b : Buddy) → IsSound b.block → AllocOutcome order b (alloc_pages order b)
unfolding alloc_pages
alloc_pages-Outcome order b s = elim (alloc_block-Outcome order b s) [
  | inl (e, r) ↦ inl (rw (e, alloc_pages) refl, r)
  | inr (page, b', e, g) ↦ inr (
    page,
    marked page b',
    rw (e, alloc_pages) refl,
    record {
      legal = g.legal;
      aligned = g.aligned;
      active = g.active;
      sound = g.sound;
      pages = g.pages;
    },
  )
]
  where
    marked : ℕ → Buddy → Buddy
    marked page b' = record b' {
      flags = λ i. if i == page then bit_or (b'.flags page) pf_busy else b'.flags i;
    }

-- What holds once `free_pages` has taken a block back: everything is as it was in `b`.
pub record Restored (b b' : Buddy) : Type 0 where
  pub sound : IsSound b'.block
  pub active : b'.activate ≡ b.activate
  pub pages : (x : ℕ) → total 0 b'.block x ≡ total 0 b.block x

give_back :
    (order page : ℕ) (b b' : Buddy)
    → IsSound b.block
    → Granted order b page b'
    → virtual page ≢ 0
    → (c : Buddy) × (free_pages (virtual page) order b' ≡ some c) × Restored b c
give_back order page b b' s g h =
    let (c, e, f) =
      free_block-Freed page order (record b' { activate = b.activate }) g.sound
        (record {
          legal = g.legal;
          aligned = g.aligned;
          apart = λ x. omega (arith, g.pages x, s.apart x);
        }) in
    (
      c,
      free_pages_front page order b' b.activate h g.active ∙ e,
      record {
        sound = f.sound;
        active = f.active;
        pages = λ x. omega (arith, f.pages x, g.pages x);
      },
    )

-- If `__get_free_pages` returned an address that is not 0, `free_pages` of that address with the
-- same order does not fault. The free lists are sound again, hold each page as often as before the
-- request, and `activate` is as it was.
pub free-alloc :
    (order addr : ℕ) (b b' : Buddy)
    → IsSound b.block
    → get_free_pages order b ≡ some (addr, b')
    → addr ≢ 0
    → (c : Buddy) × (free_pages addr order b' ≡ some c) × Restored b c
unfolding get_free_pages
free-alloc order addr b b' s e h = elim (alloc_pages-Outcome order b s) [
  | inl (f, _) ↦ absurd (h (omega (arith, ap (λ r. r.0) (got (none, b) f))))
  | inr (page, b1, f, g) ↦
      let p = got (some page, b1) f in
      let a : virtual page ≡ addr = ap (λ r. r.0) p in
      let r : b1 ≡ b' = ap (λ r. r.1) p in
      subst₂ (λ n k. (c : Buddy) × (free_pages n order k ≡ some c) × Restored b c) a r
        (give_back order page b b1 s g (λ z. h (sym a ∙ z)))
]
  where
    addr_of : Option ℕ → ℕ
    addr_of o = elim o [ none ↦ 0 | some page ↦ virtual page ]

    got :
        (r : Option ℕ × Buddy)
        → alloc_pages order b ≡ some r
        → ◌≡◌ {A = ℕ × Buddy} (addr_of r.0, r.1) (addr, b')
    got r f = some-injective _ _ (sym (rw (f, get_free_pages) refl) ∙ e)
