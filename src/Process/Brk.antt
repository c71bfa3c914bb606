-- ===== src/Process/Brk.antt =====
-- `do_brk` of src/core/sys.c. The fields of the process that it uses are arguments: its first table and
-- its break. `none` is the failed assertion of `map_page`.
use fat.Prelude.{
  ℕ, zero, suc, ◌+◌, ◌-◌, ◌*◌, ◌/◌, ◌%◌, ◌^◌, ◌≤◌, ◌<◌, ◌≡◌, ◌≢◌, ◌⊎◌, inl, inr, Bool, true, false,
  Option, some, [], ◌==◌, if◌then◌else◌, arith, refl, ap, ◌∙◌, ltb, lt→ltb, Bool-cases, length,
  subst, ◌>>=◌,
}
use fat.Page.{Memory, map_page}
use fat.Page.Tree.{IsTree, lookup, find, find-Placed, path_of, path_of-IsPath, page-path_of}
use fat.Page.Map.{map_page-Mapped, map_page_supplied}

-- The loop of `do_brk` from a break on: false if `map_page` answered 0.
unfoldable pub brk_loop : ℕ → ℕ → ℕ → Memory → Option (Bool × Memory)
brk_loop zero pgd brk m = some (true, m)
brk_loop (suc n) pgd brk m = do
  r ← map_page pgd brk m
  if r.0 == 0 then some (false, r.1) else brk_loop n pgd (brk + 0x1000) r.1

-- `nr_pages` is an `int`: 32 bits, and the upper half of them are negative numbers.
unfoldable pub nr_pages : ℕ → ℕ → ℕ
nr_pages brk new_brk =
    let n = (new_brk + 2 ^ 64 - brk) % 2 ^ 64 / 0x1000 % 2 ^ 32 in if ltb n (2 ^ 31) then n else 0

unfoldable pub page_upper_align : ℕ → ℕ
page_upper_align addr = (addr / 0x1000 + (if addr % 0x1000 == 0 then 0 else 1)) * 0x1000 % 2 ^ 64

-- Success, the break and the memory after it.
unfoldable pub do_brk : ℕ → ℕ → ℕ → Memory → Option (Bool × ℕ × Memory)
unfolding brk_loop nr_pages page_upper_align
do_brk addr pgd brk m = do
  r ← brk_loop (nr_pages brk (page_upper_align addr)) pgd brk m
  if r.0 then some (true, page_upper_align addr, r.1) else some (false, brk, r.1)

-- The pages of the range are mapped, and nothing else changed for the user.
pub record Extended (pgd start end : ℕ) (m m' : Memory) : Type 0 where
  pub tree : IsTree pgd m'
  pub mapped : (v : ℕ) → start ≤ v → v < end → (page : ℕ) × (lookup pgd m' v ≡ some page)
  pub kept : (v : ℕ) → v < 2 ^ 47 → (v < start) ⊎ (end ≤ v) → lookup pgd m' v ≡ lookup pgd m v

page_ne :
    (pgd u page : ℕ) (m : Memory)
    → IsTree pgd m
    → u < 2 ^ 47
    → lookup pgd m u ≡ some page
    → page ≢ 0
page_ne pgd u page m (place, t) l e z =
    let valid =
      t.valid page (path_of u)
        (find-Placed (path_of u) [] pgd page t t.root (path_of-IsPath u l) e) in
    absurd (omega (arith, z, valid.1))

brk_loop-Extended :
    (n pgd brk : ℕ) (m : Memory)
    → IsTree pgd m
    → brk % 0x1000 ≡ 0
    → brk + n * 0x1000 ≤ 2 ^ 47
    → n * 4 ≤ length m.pages
    → (m' : Memory) × (brk_loop n pgd brk m ≡ some (true, m'))
      × Extended pgd brk (brk + n * 0x1000) m m'
unfolding brk_loop
brk_loop-Extended zero pgd brk m t a l s = (
  m,
  refl,
  record { tree = t; mapped = λ v k h. absurd (omega (arith, k, h)); kept = λ v k h. refl },
)
brk_loop-Extended (suc n) pgd brk m t a l s =
    let ((page, m1), e, used) = map_page_supplied pgd brk m (omega (arith, s)) in
    let first = map_page-Mapped pgd brk page m m1 t (omega (arith, l)) e in
    let nonzero : (page == 0) ≡ false =
      ground (arith, page_ne pgd brk page m1 first.tree (omega (arith, l)) first.mapped) in
    let (m', f, rest) =
      brk_loop-Extended n pgd (brk + 0x1000) m1 first.tree (omega (arith, a)) (omega (arith, l))
        (omega (arith, s, used)) in
    (
      m',
      rw (e, nonzero) f,
      record {
        tree = rest.tree;
        mapped = λ v k h. elim (Bool-cases (ltb v (brk + 0x1000))) [
          | inl y ↦ (
            page,
            rest.kept v (omega (arith, h, l)) (inl (ground (arith, y)))
                ∙ ap (λ x. find m1 x pgd) (page-path_of v brk (ground (arith, y, k, a)))
                ∙ first.mapped,
          )
          | inr y ↦ rest.mapped v (ground (arith, y)) (omega (arith, h))
        ];
        kept = λ v k h.
            rest.kept v k
              (elim h [ inl b ↦ inl (omega (arith, b)) | inr b ↦ inr (omega (arith, b)) ])
            ∙ first.kept v k (elim h [
              | inl b ↦ λ e. absurd (omega (arith, b, a, e))
              | inr b ↦ λ e. absurd (omega (arith, b, a, e))
            ]);
      },
    )

page_upper_align_bounds :
    (addr : ℕ)
    → addr ≤ 2 ^ 47
    → (page_upper_align addr % 0x1000 ≡ 0)
      × (addr ≤ page_upper_align addr)
      × (page_upper_align addr < addr + 0x1000)
unfolding page_upper_align
page_upper_align_bounds addr l = (ground (arith, l), ground (arith, l), ground (arith, l))

nr_pages_above :
    (brk new_brk : ℕ)
    → brk % 0x1000 ≡ 0
    → new_brk % 0x1000 ≡ 0
    → brk ≤ new_brk
    → new_brk < 2 ^ 48
    → new_brk < brk + 2 ^ 43
    → brk + nr_pages brk new_brk * 0x1000 ≡ new_brk
unfolding nr_pages
nr_pages_above brk new_brk a b l k d =
    let n : (new_brk + 2 ^ 64 - brk) % 2 ^ 64 ≡ new_brk - brk = omega (arith, l, k) in
    let small : ltb ((new_brk - brk) / 0x1000 % 2 ^ 32) (2 ^ 31) ≡ true =
      lt→ltb _ _ (omega (arith, l, d)) in
    rw n (rw small (omega (arith, a, b, l, d)))

nr_pages_below :
    (brk new_brk : ℕ)
    → new_brk < brk
    → brk < 2 ^ 48
    → brk < new_brk + 2 ^ 43
    → nr_pages brk new_brk ≡ 0
unfolding nr_pages
nr_pages_below brk new_brk l k d =
    let large : ltb ((new_brk + 2 ^ 64 - brk) % 2 ^ 64 / 0x1000 % 2 ^ 32) (2 ^ 31) ≡ false =
      ground (arith, l, k, d) in
    rw large refl

-- With four free pages for each page between the break and the end of the page of the address, of which there
-- are less than 2 ^ 31, `do_brk` to an address of the user at or above the break succeeds: the break is the
-- end of the page of the address, every address between the
-- old and the new break is mapped, every other address of the user is mapped as before, and the tables are
-- well-formed. They were, and the old break is at the start of a page.
pub do_brk-Extended :
    (addr pgd brk : ℕ) (m : Memory)
    → IsTree pgd m
    → brk % 0x1000 ≡ 0
    → brk ≤ addr
    → addr ≤ 2 ^ 47
    → page_upper_align addr < brk + 2 ^ 43
    → (page_upper_align addr - brk) / 0x1000 * 4 ≤ length m.pages
    → (m' : Memory) × (do_brk addr pgd brk m ≡ some (true, page_upper_align addr, m'))
      × Extended pgd brk (page_upper_align addr) m m'
unfolding do_brk
do_brk-Extended addr pgd brk m t a b l d s =
    let new_brk = page_upper_align addr in
    let (aligned, up, near) = page_upper_align_bounds addr l in
    let reached =
      nr_pages_above brk new_brk a aligned (omega (arith, b, up)) (omega (arith, near, l)) d in
    let (m', e, x) =
      brk_loop-Extended (nr_pages brk new_brk) pgd brk m t a
        (omega (arith, reached, near, l, aligned)) (omega (arith, reached, s)) in
    (m', rw e refl, subst (λ k. Extended pgd brk k m m') reached x)

-- `do_brk` to an address below the break only sets the break: no page is unmapped. The address is less than
-- 2 ^ 42 below the break, which is an address of the user.
pub do_brk_below :
    (addr pgd brk : ℕ) (m : Memory)
    → addr + 0x1000 ≤ brk
    → brk < 2 ^ 47
    → brk < addr + 2 ^ 42
    → do_brk addr pgd brk m ≡ some (true, page_upper_align addr, m)
unfolding do_brk brk_loop
do_brk_below addr pgd brk m a b c =
    let (aligned, up, near) = page_upper_align_bounds addr (omega (arith, a, b)) in
    let nothing =
      nr_pages_below brk (page_upper_align addr) (omega (arith, near, a)) (omega (arith, b))
        (omega (arith, up, c)) in
    rw nothing refl
