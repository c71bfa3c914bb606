-- ===== src/Buddy/Init.antt =====
-- `buddy_system_init` of src/mm/buddy.c.
use native.Mathlib.Nat.{mod-eq_of_lt, div-eq_of_lt}
use fat.Prelude.{
  ℕ_discrete, dec_lt, ℕ, zero, suc, ◌+◌, ◌%◌, ◌^◌, ◌≤◌, ◌<◌, ◌≡◌, arith, Bool, some, List, [], ◌==◌,
  ltb, ◌&&◌, not, if◌then◌else◌, length, Bool-cases, inl, inr, true, false, ap, subst, refl, ◌∙◌,
  ==_iff,
}
use fat.Buddy.{
  Buddy, max_order, check_order, bit, no_blocks, add_bits, count_pages, add_run, init_loop,
  buddy_system_init, no_blocks,
}
use fat.Buddy.Order.{pow2_pos, check_order-lt, check_order_iff}
use fat.Buddy.Cover.{total}
use fat.Buddy.Alloc.{IsSound}
use fat.Buddy.Build.{span, AllEnd-mono, Built, Adds, append_at-Adds, add_bits-Adds}

module _ (reserved : ℕ → Bool) (tail : ℕ) where
  add_run-Adds :
      (order count left : ℕ) (block : List (List ℕ))
      → order < length block
      → left % 2 ^ order ≡ 0
      → count ≤ 2 ^ order
      → Built 0 left block
      → Adds 0 left count block (add_run reserved tail order count left block)
  unfolding add_run add_bits
  add_run-Adds order count left block h a le b = elim (Bool-cases (count == 2 ^ order)) [
    | inl e ↦
        rw e (rw ((==_iff _ _).0 e) (append_at-Adds 0 order order left block (omega arith) h a b))
    | inr e ↦
        let small : count < 2 ^ order = ground arith in
        let high : bit count order ≡ false = rw (div-eq_of_lt small) refl in
        rw (e, high)
          (subst (λ n. Adds 0 left n block (add_bits order count left block)) (mod-eq_of_lt small)
            (add_bits-Adds order count left block (omega arith) a b))
  ]

  count_pages-le : (k right : ℕ) → count_pages reserved tail k right ≤ k
  unfolding count_pages
  count_pages-le zero right = omega arith
  count_pages-le (suc k) right = ground (arith, count_pages-le k (right + 1))

  count_pages-tail : (k right : ℕ) → right ≤ tail → right + count_pages reserved tail k right ≤ tail
  unfolding count_pages
  count_pages-tail zero right h = omega arith
  count_pages-tail (suc k) right h = ground (arith, count_pages-tail k (right + 1))

  count_pages_pos :
      (k right : ℕ)
      → 0 < k
      → reserved right ≡ false
      → (right == tail) ≡ false
      → 0 < count_pages reserved tail k right
  unfolding count_pages
  count_pages_pos zero right h r t = absurd (omega arith)
  count_pages_pos (suc k) right h r t = ground arith

  first_free : (k right : ℕ) → 0 < count_pages reserved tail (suc k) right → reserved right ≡ false
  unfolding count_pages
  first_free k right h = ground arith

  count_pages_free :
      (k right x : ℕ)
      → right ≤ x
      → x < right + count_pages reserved tail k right
      → reserved x ≡ false
  unfolding count_pages
  count_pages_free zero right x h lt = absurd (omega arith)
  count_pages_free (suc k) right x h lt = elim (ℕ_discrete right x) [
    | yes e ↦ subst (λ y. reserved y ≡ false) e (first_free k right (omega arith))
    | no n ↦ ground (arith, count_pages_free k (right + 1) x)
  ]

  -- 1 if the page `x` below `hi` is free to use.
  abbrev usable : ℕ → ℕ → ℕ
  usable hi x = if ltb x hi && not (reserved x) then 1 else 0

  -- The lists once the pages below `hi` have been dealt with.
  record Done (hi : ℕ) (block : List (List ℕ)) : Type 0 where
    lists : length block ≡ max_order
    built : Built 0 hi block
    pages : (x : ℕ) → total 0 block x ≡ usable hi x

  span-usable :
      (hi n x : ℕ)
      → (hi ≤ x → x < hi + n → reserved x ≡ false)
      → span hi n x + usable hi x ≡ usable (hi + n) x
  span-usable hi n x free = elim (dec_lt x hi) [
    | yes h ↦ ground arith
    | no h ↦ elim (dec_lt x (hi + n)) [
      | yes k ↦ let f = free (omega arith) k in ground arith
      | no k ↦ ground arith
    ]
  ]

  skip-Done :
      (left : ℕ) (block : List (List ℕ))
      → reserved left ≡ true
      → Done left block
      → Done (left + 1) block
  skip-Done left block r d = record {
    lists = d.lists;
    built = record {
      chains = d.built.chains;
      ends = AllEnd-mono 0 left (left + 1) block (omega arith) d.built.ends;
    };
    pages = λ x. elim (ℕ_discrete x left) [
      | yes e ↦ d.pages x ∙ skip_same x e
      | no n ↦ ground (arith, d.pages x)
    ];
  }
    where
      skip_same : (x : ℕ) → x ≡ left → usable left x ≡ usable (left + 1) x
      skip_same x e = rw (e, r) (ground arith)

  run-Done :
      (left : ℕ) (block : List (List ℕ))
      → Done left block
      → let order = check_order left in
        let count = count_pages reserved tail (2 ^ order) left in
        Done (left + count) (add_run reserved tail order count left block)
  run-Done left block d =
      let order = check_order left in
      let count = count_pages reserved tail (2 ^ order) left in
      let r =
        add_run-Adds order count left block (omega (arith, d.lists, check_order-lt left))
          ((check_order_iff left order (check_order-lt left)).0 (omega arith))
          (count_pages-le (2 ^ order) left) d.built in
      record {
        lists = r.same_length ∙ d.lists;
        built = r.built;
        pages = λ x.
            r.pages x
            ∙ ap (λ n. span left count x + n) (d.pages x)
            ∙ span-usable left count x (count_pages_free (2 ^ order) left x);
      }

  init_loop-Done :
      (f left : ℕ) (block : List (List ℕ))
      → left ≤ tail
      → tail ≤ left + f
      → Done left block
      → (block' : List (List ℕ)) × (init_loop reserved tail f left left block ≡ some block')
        × Done tail block'
  unfolding init_loop
  init_loop-Done zero left block h k d =
      let e : left ≡ tail = omega arith in (block, ground arith, subst (λ n. Done n block) e d)
  init_loop-Done (suc f) left block h k d = elim (Bool-cases (left == tail)) [
    | inl e ↦ (block, rw e refl, subst (λ n. Done n block) ((==_iff _ _).0 e) d)
    | inr e ↦ elim (Bool-cases (reserved left)) [
      | inl r ↦
          rw (e, r)
            (init_loop-Done f (left + 1) block (ground arith) (omega arith)
              (skip-Done left block r d))
      | inr r ↦
          let order = check_order left in
          let count = count_pages reserved tail (2 ^ order) left in
          let more : 0 < count = count_pages_pos (2 ^ order) left (pow2_pos order) r e in
          rw (e, r)
            (init_loop-Done f (left + count) _ (count_pages-tail (2 ^ order) left h) (omega arith)
              (run-Done left block d))
    ]
  ]

-- `buddy_system_init` ends, with sound free lists and no page handed out. The free blocks hold each
-- page below `nr_pages` without `PF_RESERVE` exactly once, and no other page.
pub init-usable :
    (nr_pages : ℕ) (flags : ℕ → ℕ)
    → (b : Buddy) × (buddy_system_init nr_pages flags ≡ some b)
      × IsSound b.block
      × (b.activate ≡ [])
      × ((x : ℕ) → total 0 b.block x ≡ (if ltb x nr_pages && not (bit (flags x) 0) then 1 else 0))
unfolding buddy_system_init
init-usable nr_pages flags =
    let reserved = λ (i : ℕ). bit (flags i) 0 in
    let (block, e, d) =
      init_loop-Done reserved nr_pages nr_pages 0 no_blocks (omega arith) (omega arith) (record {
        lists = refl;
        built = record { chains = omega arith; ends = omega arith };
        pages = λ x. ground arith;
      }) in
    (
      record { block = block; activate = []; flags = flags },
      rw e refl,
      record { lists = d.lists; chains = d.built.chains; apart = λ x. ground (arith, d.pages x) },
      refl,
      d.pages,
    )
