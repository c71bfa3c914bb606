-- ===== src/Ext2/Alloc/Bits.antt =====
-- `alloc_block` and `alloc_inode`: the first free bit of one bitmap.
use fat.Prelude.{
  ℕ, zero, suc, ◌+◌, ◌/◌, ◌%◌, ◌^◌, ◌≤◌, ◌<◌, ◌≡◌, false, Option, none, some, ◌==◌, arith, sym, ap,
  ◌∙◌, Bool-cases, Option-cases, inl, inr, ==_iff, subst,
}
use fat.Ext2.Alloc.{free_bit, free_byte, byte_turn}

abbrev pub bit : ℕ → ℕ → ℕ
bit val k = val / 2 ^ k % 2

abbrev Free8 : ℕ → ℕ → ℕ → Option ℕ → Type 0
Free8 turns k val none = (c : ℕ) → k ≤ c → c < k + turns → bit val c ≡ 1
Free8 turns k val (some b) =
    (k ≤ b) × (b < k + turns) × (bit val b ≡ 0) × ((c : ℕ) → k ≤ c → c < b → bit val c ≡ 1)

not_zero : (x : ℕ) → (x % 2 == 0) ≡ false → x % 2 ≡ 1
not_zero x h = ground (arith, h)

free_bit-Free8 : (turns k val : ℕ) → Free8 turns k val (free_bit turns k val)
unfolding free_bit
free_bit-Free8 zero k val = λ c a b. absurd (omega (arith, a, b))
free_bit-Free8 (suc turns) k val = elim (Bool-cases (val / 2 ^ k % 2 == 0)) [
  | inl y ↦ rw y (
    omega arith,
    omega arith,
    (==_iff (val / 2 ^ k % 2) 0).0 y,
    λ c a b. absurd (omega (arith, a, b)),
  )
  | inr n ↦ rw n (
      extend (free_bit turns (k + 1) val) (not_zero (val / 2 ^ k) n)
        (free_bit-Free8 turns (k + 1) val))
]
  where
    extend : (o : Option ℕ) → bit val k ≡ 1 → Free8 turns (k + 1) val o → Free8 (suc turns) k val o
    extend none b f = λ c a d. elim (Bool-cases (c == k)) [
      | inl e ↦ ap (bit val) ((==_iff c k).0 e) ∙ b
      | inr e ↦ f c (ground (arith, a, e)) (omega (arith, d))
    ]
    extend (some m) b f = (
      omega (arith, f.0),
      omega (arith, f.1),
      f.2,
      λ c a d. elim (Bool-cases (c == k)) [
        | inl e ↦ ap (bit val) ((==_iff c k).0 e) ∙ b
        | inr e ↦ f.3 c (ground (arith, a, e)) d
      ],
    )

-- All bits of a byte are set.
abbrev pub Full : ℕ → Type 0
Full val = (c : ℕ) → c < 8 → bit val c ≡ 1

-- The first bit of a byte that is not set.
abbrev pub First : ℕ → ℕ → Type 0
First val k = (k < 8) × (bit val k ≡ 0) × ((c : ℕ) → c < k → bit val c ≡ 1)

free_bit-Full : (val : ℕ) → free_bit 8 0 val ≡ none → Full val
free_bit-Full val e c l =
    subst (Free8 8 0 val) e (free_bit-Free8 8 0 val) c (omega arith) (omega (arith, l))

free_bit-First : (val k : ℕ) → free_bit 8 0 val ≡ some k → First val k
free_bit-First val k e =
    let f = subst (Free8 8 0 val) e (free_bit-Free8 8 0 val) in
    (omega (arith, f.1), f.2, λ c l. f.3 c (omega arith) l)

abbrev pub FreeByte : ℕ → ℕ → (ℕ → ℕ) → Option (ℕ × ℕ) → Type 0
FreeByte turns j bitmap none = (c : ℕ) → j ≤ c → c < j + turns → Full (bitmap c)
FreeByte turns j bitmap (some r) =
    (j ≤ r.0)
    × (r.0 < j + turns)
    × First (bitmap r.0) r.1
    × ((c : ℕ) → j ≤ c → c < r.0 → Full (bitmap c))

pub free_byte-FreeByte :
    (turns j : ℕ) (bitmap : ℕ → ℕ) → FreeByte turns j bitmap (free_byte turns j bitmap)
unfolding free_byte
free_byte-FreeByte zero j bitmap = λ c a b. absurd (omega (arith, a, b))
free_byte-FreeByte (suc turns) j bitmap =
    let later = free_byte turns (j + 1) bitmap in
    elim (Option-cases (free_bit 8 0 (bitmap j))) [
      | inl e ↦
          subst (λ o. FreeByte (suc turns) j bitmap (byte_turn j o later)) (sym e)
            (extend later (free_bit-Full (bitmap j) e) (free_byte-FreeByte turns (j + 1) bitmap))
      | inr (k, e) ↦
          subst (λ o. FreeByte (suc turns) j bitmap (byte_turn j o later)) (sym e)
            (
              omega arith,
              omega arith,
              free_bit-First (bitmap j) k e,
              λ c a b. absurd (omega (arith, a, b)),
            )
    ]
  where
    extend :
        (o : Option (ℕ × ℕ))
        → Full (bitmap j)
        → FreeByte turns (j + 1) bitmap o
        → FreeByte (suc turns) j bitmap o
    extend none b f = λ c a d. elim (Bool-cases (c == j)) [
      | inl e ↦ subst (λ x. Full (bitmap x)) (sym ((==_iff c j).0 e)) b
      | inr e ↦ f c (ground (arith, a, e)) (omega (arith, d))
    ]
    extend (some r) b f = (
      omega (arith, f.0),
      omega (arith, f.1),
      f.2,
      λ c a d. elim (Bool-cases (c == j)) [
        | inl e ↦ subst (λ x. Full (bitmap x)) (sym ((==_iff c j).0 e)) b
        | inr e ↦ f.3 c (ground (arith, a, e)) d
      ],
    )
