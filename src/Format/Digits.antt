-- ===== src/Format/Digits.antt =====
-- The digits of src/libc/vsprintf.c, read back.
use mathlib.Core.Path.{ap₂}
use mathlib.Core.List.{reverse-cons}
use native.Mathlib.Nat.{pow-suc, mod-lt, div-lt_iff_lt-mul, div-add-mod', mul-le-mul_left}
use fat.Prelude.{
  ℕ, zero, suc, ◌+◌, ◌-◌, ◌*◌, ◌/◌, ◌%◌, ◌^◌, ◌<◌, ◌≤◌, ◌≡◌, Bool, List, [], ◌∷◌, ◌++◌, ◌==◌, ltb,
  if◌then◌else◌, arith, refl, ap, sym, ◌∙◌, length, reverse, Bool-cases, inl, inr, ==_iff,
}
use fat.Format.{digit, digit_loop, number_digits}

-- The value of a digit.
undigit : ℕ → ℕ
undigit c = if ltb c 58 then c - 48 else if ltb c 91 then c - 55 else c - 87

-- A text in the base, highest digit first, after one of the value `acc`.
pub read : ℕ → ℕ → List ℕ → ℕ
unfolding undigit
read base acc [] = acc
read base acc (c ∷ l) = read base (acc * base + undigit c) l

undigit-digit : (large : Bool) (d : ℕ) → d < 36 → undigit (digit large d) ≡ d
unfolding undigit digit
undigit-digit large d l = ground (arith, l)

read-snoc :
    (base acc : ℕ) (l : List ℕ) (c : ℕ)
    → read base acc (l ++ c ∷ []) ≡ read base acc l * base + undigit c
unfolding read
read-snoc base acc [] c = refl
read-snoc base acc (d ∷ l) c = read-snoc base (acc * base + undigit d) l c

module _ (large : Bool) (base : ℕ) (two : 2 ≤ base) (most : base ≤ 36) where
  fewer_left : (fuel num : ℕ) → num < 2 ^ suc fuel → num / base < 2 ^ fuel
  fewer_left fuel num l =
      (div-lt_iff_lt-mul (omega (arith, two))).1
        (omega (arith, l, pow-suc 2 fuel, mul-le-mul_left (2 ^ fuel) two))

  last_digit : (num : ℕ) → undigit (digit large (num % base)) ≡ num % base
  last_digit num =
      undigit-digit large (num % base)
        (omega (arith, mod-lt num {m = base} (omega (arith, two)), most))

  digit_loop-read :
      (fuel num : ℕ) → num < 2 ^ fuel → read base 0 (reverse (digit_loop fuel large base num)) ≡ num
  unfolding digit_loop read
  digit_loop-read zero num l = sym (nothing num l)
    where
      nothing : (n : ℕ) → n < 2 ^ 0 → n ≡ 0
      nothing n h = omega (arith, h)
  digit_loop-read (suc fuel) num l =
      let fewer : num / base < 2 ^ fuel = fewer_left fuel num l in
      let digits = digit_loop fuel large base (num / base) in
      let c = digit large (num % base) in
      elim (Bool-cases (num == 0)) [
        | inl t ↦ rw (digit_loop, t) (sym ((==_iff num 0).0 t))
        | inr f ↦
            rw (digit_loop, f)
              (ap (read base 0) (reverse-cons c digits)
                ∙ read-snoc base 0 (reverse digits) c
                ∙ ap₂ (λ a d. a * base + d) (digit_loop-read fuel (num / base) fewer)
                    (last_digit num)
                ∙ div-add-mod' num base)
      ]

length-digit_loop :
    (fuel : ℕ) (large : Bool) (base num : ℕ) → length (digit_loop fuel large base num) ≤ fuel
unfolding digit_loop
length-digit_loop zero large base num = omega arith
length-digit_loop (suc fuel) large base num =
    ground (arith, length-digit_loop fuel large base (num / base))

zero-read : (base : ℕ) → read base 0 (reverse (48 ∷ [])) ≡ 0
unfolding read undigit
zero-read base = omega arith

-- The digits of a number of 64 bits, in the order in which they are written, read as the number, in
-- each base that there are digits for.
pub number_digits-read :
    (large : Bool) (base num : ℕ)
    → 2 ≤ base
    → base ≤ 36
    → num < 2 ^ 64
    → (read base 0 (reverse (number_digits large base num)) ≡ num)
      × (length (number_digits large base num) ≤ 64)
unfolding number_digits
number_digits-read large base num two most l = elim (Bool-cases (num == 0)) [
  | inl t ↦ rw (number_digits, t) (zero-read base ∙ sym ((==_iff num 0).0 t), omega arith)
  | inr f ↦
      rw (number_digits, f)
        (digit_loop-read large base two most 64 num l, length-digit_loop 64 large base num)
]
