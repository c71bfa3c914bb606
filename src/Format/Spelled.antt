-- ===== src/Format/Spelled.antt =====
-- The text that `number` of src/libc/vsprintf.c writes: a prefix, a sign and digits.
use mathlib.Core.List.{reverse-append, reverse-cons}
use native.Mathlib.Nat.{mod-lt}
use fat.Prelude.{
  ℕ, zero, suc, ◌-◌, ◌/◌, ◌%◌, ◌^◌, ◌≤◌, ◌<◌, ◌≡◌, ◌⊎◌, inl, inr, Bool, true, false, List, [], ◌∷◌,
  ◌++◌, ◌==◌, ◌&&◌, leb, max, if◌then◌else◌, arith, refl, ap, sym, subst, ◌∙◌, length, reverse,
  Bool-cases,
}
use fat.Format.{Flags, digit, digit_loop, number_digits, number_tmp, number}
use fat.Format.Digits.{read, number_digits-read}
use fat.Format.Number.{length-reverse, aligned, number-aligned}

-- "0" in base 8 and "0x" or "0X" in base 16.
abbrev pub prefix : Bool → Bool → ℕ → List ℕ
prefix special large base =
    if special && base == 8
    then 48 ∷ []
    else if special && base == 16
    then 48 ∷ (if large then 88 else 120) ∷ []
    else []

-- A number of 64 bits that is read with its sign, or without one.
abbrev pub minus : Bool → ℕ → List ℕ
minus sign num = if sign && leb (2 ^ 63) num then 45 ∷ [] else []

abbrev pub magnitude : Bool → ℕ → ℕ
magnitude sign num = if sign && leb (2 ^ 63) num then 2 ^ 64 - num else num

-- From '0' to '9', or from 'a' or 'A' on.
abbrev pub AllDigits : Bool → List ℕ → Type 0
AllDigits large [] = Unit {0}
AllDigits large (c ∷ l) =
    (((48 ≤ c) × (c < 58)) ⊎ (((if large then 65 else 97) ≤ c) × (c < (if large then 91 else 123))))
    × AllDigits large l

AllDigits-append :
    (large : Bool) (l m : List ℕ) → AllDigits large l → AllDigits large m → AllDigits large (l ++ m)
AllDigits-append large [] m a b = b
AllDigits-append large (c ∷ l) m a b = (a.0, AllDigits-append large l m a.1 b)

AllDigits-reverse : (large : Bool) (l : List ℕ) → AllDigits large l → AllDigits large (reverse l)
AllDigits-reverse large [] a = tt
AllDigits-reverse large (c ∷ l) a =
    subst (AllDigits large) (sym (reverse-cons c l))
      (AllDigits-append large (reverse l) (c ∷ []) (AllDigits-reverse large l a.1) (a.0, tt))

digit-AllDigits : (large : Bool) (d : ℕ) → d < 36 → AllDigits large (digit large d ∷ [])
unfolding digit
digit-AllDigits true d h = (ground (arith, h), tt)
digit-AllDigits false d h = (ground (arith, h), tt)

digit_loop-AllDigits :
    (fuel : ℕ) (large : Bool) (base num : ℕ)
    → 2 ≤ base
    → base ≤ 36
    → AllDigits large (digit_loop fuel large base num)
unfolding digit_loop
digit_loop-AllDigits zero large base num two most = tt
digit_loop-AllDigits (suc fuel) large base num two most = elim (Bool-cases (num == 0)) [
  | inl t ↦ rw t tt
  | inr f ↦ rw f (
    (digit-AllDigits large (num % base)
        (omega (arith, mod-lt num {m = base} (omega (arith, two)), most))).0,
    digit_loop-AllDigits fuel large base (num / base) two most,
  )
]

number_digits-AllDigits :
    (large : Bool) (base num : ℕ)
    → 2 ≤ base
    → base ≤ 36
    → AllDigits large (number_digits large base num)
unfolding number_digits
number_digits-AllDigits large base num two most = elim (Bool-cases (num == 0)) [
  | inl t ↦ rw t (inl (omega arith, omega arith), tt)
  | inr f ↦ rw f (digit_loop-AllDigits 64 large base num two most)
]

-- The parts of `tmp`, from its end.
abbrev tmp_sign : Bool → ℕ → List ℕ
tmp_sign sign num = if (if sign then leb (2 ^ 63) num else false) then 45 ∷ [] else []

abbrev tmp_prefix : Bool → Bool → ℕ → List ℕ
tmp_prefix special large base =
    if special
    then (if base == 8 then 48 ∷ [] else if base == 16 then digit large 33 ∷ 48 ∷ [] else [])
    else []

reverse-tmp_sign : (sign : Bool) (num : ℕ) → reverse (tmp_sign sign num) ≡ minus sign num
reverse-tmp_sign true num = elim (Bool-cases (leb (2 ^ 63) num)) [
  | inl y ↦ rw y refl
  | inr y ↦ rw y refl
]
reverse-tmp_sign false num = refl

reverse-tmp_prefix :
    (special large : Bool) (base : ℕ)
    → reverse (tmp_prefix special large base) ≡ prefix special large base
unfolding digit
reverse-tmp_prefix false large base = refl
reverse-tmp_prefix true large base = elim (Bool-cases (base == 8)) [
  | inl y ↦ rw y refl
  | inr y ↦ rw y (elim (Bool-cases (base == 16)) [
    | inl z ↦
        rw z
          (elim large as (λ b. reverse (digit b 33 ∷ 48 ∷ []) ≡ 48 ∷ (if b then 88 else 120) ∷ []) [
            | true ↦ refl
            | false ↦ refl
          ])
    | inr z ↦ rw z refl
  ])
]

abs-magnitude :
    (sign : Bool) (num : ℕ)
    → (if (if sign then leb (2 ^ 63) num else false) then (2 ^ 64 - num) % 2 ^ 64 else num)
      ≡ magnitude sign num
abs-magnitude true num = ground arith
abs-magnitude false num = refl

reverse-number_tmp :
    (type : Flags) (base num : ℕ)
    → reverse (number_tmp type base num)
      ≡ prefix type.special type.large base
        ++ (minus type.sign num
            ++ reverse (number_digits type.large base (magnitude type.sign num)))
unfolding number_tmp
reverse-number_tmp type base num =
    let digits =
      number_digits type.large base (
        if (if type.sign then leb (2 ^ 63) num else false) then (2 ^ 64 - num) % 2 ^ 64 else num) in
    let m = tmp_sign type.sign num in
    let p = tmp_prefix type.special type.large base in
    reverse-append (digits ++ m) p
    ∙ ap (λ l. reverse p ++ l) (reverse-append digits m)
    ∙ ap (λ l. l ++ (reverse m ++ reverse digits)) (reverse-tmp_prefix type.special type.large base)
    ∙ ap (λ l. prefix type.special type.large base ++ (l ++ reverse digits))
        (reverse-tmp_sign type.sign num)
    ∙ ap
        (λ n.
          prefix type.special type.large base
          ++ (minus type.sign num ++ reverse (number_digits type.large base n)))
        (abs-magnitude type.sign num)

magnitude_lt : (sign : Bool) (num : ℕ) → num < 2 ^ 64 → magnitude sign num < 2 ^ 64
magnitude_lt true num h = ground (arith, h)
magnitude_lt false num h = h

length-digit_loop_turn :
    (fuel : ℕ) (large : Bool) (base num : ℕ)
    → (num == 0) ≡ false
    → 0 < length (digit_loop (suc fuel) large base num)
unfolding digit_loop
length-digit_loop_turn fuel large base num f = rw f (omega arith)

some_digits : (large : Bool) (base num : ℕ) → 0 < length (number_digits large base num)
unfolding number_digits
some_digits large base num = elim (Bool-cases (num == 0)) [
  | inl t ↦ rw t (omega arith)
  | inr f ↦ rw f (length-digit_loop_turn 63 large base num f)
]

-- In a base from 2 to 36, with room for `size` characters and for the text, `number` of a number of 64 bits
-- writes, in a field of `size` characters, a prefix, a sign and digits: with SPECIAL "0" in base 8 and
-- "0x" or, with LARGE, "0X" in base 16; with SIGN "-" if the number is negative; then 1 to 64 digits, large
-- letters among them only with LARGE, that read, highest first, as the number without its sign. Blanks
-- stand behind the text for LEFT, otherwise zeros before it for ZEROPAD or blanks.
pub number-prefix :
    (room num base size : ℕ) (type : Flags)
    → 2 ≤ base
    → base ≤ 36
    → num < 2 ^ 64
    → size ≤ room
    → length (number_tmp type base num) ≤ room
    → (digits : List ℕ) × (read base 0 digits ≡ magnitude type.sign num)
      × AllDigits type.large digits
      × (0 < length digits)
      × (length digits ≤ 64)
      × (let text = prefix type.special type.large base ++ (minus type.sign num ++ digits) in
          number room num base size type
          ≡ aligned (max size (length text)) type.left type.zeropad text)
number-prefix room num base size type two most small s l =
    let n = magnitude type.sign num in
    let digits = number_digits type.large base n in
    let (value, few) =
      number_digits-read type.large base n two most (magnitude_lt type.sign num small) in
    let e = reverse-number_tmp type base num in
    (
      reverse digits,
      value,
      AllDigits-reverse type.large digits (number_digits-AllDigits type.large base n two most),
      omega (arith, some_digits type.large base n, length-reverse digits),
      omega (arith, few, length-reverse digits),
      number-aligned room num base size type two most s l
          ∙ ap
              (λ k.
                aligned (max size k) type.left type.zeropad (reverse (number_tmp type base num)))
              (sym (length-reverse (number_tmp type base num)))
          ∙ ap (λ t. aligned (max size (length t)) type.left type.zeropad t) e,
    )
