-- ===== src/Format/Examples.antt =====
-- Runs of `number` of src/libc/vsprintf.c, and its theorems there.
use fat.Prelude.{
  max, ◌-◌, ◌^◌, ◌≤◌, ◌<◌, ℕ, List, ◌≡◌, Bool, true, false, [], ◌∷◌, arith, refl, length, reverse,
}
use fat.Format.{
  Flags, digit, digit_loop, number_digits, number_tmp, pad_loop, copy_loop, layout, number,
}
use fat.Format.Digits.{read, number_digits-read}
use fat.Format.Number.{aligned}
use fat.Format.Spelled.{AllDigits, number-prefix}

abbrev flags : Bool → Bool → Flags
flags zeropad sign = record {
  zeropad = zeropad;
  sign = sign;
  left = false;
  special = false;
  large = false;
}

-- 255 in a field of 5, in base 16.
prints : number 10 255 16 5 (flags true false) ≡ 48 ∷ 48 ∷ 48 ∷ 102 ∷ 102 ∷ []
unfolding number layout number_tmp number_digits digit_loop digit pad_loop copy_loop
prints = refl

-- -5 in a field of 4: the zeros come before the sign.
sign_in_zeros : number 10 (2 ^ 64 - 5) 10 4 (flags true true) ≡ 48 ∷ 48 ∷ 45 ∷ 53 ∷ []
unfolding number layout number_tmp number_digits digit_loop digit pad_loop copy_loop
sign_in_zeros = refl

number_digits-read_example :
    (read 16 0 (reverse (number_digits false 16 51966)) ≡ 51966)
    × (length (number_digits false 16 51966) ≤ 64)
number_digits-read_example =
    number_digits-read false 16 51966 (omega arith) (omega arith) (omega arith)

number-prefix_example :
    (digits : List ℕ) × (read 10 0 digits ≡ 5)
    × AllDigits false digits
    × (0 < length digits)
    × (length digits ≤ 64)
    × (number 10 (2 ^ 64 - 5) 10 4 (flags true true)
        ≡ aligned (max 4 (length (45 ∷ digits))) false true (45 ∷ digits))
unfolding number_tmp number_digits digit_loop
number-prefix_example =
    number-prefix 10 (2 ^ 64 - 5) 10 4 (flags true true) (omega arith) (omega arith) (omega arith)
      (omega arith) (omega arith)
