-- ===== src/Format.antt =====
-- `number` of src/libc/vsprintf.c, which src/core/printk.c repeats: a number as text. The buffer from
-- `str` up to `end` is the number of characters that fit, and the result the characters written; the
-- 0 written behind them is not part of it.
pub mod Digits
pub mod Number
pub mod Spelled
mod Examples
use fat.Prelude.{
  ℕ, zero, suc, ◌+◌, ◌-◌, ◌*◌, ◌/◌, ◌%◌, ◌^◌, Bool, true, false, List, [], ◌∷◌, ◌++◌, ◌==◌, ◌&&◌,
  ltb, leb, if◌then◌else◌, length, reverse,
}

-- The bits of `type`.
pub record Flags : Type 0 where
  pub zeropad : Bool
  pub sign : Bool
  pub left : Bool
  pub special : Bool
  pub large : Bool

-- `digits[d]`: the digits, then the letters.
pub digit : Bool → ℕ → ℕ
digit large d = if ltb d 10 then 48 + d else if large then 55 + d else 87 + d

-- The loop over the digits, lowest first; `fuel` bounds its turns.
pub digit_loop : ℕ → Bool → ℕ → ℕ → List ℕ
unfolding digit
digit_loop zero large base num = []
digit_loop (suc fuel) large base num =
    let rest = digit_loop fuel large base (num / base) in
    if num == 0 then [] else digit large (num % base) ∷ rest

-- A number of 64 bits has at most 64 digits.
pub number_digits : Bool → ℕ → ℕ → List ℕ
number_digits large base num = if num == 0 then 48 ∷ [] else digit_loop 64 large base num

-- The test `(signed long)num < 0` of 64 bits.
abbrev is_negative : ℕ → Bool
is_negative num = leb (2 ^ 63) num

-- `tmp`, in the order in which it is filled.
pub number_tmp : Flags → ℕ → ℕ → List ℕ
number_tmp type base num =
    let minus = if type.sign then is_negative num else false in
    let abs = if minus then (2 ^ 64 - num) % 2 ^ 64 else num in
    (number_digits type.large base abs ++ (if minus then 45 ∷ [] else []))
    ++ (if type.special
        then (if base == 8
            then 48 ∷ []
            else if base == 16
            then digit type.large 33 ∷ 48 ∷ []
            else [])
        else [])

-- `while (n-- > 0 && str < end) *str++ = pad`
pub pad_loop : ℕ → ℕ → ℕ → List ℕ
pad_loop pad zero room = []
pad_loop pad (suc n) zero = []
pad_loop pad (suc n) (suc room) = pad ∷ pad_loop pad n room

-- The loop that copies `tmp` from its end, while `size` and `room` last.
pub copy_loop : List ℕ → ℕ → ℕ → List ℕ
copy_loop [] size room = []
copy_loop (c ∷ l) zero room = []
copy_loop (c ∷ l) (suc size) zero = []
copy_loop (c ∷ l) (suc size) (suc room) = c ∷ copy_loop l size room

-- `tmp` in a field of `size` characters: the padding before it, it, and the padding behind it.
pub layout : ℕ → ℕ → Bool → Bool → List ℕ → List ℕ
layout room size left zeropad tmp =
    let pad = if zeropad then (if left then 32 else 48) else 32 in
    let width = if ltb size (length tmp) then length tmp else size in
    let before = if left then [] else pad_loop pad (width - length tmp) room in
    let text = copy_loop (reverse tmp) (width - length before) (room - length before) in
    before
    ++ text
    ++ pad_loop pad (width - length before - length text) (room - length before - length text)

pub number : ℕ → ℕ → ℕ → ℕ → Flags → List ℕ
number room num base size type =
    if ltb base 2
    then []
    else if ltb 36 base
    then []
    else layout room size type.left type.zeropad (number_tmp type base num)
