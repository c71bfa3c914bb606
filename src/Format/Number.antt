-- ===== src/Format/Number.antt =====
-- What `number` of src/libc/vsprintf.c writes.
use mathlib.Core.List.{reverse-cons}
use fat.Prelude.{
  ℕ, max, zero, suc, ◌+◌, ◌-◌, ◌≤◌, ◌≡◌, Bool, true, false, List, [], ◌∷◌, ◌++◌, ltb, append-nil,
  length-append, if◌then◌else◌, arith, refl, ap, sym, ◌∙◌, length, reverse, replicate, Bool-cases,
  inl, inr,
}
use fat.Format.{Flags, number_tmp, pad_loop, copy_loop, layout, number}

length-pad_loop :
    (pad n room : ℕ) → (length (pad_loop pad n room) ≤ n) × (length (pad_loop pad n room) ≤ room)
unfolding pad_loop
length-pad_loop pad zero room = (omega arith, omega arith)
length-pad_loop pad (suc n) zero = (omega arith, omega arith)
length-pad_loop pad (suc n) (suc room) =
    let (a, b) = length-pad_loop pad n room in (omega (arith, a), omega (arith, b))

length-copy_loop : (l : List ℕ) (size room : ℕ) → length (copy_loop l size room) ≤ room
unfolding copy_loop
length-copy_loop [] size room = omega arith
length-copy_loop (c ∷ l) zero room = omega arith
length-copy_loop (c ∷ l) (suc size) zero = omega arith
length-copy_loop (c ∷ l) (suc size) (suc room) = omega (arith, length-copy_loop l size room)

pad_loop-all : (pad n room : ℕ) → n ≤ room → pad_loop pad n room ≡ replicate n pad
unfolding pad_loop
pad_loop-all pad zero room l = refl
pad_loop-all pad (suc n) zero l = absurd (omega (arith, l))
pad_loop-all pad (suc n) (suc room) l =
    ap (λ r. pad ∷ r) (pad_loop-all pad n room (omega (arith, l)))

copy_loop-all :
    (l : List ℕ) (size room : ℕ) → length l ≤ size → length l ≤ room → copy_loop l size room ≡ l
unfolding copy_loop
copy_loop-all [] size room s r = refl
copy_loop-all (c ∷ l) zero room s r = absurd (omega (arith, s))
copy_loop-all (c ∷ l) (suc size) zero s r = absurd (omega (arith, r))
copy_loop-all (c ∷ l) (suc size) (suc room) s r =
    ap (λ r. c ∷ r) (copy_loop-all l size room (omega (arith, s)) (omega (arith, r)))

three_fit : (a b c room : ℕ) → a ≤ room → b ≤ room - a → c ≤ room - a - b → a + b + c ≤ room
three_fit a b c room p q r = omega (arith, p, q, r)

length-three : (a b c : List ℕ) → length (a ++ b ++ c) ≡ length a + length b + length c
length-three a b c = omega (arith, length-append a b, length-append (a ++ b) c)

layout-fits :
    (room size : ℕ) (left zeropad : Bool) (tmp before : List ℕ) (pad w : ℕ)
    → length before ≤ room
    → length (
        before
        ++ copy_loop (reverse tmp) (w - length before) (room - length before)
        ++ pad_loop pad
            (w
              - length before
              - length (copy_loop (reverse tmp) (w - length before) (room - length before)))
            (room
              - length before
              - length (copy_loop (reverse tmp) (w - length before) (room - length before))))
      ≤ room
layout-fits room size left zeropad tmp before pad w h =
    let text = copy_loop (reverse tmp) (w - length before) (room - length before) in
    let after =
      pad_loop pad (w - length before - length text) (room - length before - length text) in
    omega (
      arith,
      length-three before text after,
      three_fit (length before) (length text) (length after) room h
          (length-copy_loop (reverse tmp) (w - length before) (room - length before))
          (length-pad_loop pad (w - length before - length text)
            (room - length before - length text)).1,
    )

length-layout :
    (room size : ℕ) (left zeropad : Bool) (tmp : List ℕ)
    → length (layout room size left zeropad tmp) ≤ room
unfolding layout
length-layout room size true zeropad tmp =
    layout-fits room size true zeropad tmp [] _ _ (omega arith)
length-layout room size false zeropad tmp =
    layout-fits room size false zeropad tmp _ _ _ (length-pad_loop _ _ room).1

-- `number` writes nothing past the end of the buffer, apart from its final 0.
number-fits :
    (room num base size : ℕ) (type : Flags) → length (number room num base size type) ≤ room
unfolding number
number-fits room num base size type = elim (Bool-cases (ltb base 2)) [
  | inl t ↦ rw (number, t) (omega arith)
  | inr f ↦
      rw (number, f)
        (elim (Bool-cases (ltb 36 base)) [
          | inl t ↦ rw t (omega arith)
          | inr g ↦ rw g (length-layout room size type.left type.zeropad (number_tmp type base num))
        ])
]

pub length-reverse : (l : List ℕ) → length (reverse l) ≡ length l
length-reverse [] = refl
length-reverse (c ∷ l) =
    ap length (reverse-cons c l)
    ∙ omega (arith, length-append (reverse l) (c ∷ []), length-reverse l)

length-replicate : (n c : ℕ) → length (replicate n c) ≡ n
length-replicate zero c = refl
length-replicate (suc n) c = ap suc (length-replicate n c)

-- The three parts, when `w` characters are wanted and there is room.
module _ (tmp : List ℕ) (w room pad : ℕ) (long : length tmp ≤ w) (room_left : w ≤ room) where
  abbrev parts : List ℕ → List ℕ
  parts before =
      let text = copy_loop (reverse tmp) (w - length before) (room - length before) in
      before
      ++ text
      ++ pad_loop pad (w - length before - length text) (room - length before - length text)

  left_parts : parts [] ≡ reverse tmp ++ replicate (w - length tmp) pad
  left_parts =
      let e = length-reverse tmp in
      let t : copy_loop (reverse tmp) (w - 0) (room - 0) ≡ reverse tmp =
        copy_loop-all (reverse tmp) (w - 0) (room - 0) (omega (arith, e, long))
          (omega (arith, e, long, room_left)) in
      ap (λ t. t ++ pad_loop pad (w - 0 - length t) (room - 0 - length t)) t
      ∙ ap (λ a. reverse tmp ++ a)
          (pad_loop-all pad (w - 0 - length (reverse tmp)) (room - 0 - length (reverse tmp))
            (omega (arith, room_left)))
      ∙ ap (λ n. reverse tmp ++ replicate n pad) (omega (arith, e))

  right_parts : (b : List ℕ) → length b ≡ w - length tmp → parts b ≡ b ++ reverse tmp
  unfolding pad_loop
  right_parts b l =
      let e = length-reverse tmp in
      let t : copy_loop (reverse tmp) (w - length b) (room - length b) ≡ reverse tmp =
        copy_loop-all (reverse tmp) (w - length b) (room - length b) (omega (arith, e, l, long))
          (omega (arith, e, l, long, room_left)) in
      let z : w - length b - length (reverse tmp) ≡ 0 = omega (arith, e, l, long) in
      ap (λ t. b ++ t ++ pad_loop pad (w - length b - length t) (room - length b - length t)) t
      ∙ ap (λ n. b ++ reverse tmp ++ pad_loop pad n (room - length b - length (reverse tmp))) z
      ∙ append-nil (b ++ reverse tmp)

wide : (size n : ℕ) → n ≤ (if ltb size n then n else size)
wide size n = ground arith

wider : (size n : ℕ) → (if ltb size n then n else size) ≡ max size n
wider size n = ground arith

-- A text in a field of `w` characters.
abbrev pub aligned : ℕ → Bool → Bool → List ℕ → List ℕ
aligned w true zeropad text = text ++ replicate (w - length text) 32
aligned w false zeropad text = replicate (w - length text) (if zeropad then 48 else 32) ++ text

layout-aligned :
    (room size : ℕ) (left zeropad : Bool) (tmp : List ℕ)
    → (if ltb size (length tmp) then length tmp else size) ≤ room
    → layout room size left zeropad tmp
      ≡ aligned (if ltb size (length tmp) then length tmp else size) left zeropad (reverse tmp)
unfolding layout
layout-aligned room size true zeropad tmp l =
    let w = if ltb size (length tmp) then length tmp else size in
    let back : (p : ℕ)
        → reverse tmp ++ replicate (w - length tmp) p
          ≡ reverse tmp ++ replicate (w - length (reverse tmp)) p =
      λ p. ap (λ n. reverse tmp ++ replicate (w - n) p) (sym (length-reverse tmp)) in
    elim zeropad as (λ z. layout room size true z tmp ≡ aligned w true z (reverse tmp)) [
      | true ↦ left_parts tmp w room 32 (wide size (length tmp)) l ∙ back 32
      | false ↦ left_parts tmp w room 32 (wide size (length tmp)) l ∙ back 32
    ]
layout-aligned room size false zeropad tmp l =
    let w = if ltb size (length tmp) then length tmp else size in
    let front : (p : ℕ)
        → pad_loop p (w - length tmp) room ≡ replicate (w - length (reverse tmp)) p =
      λ p.
        pad_loop-all p (w - length tmp) room (omega (arith, l))
        ∙ ap (λ n. replicate (w - n) p) (sym (length-reverse tmp)) in
    let counted : (p : ℕ) → length (pad_loop p (w - length tmp) room) ≡ w - length tmp = λ p.
      ap length (pad_loop-all p (w - length tmp) room (omega (arith, l)))
      ∙ length-replicate (w - length tmp) p in
    elim zeropad as (λ z. layout room size false z tmp ≡ aligned w false z (reverse tmp)) [
      | true ↦
          right_parts tmp w room 48 (wide size (length tmp)) l _ (counted 48)
          ∙ ap (λ b. b ++ reverse tmp) (front 48)
      | false ↦
          right_parts tmp w room 32 (wide size (length tmp)) l _ (counted 32)
          ∙ ap (λ b. b ++ reverse tmp) (front 32)
    ]

-- In a base from 2 to 36, with room for `size` characters and for the text, `number` writes the
-- characters of `tmp`, last first, in a field of `size` characters: with blanks behind them
-- for LEFT, otherwise with zeros before them for ZEROPAD or blanks.
pub number-aligned :
    (room num base size : ℕ) (type : Flags)
    → 2 ≤ base
    → base ≤ 36
    → size ≤ room
    → length (number_tmp type base num) ≤ room
    → number room num base size type
      ≡ aligned
          (max size (length (number_tmp type base num)))
          type.left
          type.zeropad
          (reverse (number_tmp type base num))
unfolding number
number-aligned room num base size type two most s l =
    let b : ltb base 2 ≡ false = ground (arith, two) in
    let c : ltb 36 base ≡ false = ground (arith, most) in
    let n = length (number_tmp type base num) in
    rw (number, b)
      (rw c (
        layout-aligned room size type.left type.zeropad (number_tmp type base num)
          (omega (arith, s, l, wider size n))
        ∙ ap (λ w. aligned w type.left type.zeropad (reverse (number_tmp type base num)))
            (wider size n)))
