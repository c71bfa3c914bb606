-- ===== src/Keyboard/Examples.antt =====
-- Runs of src/srv/keyboard/keyboard.c, and its theorems there.
use fat.Prelude.{ℕ, ◌+◌, ◌%◌, ◌≡◌, List, [], ◌∷◌, ◌++◌, arith, refl, take, drop}
use fat.Keyboard.{Buffer, put_char, read_char, Keyboard, keymap, nth}
use fat.Keyboard.Ring.{IsRing, contents, queue_refines}
use fat.Keyboard.Typed.{AllBytes, scan, typed, typed_by, scan-typed}

abbrev ring : ℕ → ℕ → ℕ → Buffer
ring count head tail = record { buf = λ i. 65 + i % 26; count = count; head = head; tail = tail }

abbrev board : Buffer → Keyboard
board b = record {
  shift_l = 0;
  shift_r = 0;
  ctrl_l = 0;
  ctrl_r = 0;
  alt_l = 0;
  alt_r = 0;
  pre_code = 0;
  skip = 0;
  kb_buf = b;
}

-- Two characters, the second one at the start of the array.
abbrev wrapped : Buffer
wrapped = ring 2 127 1

wrapped-IsRing : IsRing wrapped
wrapped-IsRing = record { head_in = omega arith; tail_at = refl; fits = omega arith }

empty-IsRing : IsRing (ring 0 5 5)
empty-IsRing = record { head_in = omega arith; tail_at = refl; fits = omega arith }

queue_refines_example :
    (IsRing (put_char 97 wrapped) × (contents (put_char 97 wrapped) ≡ contents wrapped ++ 97 ∷ []))
    × (IsRing (read_char 0 wrapped).1
        × ((read_char 0 wrapped).0 ≡ take 1 (contents wrapped))
        × (contents (read_char 0 wrapped).1 ≡ drop 1 (contents wrapped)))
queue_refines_example = (
  (queue_refines wrapped wrapped-IsRing).0 97,
  (queue_refines wrapped wrapped-IsRing).1 0 (omega arith),
)

-- The left shift key down, `a`, the shift key up, `a`, and the right control key.
abbrev keys : List ℕ
keys = 0x2a ∷ 0x1e ∷ 0x9e ∷ 0xaa ∷ 0x1e ∷ 0xe0 ∷ 0x1d ∷ []

keys-AllBytes : AllBytes keys
keys-AllBytes = (
  omega arith,
  (omega arith, (omega arith, (omega arith, (omega arith, (omega arith, (omega arith, tt)))))),
)

keys_mean : typed 0 0 keys ≡ 65 ∷ 97 ∷ []
unfolding typed typed_by keymap nth
keys_mean = refl

scan-typed_example :
    contents (scan keys (board (ring 0 5 5))).kb_buf ≡ contents (ring 0 5 5) ++ typed 0 0 keys
unfolding typed typed_by keymap nth
scan-typed_example =
    scan-typed keys (board (ring 0 5 5)) keys-AllBytes (omega arith) empty-IsRing (omega arith)
