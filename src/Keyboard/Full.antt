-- ===== src/Keyboard/Full.antt =====
-- A full ring buffer of src/srv/keyboard/keyboard.c, under any sequence of uses.
use fat.Prelude.{ℕ, zero, suc, sym, subst, ◌+◌, ◌≡◌, true, List, [], ◌∷◌, ◌==◌, arith, refl}
use fat.Keyboard.{Buffer, keyboard_buf_size, put_char, read_char, read_loop}
use fat.Keyboard.Ring.{IsRing}

-- What is done to the buffer.
pub data Use : Type 0 where
  put : ℕ → Use
  read : ℕ → Use

-- The buffer after some uses, and what the reads returned.
pub uses : List Use → Buffer → List (List ℕ) × Buffer
uses [] b = ([], b)
uses (put c ∷ l) b = uses l (put_char c b)
uses (read size ∷ l) b =
    let r = read_char size b in let later = uses l r.1 in (r.0 ∷ later.0, later.1)

abbrev pub AllEmpty : List (List ℕ) → Type 0
AllEmpty [] = Unit {0}
AllEmpty (r ∷ l) = (r ≡ []) × AllEmpty l

loop-full : (n : ℕ) (b : Buffer) → (b.head == b.tail) ≡ true → read_loop n b ≡ ([], b)
unfolding read_loop
loop-full zero b e = refl
loop-full (suc n) b e = rw e refl

full-read : (size : ℕ) (b : Buffer) → (b.head == b.tail) ≡ true → read_char size b ≡ ([], b)
unfolding read_char
full-read size b e = loop-full (size + 1) b e

full-put : (c : ℕ) (b : Buffer) → b.count ≡ keyboard_buf_size → put_char c b ≡ b
unfolding put_char
full-put c b e = rw e refl

-- Once the ring buffer is full, with 128 characters, it stays as it is whatever is put and read, and
-- every read returns no character.
full_forever :
    (l : List Use) (b : Buffer)
    → IsRing b
    → b.count ≡ keyboard_buf_size
    → ((uses l b).1 ≡ b) × AllEmpty (uses l b).0
unfolding uses
full_forever [] b r e = (refl, tt)
full_forever (put c ∷ l) b r e =
    subst (λ b'. ((uses l b').1 ≡ b) × AllEmpty (uses l b').0) (sym (full-put c b e))
      (full_forever l b r e)
full_forever (read size ∷ l) b r e =
    let (s, a) = full_forever l b r e in
    subst (λ r. ((uses l r.1).1 ≡ b) × ((r.0 ≡ []) × AllEmpty (uses l r.1).0))
      (sym (full-read size b (ground (arith, r.tail_at, r.head_in, e)))) (s, (refl, a))
