-- ===== src/Keyboard/Ring.antt =====
-- The ring buffer of src/srv/keyboard/keyboard.c as a bounded queue.
use mathlib.Core.Path.{ap₂}
use fat.Prelude.{
  ℕ, zero, suc, ◌+◌, ◌-◌, ◌%◌, ◌<◌, ◌≤◌, ◌≡◌, ◌≢◌, true, false, List, [], ◌∷◌, ◌++◌, ◌==◌, leb,
  if◌then◌else◌, arith, refl, ap, sym, ◌∙◌, length, take, drop, Bool-cases, inl, inr,
}
use fat.Keyboard.{Buffer, keyboard_buf_size, put_char, next, read_loop, read_char}

-- The `n` characters from the slot `h` on.
abbrev pub slots : ℕ → ℕ → (ℕ → ℕ) → List ℕ
slots zero h f = []
slots (suc n) h f = f h ∷ slots n ((h + 1) % keyboard_buf_size) f

-- The characters that wait, oldest first.
abbrev pub contents : Buffer → List ℕ
contents b = slots b.count b.head b.buf

pub record IsRing (b : Buffer) : Type 0 where
  pub head_in : b.head < keyboard_buf_size
  pub tail_at : b.tail ≡ (b.head + b.count) % keyboard_buf_size
  pub fits : b.count ≤ keyboard_buf_size

pub length-slots : (n h : ℕ) (f : ℕ → ℕ) → length (slots n h f) ≡ n
length-slots zero h f = refl
length-slots (suc n) h f = ap suc (length-slots n _ f)

slots-snoc :
    (n h : ℕ) (f : ℕ → ℕ) → h < 128 → slots (suc n) h f ≡ slots n h f ++ f ((h + n) % 128) ∷ []
slots-snoc zero h f l = ap (λ i. f i ∷ []) (omega arith)
slots-snoc (suc n) h f l =
    ap (λ r. f h ∷ r)
      (slots-snoc n ((h + 1) % 128) f (omega arith)
        ∙ ap (λ i. slots n ((h + 1) % 128) f ++ f i ∷ []) (omega arith))

slots-same :
    (n h : ℕ) (f g : ℕ → ℕ)
    → h < 128
    → ((i : ℕ) → i < n → g ((h + i) % 128) ≡ f ((h + i) % 128))
    → slots n h g ≡ slots n h f
slots-same zero h f g l s = refl
slots-same (suc n) h f g l s =
    ap₂ (λ c r. c ∷ r) (ap g at_head ∙ s 0 (omega arith) ∙ ap f (sym at_head))
      (slots-same n ((h + 1) % 128) f g (omega arith)
        (λ i j. ap g (along i) ∙ s (suc i) (omega arith) ∙ ap f (sym (along i))))
  where
    at_head : h ≡ (h + 0) % 128
    at_head = omega arith

    along : (i : ℕ) → ((h + 1) % 128 + i) % 128 ≡ (h + suc i) % 128
    along i = omega arith

module _ (c : ℕ) (b : Buffer) (r : IsRing b) where
  pub put_char-IsRing : IsRing (put_char c b)
  unfolding put_char
  put_char-IsRing = elim (Bool-cases (leb keyboard_buf_size b.count)) [
    | inl t ↦ rw t r
    | inr f ↦ rw f (record {
      head_in = r.head_in;
      tail_at = omega (arith, r.tail_at);
      fits = ground (arith, f);
    })
  ]

  stored :
      b.count < 128
      → slots (suc b.count) b.head (λ i. if i == b.tail then c else b.buf i) ≡ contents b ++ c ∷ []
  stored l =
      slots-snoc b.count b.head (λ i. if i == b.tail then c else b.buf i) r.head_in
      ∙ ap₂ (λ l x. l ++ x ∷ [])
          (slots-same b.count b.head b.buf (λ i. if i == b.tail then c else b.buf i) r.head_in
            (λ i j. ground (arith, elsewhere i j)))
          (ground (arith, r.tail_at))
    where
      elsewhere : (i : ℕ) → i < b.count → (b.head + i) % 128 ≢ b.tail
      elsewhere i j e = omega (arith, r.tail_at, r.head_in, l, j, e)

  pub put_char-contents :
      contents (put_char c b)
      ≡ (if leb keyboard_buf_size b.count then contents b else contents b ++ c ∷ [])
  unfolding put_char
  put_char-contents = elim (Bool-cases (leb keyboard_buf_size b.count)) [
    | inl t ↦ rw t refl
    | inr f ↦ rw f (
        ap (λ n. slots n b.head (λ i. if i == b.tail then c else b.buf i)) one_more
        ∙ stored (ground (arith, f)))
  ]
    where
      one_more : b.count + 1 ≡ suc b.count
      one_more = omega arith

module _ (b : Buffer) (r : IsRing b) where
  next-IsRing : 0 < b.count → IsRing (next b)
  unfolding next
  next-IsRing p = record {
    head_in = omega arith;
    tail_at = r.tail_at ∙ omega (arith, p);
    fits = omega (arith, r.fits);
  }

-- What `read_loop` returned, of a queue with the contents `l`.
pub record Read (n : ℕ) (b : Buffer) (r : List ℕ × Buffer) : Type 0 where
  pub chars : r.0 ≡ take n (contents b)
  pub rest : contents r.1 ≡ drop n (contents b)
  pub is_ring : IsRing r.1

read_loop-Read :
    (n : ℕ) (b : Buffer) → IsRing b → b.count < keyboard_buf_size → Read n b (read_loop n b)
unfolding read_loop next
read_loop-Read zero b r c = record { chars = refl; rest = refl; is_ring = r }
read_loop-Read (suc n) b r c = step (read_loop-Read n (next b)) b.count refl
  where
    step :
        (IsRing (next b) → (b.count - 1 < 128) → Read n (next b) (read_loop n (next b)))
        → (m : ℕ) → b.count ≡ m
        → Read (suc n) b (read_loop (suc n) b)
    step more zero e =
        let same : (b.head == b.tail) ≡ true = ground (arith, r.tail_at, r.head_in, e) in
        let gone : contents b ≡ [] = ap (λ m. slots m b.head b.buf) e in
        rw same (record {
          chars = sym (ap (take (suc n)) gone);
          rest = gone ∙ sym (ap (drop (suc n)) gone);
          is_ring = r;
        })
    step more (suc m) e =
        let other : (b.head == b.tail) ≡ false = ground (arith, r.tail_at, r.head_in, c, e) in
        let later = more (next-IsRing b r (omega (arith, e))) (omega (arith, c)) in
        let front : contents b ≡ b.buf b.head ∷ contents (next b) =
          ap (λ m. slots m b.head b.buf) e
          ∙ ap (λ m. b.buf b.head ∷ slots m ((b.head + 1) % 128) b.buf) (omega (arith, e)) in
        rw other (record {
          chars = ap (λ l. b.buf b.head ∷ l) later.chars ∙ sym (ap (take (suc n)) front);
          rest = later.rest ∙ sym (ap (drop (suc n)) front);
          is_ring = later.is_ring;
        })

-- What `put_char` and `read_char` do to the queue of characters of a well-formed ring buffer: a full
-- one discards the character, any other appends it; a read from one that is not full takes the oldest
-- `size + 1` characters, or all if there are fewer. Both keep the buffer well formed.
pub queue_refines :
    (b : Buffer)
    → IsRing b
    → ((c : ℕ)
        → IsRing (put_char c b)
          × (contents (put_char c b) ≡ (
              if leb keyboard_buf_size (length (contents b))
              then contents b
              else contents b ++ c ∷ [])))
      × ((size : ℕ)
          → length (contents b) < keyboard_buf_size
          → IsRing (read_char size b).1
            × ((read_char size b).0 ≡ take (size + 1) (contents b))
            × (contents (read_char size b).1 ≡ drop (size + 1) (contents b)))
unfolding read_char
queue_refines b r = (
  λ c. (put_char-IsRing c b r, rw (length-slots b.count b.head b.buf) (put_char-contents c b r)),
  λ size l.
      let d = read_loop-Read (size + 1) b r (rw (length-slots b.count b.head b.buf) at l) in
      (d.is_ring, d.chars, d.rest),
)
