-- ===== src/Keyboard/Reads.antt =====
-- The answers of src/srv/keyboard/keyboard.c to a read that finds nothing.
use mathlib.Core.Path.{ap₂}
use fat.Prelude.{
  ℕ, zero, suc, ◌+◌, ◌<◌, ◌≤◌, ◌≡◌, ◌≢◌, false, Option, none, some, List, [], ◌∷◌, ◌++◌, ◌==◌,
  arith, refl, ap, sym, subst, ◌∙◌, length, take, bit_or,
}
use fat.Keyboard.{keyboard_buf_size, Keyboard, annlysis_scancode, read_char, serve_read}
use fat.Keyboard.Ring.{slots, IsRing, contents, length-slots, queue_refines}
use fat.Keyboard.Typed.{
  AllBytes, annlysis_scancode-Scanned, scanned-IsRing, scanned-contents, typed_by, held,
}

-- The first code that types something, what it types, and the codes after it.
pub first_typed : ℕ → ℕ → List ℕ → Option (List ℕ × List ℕ)
first_typed l r [] = none
first_typed l r (code ∷ codes) =
    let later = first_typed (held 0x2a code l) (held 0x36 code r) codes in
    elim (typed_by (bit_or l r) code) [ [] ↦ later | c ∷ cs ↦ some (c ∷ cs, codes) ]

typed_by-short : (shift code : ℕ) → length (typed_by shift code) ≤ 1
unfolding typed_by
typed_by-short shift code = ground arith

take-all : (n : ℕ) (l : List ℕ) → length l ≤ n → take n l ≡ l
take-all zero [] h = refl
take-all zero (c ∷ l) h = absurd (omega (arith, h))
take-all (suc n) [] h = refl
take-all (suc n) (c ∷ l) h = ap (λ r. c ∷ r) (take-all n l (omega (arith, h)))

-- The answer to a read from a buffer that holds `l`, some characters and no more than are asked for.
answer_now :
    (size : ℕ) (codes l : List ℕ) (k : Keyboard)
    → contents k.kb_buf ≡ l
    → k.kb_buf.count ≢ 0
    → length l ≤ size + 1
    → IsRing k.kb_buf
    → length l < keyboard_buf_size
    → (k' : Keyboard) × (serve_read size codes k ≡ some (l, k', codes))
unfolding serve_read
answer_now size codes l k e n s r h =
    let z : (k.kb_buf.count == 0) ≡ false = ground (arith, n) in
    let k' = record k { kb_buf = (read_char size k.kb_buf).1 } in
    let got : (read_char size k.kb_buf).0 ≡ l =
      ((queue_refines k.kb_buf r).1 size (rw e h)).1
      ∙ ap (take (size + 1)) e
      ∙ take-all (size + 1) l s in
    (
      k',
      elim codes as (λ codes. serve_read size codes k ≡ some (l, k', codes)) [
        | [] ↦ rw z (ap (λ c. some (c, k', [])) got)
        | code ∷ codes ↦ rw z (ap (λ c. some (c, k', code ∷ codes)) got)
      ],
    )

-- What a read gave is what it should give.
abbrev pub IsAnswer : Option (List ℕ × Keyboard × List ℕ) → Option (List ℕ × List ℕ) → Type 0
IsAnswer got none = got ≡ none
IsAnswer got (some (l, rest)) = (k' : Keyboard) × (got ≡ some (l, k', rest))

still_waits :
    (size code : ℕ) (codes : List ℕ) (k : Keyboard)
    → k.kb_buf.count ≡ 0
    → serve_read size (code ∷ codes) k ≡ serve_read size codes (annlysis_scancode code k)
unfolding serve_read
still_waits size code codes k e = rw e refl

-- A read from an empty ring buffer, of any size, waits through the codes that type nothing, answers
-- with the character of the first one that types one, and leaves the codes after it. It has no
-- answer as long as no code types anything.
serve_read-waits :
    (size : ℕ) (codes : List ℕ) (k : Keyboard)
    → AllBytes codes
    → k.pre_code < 256
    → IsRing k.kb_buf
    → k.kb_buf.count ≡ 0
    → IsAnswer (serve_read size codes k) (first_typed k.shift_l k.shift_r codes)
unfolding serve_read first_typed
serve_read-waits size [] k b p r e = rw e refl
serve_read-waits size (code ∷ codes) k b p r e =
    let k' = annlysis_scancode code k in
    let s = annlysis_scancode-Scanned code k b.0 p in
    let r' = scanned-IsRing code k k' s r in
    let t = typed_by (bit_or k.shift_l k.shift_r) code in
    let short : length t ≤ 1 = typed_by-short (bit_or k.shift_l k.shift_r) code in
    let full : contents k'.kb_buf ≡ t =
      scanned-contents code k k' s r (omega (arith, e, short))
      ∙ ap (λ n. slots n k.kb_buf.head k.kb_buf.buf ++ t) e in
    let n : k'.kb_buf.count ≡ length t =
      sym (length-slots k'.kb_buf.count k'.kb_buf.head k'.kb_buf.buf) ∙ ap length full in
    rw (still_waits size code codes k e) (
      step size codes k' (held 0x2a code k.shift_l) (held 0x36 code k.shift_r) t short full n r'
        (λ z.
          subst (IsAnswer (serve_read size codes k'))
            (ap₂ (λ x y. first_typed x y codes) s.left s.right)
            (serve_read-waits size codes k' b.1 s.byte r' z)))
  where
    step :
        (size : ℕ) (codes : List ℕ) (k : Keyboard) (x y : ℕ) (t : List ℕ)
        → length t ≤ 1
        → contents k.kb_buf ≡ t
        → k.kb_buf.count ≡ length t
        → IsRing k.kb_buf
        → (k.kb_buf.count ≡ 0 → IsAnswer (serve_read size codes k) (first_typed x y codes))
        → IsAnswer
            (serve_read size codes k)
            (elim t [ [] ↦ first_typed x y codes | c ∷ cs ↦ some (c ∷ cs, codes) ])
    step size codes k x y [] l f n r more = more n
    step size codes k x y (c ∷ cs) l f n r more =
        answer_now size codes (c ∷ cs) k f (λ z. omega (arith, z, n)) (omega (arith, l)) r
          (omega (arith, l))
