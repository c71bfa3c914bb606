-- ===== src/Keyboard/Typed.antt =====
-- What is typed, from the scan codes of src/srv/keyboard/keyboard.c.
use mathlib.Core.Path.{ap₂}
use fat.Prelude.{
  ℕ, ℕ_discrete, ◌+◌, ◌*◌, ◌%◌, ◌<◌, ◌≤◌, ◌≡◌, ◌≢◌, Bool, true, false, append-nil, append_assoc,
  length-append, List, [], ◌∷◌, ◌++◌, ◌==◌, ltb, leb, bit_or, if◌then◌else◌, arith, refl, ap, sym,
  subst, ◌∙◌, length, Bool-cases, inl, inr,
}
use fat.Keyboard.{
  Buffer, keyboard_buf_size, Keyboard, extend, keymap, put_key, key_code, annlysis_scancode,
}
use fat.Keyboard.Ring.{length-slots, IsRing, contents, put_char-IsRing, put_char-contents}

-- The keyboard after some codes, which come with the interrupts.
pub scan : List ℕ → Keyboard → Keyboard
scan [] k = k
scan (code ∷ codes) k = scan codes (annlysis_scancode code k)

abbrev pub AllBytes : List ℕ → Type 0
AllBytes [] = Unit {0}
AllBytes (code ∷ codes) = (code < 256) × AllBytes codes

abbrev is_modifier : ℕ → Bool
is_modifier c =
    if c == 0x2a then true else if c == 0x36 then true else if c == 0x1d then true else c == 0x38

-- What a press types: nothing for a modifier, a release, and a key without a character.
unfoldable pub typed_by : ℕ → ℕ → List ℕ
typed_by shift code =
    if leb 0x80 code
    then []
    else if is_modifier code
    then []
    else if keymap (code * 2 + shift) == 0
    then []
    else keymap (code * 2 + shift) ∷ []

-- A shift key that is down or up, after a code.
abbrev pub held : ℕ → ℕ → ℕ → ℕ
held key code before = if code == key then 1 else if code == key + 0x80 then 0 else before

-- The characters that codes mean, with the shift keys as they are before.
unfoldable pub typed : ℕ → ℕ → List ℕ → List ℕ
unfolding typed_by
typed l r [] = []
typed l r (code ∷ codes) =
    typed_by (bit_or l r) code ++ typed (held 0x2a code l) (held 0x36 code r) codes

module _ (code : ℕ) (k : Keyboard) (p : k.pre_code < 256) where
  never : (c : ℕ) → 0xe0 ≤ c → c < 256 → (extend k.pre_code == c) ≡ false
  unfolding extend
  never c l h = ground arith

  plain : code ≢ 0xe1 → code ≢ 0xe0 → annlysis_scancode code k ≡ key_code code k
  unfolding annlysis_scancode
  plain n m =
      let e1 : (code == 0xe1) ≡ false = ground (arith, n) in
      let e0 : (code == 0xe0) ≡ false = ground (arith, m) in
      rw e1 (
        rw e0 (
          rw (never 0xe1 (omega arith) (omega arith))
            (rw (never 0xe0 (omega arith) (omega arith)) refl)))

module _ (code : ℕ) (k : Keyboard) (b : code < 256) where
  key_code-pre_code : (key_code code k).pre_code ≡ k.pre_code
  unfolding key_code
  key_code-pre_code = ground arith

  key_code-right : ((key_code code k).ctrl_r ≡ k.ctrl_r) × ((key_code code k).alt_r ≡ k.alt_r)
  unfolding key_code
  key_code-right = ground arith

  key_code-shift_l : (key_code code k).shift_l ≡ held 0x2a code k.shift_l
  unfolding key_code
  key_code-shift_l = ground arith

  key_code-shift_r : (key_code code k).shift_r ≡ held 0x36 code k.shift_r
  unfolding key_code
  key_code-shift_r = ground arith

  key_code-kb_buf : (key_code code k).kb_buf ≡ (
      if leb 0x80 code
      then k.kb_buf
      else if is_modifier code
      then k.kb_buf
      else put_key (keymap (code * 2 + bit_or k.shift_l k.shift_r)) k.kb_buf)
  unfolding key_code
  key_code-kb_buf = elim (Bool-cases (leb 0x80 code)) [
    | inl t ↦ ground (arith, t)
    | inr f ↦
        let small : code % 0x80 ≡ code = ground (arith, f) in
        let down : ltb code 0x80 ≡ true = ground (arith, f) in rw small (ground (arith, f, down))
  ]

module _ (key : ℕ) (b : Buffer) (r : IsRing b) where
  abbrev printed : List ℕ
  printed = if key == 0 then [] else key ∷ []

  put_key-IsRing : IsRing (put_key key b)
  unfolding put_key
  put_key-IsRing = elim (Bool-cases (key == 0)) [
    | inl t ↦ rw t r
    | inr f ↦ rw f (put_char-IsRing key b r)
  ]

  put_key-contents :
      b.count + length printed ≤ keyboard_buf_size
      → contents (put_key key b) ≡ contents b ++ printed
  unfolding put_key
  put_key-contents h = elim (Bool-cases (key == 0)) [
    | inl t ↦ rw t (sym (append-nil (contents b)))
    | inr f ↦
        let room : leb keyboard_buf_size b.count ≡ false = ground (arith, h, f) in
        rw f (put_char-contents key b r ∙ rw room refl)
  ]

-- What a code does, apart from what it types.
pub record Scanned (code : ℕ) (k k' : Keyboard) : Type 0 where
  pub byte : k'.pre_code < 256
  pub left : k'.shift_l ≡ held 0x2a code k.shift_l
  pub right : k'.shift_r ≡ held 0x36 code k.shift_r
  pub ctrl : k'.ctrl_r ≡ k.ctrl_r
  pub alt : k'.alt_r ≡ k.alt_r
  pub kb_buf : k'.kb_buf ≡ (
      if leb 0x80 code
      then k.kb_buf
      else if is_modifier code
      then k.kb_buf
      else put_key (keymap (code * 2 + bit_or k.shift_l k.shift_r)) k.kb_buf)

pub annlysis_scancode-Scanned :
    (code : ℕ) (k : Keyboard)
    → code < 256
    → k.pre_code < 256
    → Scanned code k (annlysis_scancode code k)
unfolding annlysis_scancode
annlysis_scancode-Scanned code k b p = elim (ℕ_discrete code 0xe1) [
  | yes e ↦ rw e (record {
    byte = omega arith;
    left = refl;
    right = refl;
    ctrl = refl;
    alt = refl;
    kb_buf = refl;
  })
  | no n ↦ elim (ℕ_discrete code 0xe0) [
    | yes e ↦ rw e (record {
      byte = omega arith;
      left = refl;
      right = refl;
      ctrl = refl;
      alt = refl;
      kb_buf = refl;
    })
    | no m ↦ subst (Scanned code k) (sym (plain code k p n m)) (record {
      byte = rw (key_code-pre_code code k b) p;
      left = key_code-shift_l code k b;
      right = key_code-shift_r code k b;
      ctrl = (key_code-right code k b).0;
      alt = (key_code-right code k b).1;
      kb_buf = key_code-kb_buf code k b;
    })
  ]
]

-- One code, while there is room for what it types.
module _ (code : ℕ) (k k' : Keyboard) (s : Scanned code k k') (r : IsRing k.kb_buf) where
  pub scanned-IsRing : IsRing k'.kb_buf
  scanned-IsRing = rw s.kb_buf (elim (Bool-cases (leb 0x80 code)) [
    | inl t ↦ rw t r
    | inr f ↦ rw f (elim (Bool-cases (is_modifier code)) [
      | inl t ↦ rw t r
      | inr g ↦ rw g (put_key-IsRing _ k.kb_buf r)
    ])
  ])

  pub scanned-contents :
      k.kb_buf.count + length (typed_by (bit_or k.shift_l k.shift_r) code) ≤ keyboard_buf_size
      → contents k'.kb_buf ≡ contents k.kb_buf ++ typed_by (bit_or k.shift_l k.shift_r) code
  unfolding typed_by
  scanned-contents h = rw s.kb_buf (elim (Bool-cases (leb 0x80 code)) [
    | inl t ↦ rw t (sym (append-nil (contents k.kb_buf)))
    | inr f ↦ rw f (elim (Bool-cases (is_modifier code)) [
      | inl t ↦ rw t (sym (append-nil (contents k.kb_buf)))
      | inr g ↦ rw g (put_key-contents _ k.kb_buf r (rw (f, g) at h))
    ])
  ])

room_now : {a c x : ℕ} (n m : ℕ) → a ≡ c → x ≡ n + m → a + x ≤ 128 → c + n ≤ 128
room_now n m e f h = omega (arith, e, f, h)

room_later : {b m x y : ℕ} (a n : ℕ) → b ≡ a + n → y ≡ m → x ≡ n + m → a + x ≤ 128 → b + y ≤ 128
room_later a n e g f h = omega (arith, e, g, f, h)

-- While the ring buffer has room, the codes put into it, in order, the characters that they mean, by
-- an independent reading of them: a press of a key types the character of its row, of the second
-- column if a shift key is down; modifiers and releases type nothing. The prefixes 0xe0 and 0xe1 are
-- ignored, and do not change what the code after them means.
pub scan-typed :
    (codes : List ℕ) (k : Keyboard)
    → AllBytes codes
    → k.pre_code < 256
    → IsRing k.kb_buf
    → length (contents k.kb_buf) + length (typed k.shift_l k.shift_r codes) ≤ keyboard_buf_size
    → contents (scan codes k).kb_buf ≡ contents k.kb_buf ++ typed k.shift_l k.shift_r codes
unfolding scan typed
scan-typed [] k b p r h = sym (append-nil (contents k.kb_buf))
scan-typed (code ∷ codes) k b p r h =
    let k' = annlysis_scancode code k in
    let s = annlysis_scancode-Scanned code k b.0 p in
    let now = typed_by (bit_or k.shift_l k.shift_r) code in
    let later = typed (held 0x2a code k.shift_l) (held 0x36 code k.shift_r) codes in
    let same : typed k'.shift_l k'.shift_r codes ≡ later =
      ap₂ (λ x y. typed x y codes) s.left s.right in
    let total = length-append now later in
    let h' : length (contents k.kb_buf) + length (now ++ later) ≤ keyboard_buf_size = h in
    let c = scanned-contents code k k' s r (
      room_now (length now) (length later) (length-slots k.kb_buf.count k.kb_buf.head k.kb_buf.buf)
        total h') in
    let all = scan-typed codes k' b.1 s.byte (scanned-IsRing code k k' s r) (
      room_later (length (contents k.kb_buf)) (length now)
        (ap length c ∙ length-append (contents k.kb_buf) now) (ap length same) total h') in
    all ∙ ap₂ (λ a b. a ++ b) c same ∙ append_assoc (contents k.kb_buf) now later

-- The right control and alt keys are never seen: no sequence of codes changes their flags.
scan-ignores_right :
    (codes : List ℕ) (k : Keyboard)
    → AllBytes codes
    → k.pre_code < 256
    → ((scan codes k).ctrl_r ≡ k.ctrl_r) × ((scan codes k).alt_r ≡ k.alt_r)
unfolding scan
scan-ignores_right [] k b p = (refl, refl)
scan-ignores_right (code ∷ codes) k b p =
    let s = annlysis_scancode-Scanned code k b.0 p in
    let (c, a) = scan-ignores_right codes (annlysis_scancode code k) b.1 s.byte in
    (c ∙ s.ctrl, a ∙ s.alt)
