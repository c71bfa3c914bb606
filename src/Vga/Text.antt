-- ===== src/Vga/Text.antt =====
-- Text that fits, on the console of src/srv/video/vga.c.
use mathlib.Core.Option.{some-injective}
use fat.Prelude.{
  ℕ, zero, suc, ◌+◌, ◌*◌, ◌%◌, ◌^◌, ◌<◌, ◌≤◌, ◌≡◌, ◌≢◌, true, false, none, some, List, [], ◌∷◌,
  ◌==◌, if◌then◌else◌, ltb, leb, arith, refl, ap, sym, subst, ◌∙◌, length, get_elem?, inl, inr, ◌⊎◌,
}
use fat.Vga.{
  Vga, get_cursor, set_cursor, write_char, cell, draw, settle, write_loop, is_clear, vga_write,
}

pub get_cursor-set_cursor : (cur : ℕ) (s : Vga) → cur < 2 ^ 16 → get_cursor (set_cursor cur s) ≡ cur
unfolding get_cursor set_cursor
get_cursor-set_cursor cur s l = omega (arith, l)

set_cursor-cells : (cur : ℕ) (s : Vga) (i : ℕ) → (set_cursor cur s).cells i ≡ s.cells i
unfolding set_cursor
set_cursor-cells cur s i = refl

-- No line feed, tab, backspace or form feed.
abbrev AllText : List ℕ → Type 0
AllText [] = Unit {0}
AllText (c ∷ buf) = ((c ≢ 8) × (c ≢ 9) × (c ≢ 10) × (c ≢ 12)) × AllText buf

-- A character in a colour of 8 bits; from 128 on, all bits of the colour are set.
abbrev pub coloured : ℕ → ℕ → ℕ
coloured c type = if ltb c 128 then type * 256 + c else 255 * 256 + c

-- `r` is the screen and cursor once `buf` stands from `cur` on.
pub record Written (type : ℕ) (buf : List ℕ) (cur : ℕ) (s s' : Vga) : Type 0 where
  pub text : (j c : ℕ) → get_elem? buf j ≡ some c → s'.cells (cur + j) ≡ coloured c type
  pub others : (i : ℕ) → (i < cur) ⊎ (cur + length buf ≤ i) → s'.cells i ≡ s.cells i
  pub cursor : get_cursor s' ≡ cur + length buf

pub settled : (cur : ℕ) (s : Vga) → cur < 2000 → settle (s, cur) ≡ (set_cursor cur s, cur)
unfolding settle
settled cur s l =
    let f : leb 2000 cur ≡ false = ground (arith, l) in
    let p : ltb cur (2 ^ 31) ≡ true = ground (arith, l) in rw p (rw f refl)

module _ (type c cur : ℕ) (s : Vga) (room : cur + 1 < 2000) where
  module _ (t : (c ≢ 8) × (c ≢ 9) × (c ≢ 10) × (c ≢ 12)) where
    drawn : draw c type (s, cur) ≡ (write_char c type cur s, cur + 1)
    unfolding draw
    drawn =
        let n : (c == 10) ≡ false = ground (arith, t) in
        let m : (c == 9) ≡ false = ground (arith, t) in
        let b : (c == 8) ≡ false = ground (arith, t) in
        let w : (cur + 1) % 2 ^ 32 ≡ cur + 1 = omega (arith, room) in
        rw (draw, n) (rw m (rw b (ap (λ p. (write_char c type cur s, p)) w)))

    one_turn :
        settle (draw c type (s, cur)) ≡ (set_cursor (cur + 1) (write_char c type cur s), cur + 1)
    one_turn = ap settle drawn ∙ settled (cur + 1) (write_char c type cur s) room

  written_here : (write_char c type cur s).cells cur ≡ coloured c type
  unfolding write_char cell
  written_here = ground (arith, room)

  written_elsewhere : (i : ℕ) → i ≢ cur → (write_char c type cur s).cells i ≡ s.cells i
  unfolding write_char
  written_elsewhere i n = ground (arith, room, n)

module _ (type c cur : ℕ) (buf : List ℕ) (s s' : Vga) (room : cur + 1 < 2000)
    (w : Written type buf (cur + 1) (set_cursor (cur + 1) (write_char c type cur s)) s') where
  first_stays : s'.cells cur ≡ coloured c type
  unfolding set_cursor write_char cell
  first_stays = w.others cur (inl (omega arith)) ∙ written_here type c cur s room

  text_after : (j d : ℕ) → get_elem? (c ∷ buf) j ≡ some d → s'.cells (cur + j) ≡ coloured d type
  text_after zero d e =
      ap s'.cells (the_same cur) ∙ first_stays ∙ ap (λ c. coloured c type) (some-injective _ _ e)
    where
      the_same : (n : ℕ) → n + 0 ≡ n
      the_same n = omega arith
  text_after (suc j) d e = ap s'.cells (along cur j) ∙ w.text j d e
    where
      along : (n j : ℕ) → n + suc j ≡ n + 1 + j
      along n j = omega arith

  after_first : Written type (c ∷ buf) cur s s'
  unfolding set_cursor write_char
  after_first = record {
    text = text_after;
    others = λ i o.
        w.others i (elim o [ inl l ↦ inl (omega (arith, l)) | inr l ↦ inr (omega (arith, l)) ])
        ∙ written_elsewhere type c cur s room i (λ e. elim o [
          | inl l ↦ absurd (omega (arith, e, l))
          | inr l ↦ absurd (omega (arith, e, l))
        ]);
    cursor = omega (arith, w.cursor);
  }

write_loop-Written :
    (type : ℕ) (buf : List ℕ) (cur : ℕ) (s : Vga)
    → AllText buf
    → cur + length buf < 2000
    → get_cursor s ≡ cur
    → Written type buf cur s (write_loop type buf (s, cur)).0
unfolding write_loop
write_loop-Written type [] cur s t l g = record {
  text = λ j c e.
      subst (λ o. elim o [ none ↦ Unit {0} | some q ↦ s.cells (cur + j) ≡ coloured c type ]) e tt;
  others = λ i o. refl;
  cursor = omega (arith, g);
}
write_loop-Written type (c ∷ buf) cur s t l g =
    let s1 = set_cursor (cur + 1) (write_char c type cur s) in
    let w =
      write_loop-Written type buf (cur + 1) s1 t.1 (omega (arith, l))
        (get_cursor-set_cursor (cur + 1) (write_char c type cur s) (omega (arith, l))) in
    subst (λ r. Written type (c ∷ buf) cur s (write_loop type buf r).0)
      (sym (one_turn type c cur s (omega (arith, l)) t.0))
      (after_first type c cur buf s _ (omega (arith, l)) w)

is_clear-text : (buf : List ℕ) → AllText buf → is_clear buf ≡ false
unfolding is_clear
is_clear-text [] t = refl
is_clear-text (c ∷ []) t = ground (arith, t.0)
is_clear-text (c ∷ d ∷ buf) t = refl

-- A text without line feeds, tabs, backspaces and form feeds that ends before the last cell of the
-- screen stands, after `vga_write`, in the cells from the cursor on: a character
-- below 128 in the given colour, and one from 128 on with all bits of the colour set. No other cell changes, the cursor is behind the text, and the result is its length.
pub vga_write-Written :
    (type : ℕ) (buf : List ℕ) (s : Vga)
    → AllText buf
    → get_cursor s + length buf < 2000
    → ((vga_write buf type s).0 ≡ length buf)
      × Written type buf (get_cursor s) s (vga_write buf type s).1
unfolding vga_write
vga_write-Written type buf s t l =
    rw (vga_write, is_clear-text buf t)
      (refl, write_loop-Written type buf (get_cursor s) s t l refl)
