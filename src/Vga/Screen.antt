-- ===== src/Vga/Screen.antt =====
-- What `vga_write` of src/srv/video/vga.c does at the borders of the screen.
use fat.Prelude.{
  ℕ, zero, suc, ◌*◌, ◌%◌, ◌^◌, ◌<◌, ◌≤◌, ◌≡◌, ◌≢◌, true, false, List, [], ◌∷◌, ◌==◌, ltb, leb,
  arith, refl, sym, subst, ◌∙◌, dec_lt, Bool-cases, inl, inr,
}
use fat.Vga.{
  Vga, row, col, get_cursor, set_cursor, write_char, cell, draw, settle, write_loop, clean_cells,
  screen_clean, is_clear, vga_write, screen_curl, div_col,
}
use fat.Vga.Text.{get_cursor-set_cursor, settled}

abbrev NoBackspace : List ℕ → Type 0
NoBackspace [] = Unit {0}
NoBackspace (c ∷ buf) = (c ≢ 8) × NoBackspace buf

-- The cells from 2000 on are as in `s`, and the cursor is on the screen.
pub record OnScreen (s s' : Vga) : Type 0 where
  pub beyond : (i : ℕ) → 2000 ≤ i → s'.cells i ≡ s.cells i
  pub cursor : get_cursor s' < 2000

module _ (type c cur : ℕ) (s : Vga) (l : cur < 2000) (n : c ≢ 8) where
  draw-cursor : (draw c type (s, cur)).1 < 2080
  unfolding draw div_col
  draw-cursor = ground (arith, l, n)

  draw-beyond : (i : ℕ) → 2000 ≤ i → (draw c type (s, cur)).0.cells i ≡ s.cells i
  unfolding draw write_char
  draw-beyond i h = ground (arith, l, n, h)

scrolled :
    (cur : ℕ) (s : Vga)
    → 2000 ≤ cur
    → cur < 2080
    → settle (s, cur) ≡ (set_cursor 1920 (screen_curl 1 s), 1920)
unfolding settle
scrolled cur s h l =
    let f : leb 2000 cur ≡ true = ground (arith, h) in
    let p : ltb cur (2 ^ 31) ≡ true = ground (arith, l) in rw p (rw f refl)

-- The cursor is on the screen, and the registers hold it.
abbrev IsSettled : Vga × ℕ → Type 0
IsSettled r = (r.1 < 2000) × (get_cursor r.0 ≡ r.1)

module _ (cur : ℕ) (s : Vga) (l : cur < 2080) where
  settle-IsSettled : IsSettled (settle (s, cur))
  settle-IsSettled = elim (dec_lt cur 2000) [
    | yes h ↦
        subst IsSettled (sym (settled cur s h)) (h, get_cursor-set_cursor cur s (omega (arith, h)))
    | no h ↦
        subst IsSettled (sym (scrolled cur s (omega (arith, h)) l))
          (omega arith, get_cursor-set_cursor 1920 (screen_curl 1 s) (omega arith))
  ]

  settle-beyond : (i : ℕ) → 2000 ≤ i → (settle (s, cur)).0.cells i ≡ s.cells i
  unfolding settle set_cursor screen_curl
  settle-beyond i h = ground (arith, l, h)

write_loop-OnScreen :
    (type : ℕ) (buf : List ℕ) (s : Vga) (r : Vga × ℕ)
    → NoBackspace buf
    → IsSettled r
    → ((i : ℕ) → 2000 ≤ i → r.0.cells i ≡ s.cells i)
    → OnScreen s (write_loop type buf r).0
unfolding write_loop
write_loop-OnScreen type [] s r n (l, g) b = record { beyond = b; cursor = omega (arith, g, l) }
write_loop-OnScreen type (c ∷ buf) s (s1, cur) n (l, g) b =
    let d = draw c type (s1, cur) in
    let e = draw-cursor type c cur s1 l n.0 in
    write_loop-OnScreen type buf s (settle d) n.1 (settle-IsSettled d.1 d.0 e)
      (λ i h. settle-beyond d.1 d.0 e i h ∙ draw-beyond type c cur s1 l n.0 i h ∙ b i h)

clean_cells-beyond :
    (n i : ℕ) (s : Vga) → n ≤ i → n < 2 ^ 16 → (clean_cells n s).cells i ≡ s.cells i
unfolding clean_cells write_char
clean_cells-beyond zero i s l m = refl
clean_cells-beyond (suc n) i s l m =
    let off : (i == n % 2 ^ 16) ≡ false = ground (arith, l, m) in
    rw off (clean_cells-beyond n i s (omega (arith, l)) (omega (arith, m)))

screen_clean-cursor : (s : Vga) → get_cursor (screen_clean s) ≡ 0
unfolding screen_clean
screen_clean-cursor s = get_cursor-set_cursor 0 (clean_cells (row * col) s) (omega arith)

screen_clean-OnScreen : (s : Vga) → OnScreen s (screen_clean s)
unfolding screen_clean set_cursor
screen_clean-OnScreen s = record {
  beyond = λ i l. clean_cells-beyond 2000 i s l (omega arith);
  cursor = omega (arith, screen_clean-cursor s);
}

-- `vga_write` of a text without backspaces, from a cursor on the screen, changes no cell behind the
-- screen and leaves the cursor on the screen, however often it scrolls.
pub vga_write-OnScreen :
    (type : ℕ) (buf : List ℕ) (s : Vga)
    → NoBackspace buf
    → get_cursor s < 2000
    → OnScreen s (vga_write buf type s).1
unfolding vga_write
vga_write-OnScreen type buf s n l = elim (Bool-cases (is_clear buf)) [
  | inl t ↦ rw (vga_write, t) (screen_clean-OnScreen s)
  | inr f ↦
      rw (vga_write, f) (write_loop-OnScreen type buf s (s, get_cursor s) n (l, refl) (λ i h. refl))
]

at_start :
    (type : ℕ) (s : Vga)
    → ((write_loop type (8 ∷ []) (s, 0)).0.cells 65535 ≡ cell 0x20 type)
      × (get_cursor (write_loop type (8 ∷ []) (s, 0)).0 ≡ 65535)
unfolding write_loop draw settle set_cursor write_char get_cursor
at_start type s = (refl, refl)

-- A backspace at the start of the screen writes a blank to the cell 65535, which is not on the
-- screen, and leaves the cursor there.
backspace_leaves :
    (type : ℕ) (s : Vga)
    → get_cursor s ≡ 0
    → ((vga_write (8 ∷ []) type s).1.cells 65535 ≡ cell 0x20 type)
      × (get_cursor (vga_write (8 ∷ []) type s).1 ≡ 65535)
unfolding vga_write is_clear
backspace_leaves type s g =
    subst
      (λ cur.
        ((write_loop type (8 ∷ []) (s, cur)).0.cells 65535 ≡ cell 0x20 type)
        × (get_cursor (write_loop type (8 ∷ []) (s, cur)).0 ≡ 65535))
      (sym g) (at_start type s)
