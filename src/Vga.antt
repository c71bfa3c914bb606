-- ===== src/Vga.antt =====
-- src/srv/video/vga.c: the console. The cells of 16 bits from the start of the video memory on are a
-- function; `cur` is the 32 bits of an `int`.
pub mod Text
pub mod Screen
mod Examples
use fat.Prelude.{
  ℕ, zero, suc, ◌+◌, ◌-◌, ◌*◌, ◌/◌, ◌%◌, ◌^◌, Bool, true, false, List, [], ◌∷◌, ◌==◌, ◌&&◌, ltb,
  leb, if◌then◌else◌, length,
}

abbrev pub row : ℕ
row = 25

abbrev pub col : ℕ
col = 80

-- `cursor_high` and `cursor_low` are the registers 0x0e and 0x0f of the controller.
pub record Vga : Type 0 where
  pub cells : ℕ → ℕ
  pub cursor_high : ℕ
  pub cursor_low : ℕ

-- The two bytes do not overlap, so that their `|` is a sum.
pub get_cursor : Vga → ℕ
get_cursor s = s.cursor_high * 2 ^ 8 + s.cursor_low

-- The argument is cut to 16 bits.
pub set_cursor : ℕ → Vga → Vga
set_cursor cur s = record s {
  cursor_high = cur % 2 ^ 16 / 2 ^ 8 % 2 ^ 8;
  cursor_low = cur % 2 ^ 16 % 2 ^ 8;
}

-- The copy goes forward, to lower addresses; then the last row is cleared.
pub screen_curl : ℕ → Vga → Vga
screen_curl line s = if ltb row line then s else record s {
  cells = λ i.
      if leb (col * 24) i && ltb i (col * 25)
      then 0
      else if ltb i (col * (row - line))
      then s.cells (i + col * line)
      else s.cells i;
}

-- The 16 bits of a character: a `char` from 128 on is negative, and sets all bits of the colour.
pub cell : ℕ → ℕ → ℕ
cell c type = if ltb c (2 ^ 7) then type * 2 ^ 8 + c else (2 ^ 8 - 1) * 2 ^ 8 + c

pub write_char : ℕ → ℕ → ℕ → Vga → Vga
unfolding cell
write_char c type cur s = record s {
  cells = λ i. if i == cur % 2 ^ 16 then cell c type else s.cells i;
}

-- The loop of `screen_clean` up to `n`.
pub clean_cells : ℕ → Vga → Vga
unfolding write_char
clean_cells zero s = s
clean_cells (suc n) s = write_char 0x20 0x0f n (clean_cells n s)

pub screen_clean : Vga → Vga
unfolding clean_cells set_cursor
screen_clean s = set_cursor 0 (clean_cells (row * col) s)

-- `cur / COL` of an `int`, which rounds to 0.
pub div_col : ℕ → ℕ
div_col cur = if ltb cur (2 ^ 31) then cur / col else (2 ^ 32 - (2 ^ 32 - cur) / col) % 2 ^ 32

-- One character: the screen and `cur` after the `switch`.
pub draw : ℕ → ℕ → Vga × ℕ → Vga × ℕ
unfolding write_char div_col
draw c type (s, cur) =
    let back = (cur + (2 ^ 32 - 1)) % 2 ^ 32 in
    if c == 10
    then (s, (div_col cur + 1) * col % 2 ^ 32)
    else if c == 9
    then (s, (cur + 4) % 2 ^ 32)
    else if c == 8
    then (write_char 0x20 type back s, back)
    else (write_char c type cur s, (cur + 1) % 2 ^ 32)

-- The rest of the turn: below the last row the screen moves up.
pub settle : Vga × ℕ → Vga × ℕ
unfolding screen_curl set_cursor
settle (s, cur) =
    if ltb cur (2 ^ 31) && leb (row * col) cur
    then (set_cursor ((row - 1) * col) (screen_curl 1 s), (row - 1) * col)
    else (set_cursor cur s, cur)

pub write_loop : ℕ → List ℕ → Vga × ℕ → Vga × ℕ
unfolding draw settle
write_loop type [] r = r
write_loop type (c ∷ buf) r = write_loop type buf (settle (draw c type r))

-- A lone form feed clears the screen.
is_clear : List ℕ → Bool
is_clear (c ∷ []) = c == 0x0c
is_clear _ = false

-- It returns `n`, the length of the buffer.
pub vga_write : List ℕ → ℕ → Vga → ℕ × Vga
unfolding is_clear screen_clean write_loop get_cursor
vga_write buf type s =
    if is_clear buf
    then (length buf, screen_clean s)
    else (length buf, (write_loop type buf (s, get_cursor s)).0)
