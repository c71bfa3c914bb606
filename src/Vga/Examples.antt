-- ===== src/Vga/Examples.antt =====
-- Runs of src/srv/video/vga.c, and its theorems there.
use fat.Prelude.{ℕ, ◌≡◌, [], ◌∷◌, arith}
use fat.Vga.{Vga, get_cursor, vga_write}
use fat.Vga.Text.{Written, vga_write-Written}
use fat.Vga.Screen.{OnScreen, vga_write-OnScreen}

-- A screen full of blanks, with the cursor at `high * 256 + low`.
abbrev blank : ℕ → ℕ → Vga
blank high low = record { cells = λ i. 0x0f20; cursor_high = high; cursor_low = low }

vga_write-Written_example :
    ((vga_write (72 ∷ 105 ∷ []) 15 (blank 1 4)).0 ≡ 2)
    × Written 15 (72 ∷ 105 ∷ []) 260 (blank 1 4) (vga_write (72 ∷ 105 ∷ []) 15 (blank 1 4)).1
unfolding get_cursor
vga_write-Written_example =
    vga_write-Written 15 (72 ∷ 105 ∷ []) (blank 1 4) (omega arith, (omega arith, tt)) (omega arith)

vga_write-OnScreen_example :
    OnScreen (blank 7 207) (vga_write (10 ∷ 72 ∷ 9 ∷ []) 15 (blank 7 207)).1
unfolding get_cursor
vga_write-OnScreen_example =
    vga_write-OnScreen 15 (10 ∷ 72 ∷ 9 ∷ []) (blank 7 207)
      (omega arith, (omega arith, (omega arith, tt))) (omega arith)
