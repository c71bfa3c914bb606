-- ===== src/Shell/Examples.antt =====
-- A typed line.
use fat.Prelude.{ℕ, ◌≡◌, Option, none, some, List, [], ◌∷◌, arith, refl}
use fat.Shell.{Editor, getline, getline_loop, edit}
use fat.Shell.Line.{Entered, getline-Entered}

-- "lx", a backspace, "s /" and a newline.
abbrev typed_line : List ℕ
typed_line = 108 ∷ 120 ∷ 8 ∷ 115 ∷ 32 ∷ 47 ∷ 10 ∷ []

-- The length of the line, if there is one.
abbrev line_length : Option Editor → ℕ
line_length none = 0
line_length (some e) = e.len

getline_run : line_length (getline typed_line (λ i. 0)) ≡ 5
unfolding getline getline_loop edit
getline_run = refl

getline-Entered_example : Entered typed_line (getline typed_line (λ i. 0))
getline-Entered_example =
    getline-Entered typed_line (λ i. 0)
      (
        λ e. absurd (omega (arith, e)),
        (
          λ e. absurd (omega (arith, e)),
          (
            λ e. absurd (omega (arith, e)),
            (
              λ e. absurd (omega (arith, e)),
              (
                λ e. absurd (omega (arith, e)),
                (λ e. absurd (omega (arith, e)), (λ e. absurd (omega (arith, e)), tt)),
              ),
            ),
          ),
        ),
      )
