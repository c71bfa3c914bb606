-- ===== src/Shell/Line.antt =====
-- `getline`, and `parse_cmd` of the line that it leaves.
use fat.Prelude.{
  length, Option, none, some, ◌<◌, ◌⊎◌, ℕ, zero, suc, ◌+◌, ◌≤◌, ◌≡◌, ◌≢◌, true, List, [], ◌∷◌, ◌++◌,
  ◌==◌, ltb, if◌then◌else◌, arith, sym, ap, ◌∙◌, Bool-cases, inl, inr, subst,
}
use fat.Shell.{
  buffer_size, Editor, getline_loop, getline, store, tab, backspace, newline, parse_cmd,
}
use fat.Shell.Edited.{
  drop_last, edited, longest, characters-store, length-characters, Looped, getline_loop-Looped,
}
use fat.Shell.Words.{Parsed, characters, words, IsLine, parse_cmd-words}

abbrev pub NonZero : List ℕ → Type 0
NonZero [] = Unit {0}
NonZero (c ∷ l) = (c ≢ 0) × NonZero l

NonZero-append : (l : List ℕ) (c : ℕ) → NonZero l → c ≢ 0 → NonZero (l ++ c ∷ [])
NonZero-append [] c a n = (n, tt)
NonZero-append (x ∷ l) c a n = (a.0, NonZero-append l c a.1 n)

NonZero-drop_last : (l : List ℕ) → NonZero l → NonZero (drop_last l)
NonZero-drop_last [] a = tt
NonZero-drop_last (x ∷ []) a = tt
NonZero-drop_last (x ∷ y ∷ l) a = (a.0, NonZero-drop_last (y ∷ l) a.1)

NonZero-edited : (line cs : List ℕ) → NonZero line → NonZero cs → NonZero (edited line cs)
NonZero-edited line [] a b = a
NonZero-edited line (c ∷ cs) a b = elim (Bool-cases (c == tab)) [
  | inl t ↦ rw t (NonZero-edited line cs a b.1)
  | inr t ↦ rw t (elim (Bool-cases (c == backspace)) [
    | inl k ↦ rw k (NonZero-edited (drop_last line) cs (NonZero-drop_last line a) b.1)
    | inr k ↦ rw k (elim (Bool-cases (c == newline)) [
      | inl n ↦ rw n (NonZero-append line c a b.0)
      | inr n ↦ rw n (NonZero-edited (line ++ c ∷ []) cs (NonZero-append line c a b.0) b.1)
    ])
  ])
]

IsLine-NonZero :
    (n i : ℕ) (buf : ℕ → ℕ) → NonZero (characters n i buf) → buf (i + n) ≡ 0 → IsLine n i buf
IsLine-NonZero zero i buf a z = let here : i ≡ i + 0 = omega arith in ap buf here ∙ z
IsLine-NonZero (suc n) i buf a z =
    let shift : i + 1 + n ≡ i + suc n = omega arith in
    (a.0, IsLine-NonZero n (i + 1) buf a.1 (ap buf shift ∙ z))

-- The buffer is left where the line is longer than it, on the way or with the 0 at its end.
abbrev pub Overflows : List ℕ → Type 0
Overflows input = (buffer_size < longest [] input) ⊎ (buffer_size ≤ length (edited [] input))

-- The line that `getline` leaves in the buffer.
pub record HasLine (input : List ℕ) (e : Editor) : Type 0 where
  pub short_on_way : longest [] input ≤ buffer_size
  pub short : length (edited [] input) < buffer_size
  pub line : characters e.len 0 e.buf ≡ edited [] input
  pub ended : e.buf e.len ≡ 0
  pub argv : Parsed (e.len + 1) (words true (edited [] input)) (parse_cmd e.buf e.len)

abbrev pub Entered : List ℕ → Option Editor → Type 0
Entered input none = Overflows input
Entered input (some e) = HasLine input e

Looped-HasLine :
    (input : List ℕ) (e : Editor)
    → NonZero input
    → Looped [] input (some e)
    → ltb e.len buffer_size ≡ true
    → HasLine input (record e { buf = store e.len 0 e.buf })
Looped-HasLine input e a w f =
    let line : characters e.len 0 (store e.len 0 e.buf) ≡ edited [] input =
      characters-store e.len 0 e.len 0 e.buf (omega arith) ∙ w.1 in
    let ended : store e.len 0 e.buf e.len ≡ 0 = ground arith in
    let ended' : store e.len 0 e.buf (0 + e.len) ≡ 0 = ground arith in
    record {
      short_on_way = w.0;
      short = ground (arith, f, ap length w.1, length-characters e.len 0 e.buf);
      line = line;
      ended = ended;
      argv =
          subst (λ l. Parsed (e.len + 1) (words true l) (parse_cmd (store e.len 0 e.buf) e.len))
            line
            (parse_cmd-words e.len (store e.len 0 e.buf) (
              IsLine-NonZero e.len 0 (store e.len 0 e.buf)
                (subst NonZero (sym line) (NonZero-edited [] input tt a)) ended'));
    }

abbrev ended_line : Option Editor → Option Editor
ended_line none = none
ended_line (some e) =
    if ltb e.len buffer_size then some (record e { buf = store e.len 0 e.buf }) else none

ended_line-Entered :
    (input : List ℕ) (o : Option Editor)
    → NonZero input
    → Looped [] input o
    → Entered input (ended_line o)
ended_line-Entered input none a w = inl w
ended_line-Entered input (some e) a w = elim (Bool-cases (ltb e.len buffer_size)) [
  | inl f ↦ rw f (Looped-HasLine input e a w f)
  | inr f ↦ rw f (inr (ground (arith, f, ap length w.1, length-characters e.len 0 e.buf)))
]

-- `getline` leaves the edited line in the buffer, with a 0 at its end: tabs are left out, a backspace takes
-- the last character off if there is one, and the line ends after a newline or where the input ends. And
-- `parse_cmd` of this buffer points to the words of the edited line, where they are 32 at most, and otherwise
-- it writes behind `argv`. `getline` writes behind its buffer of 512 characters exactly where the line gets
-- longer than that on the way, or has no room for the 0 in the end. No character that is typed is 0.
pub getline-Entered :
    (input : List ℕ) (buf : ℕ → ℕ) → NonZero input → Entered input (getline input buf)
unfolding getline
getline-Entered input buf a =
    let e0 : Editor = record { len = 0; buf = buf; echoed = []; input = input } in
    ended_line-Entered input (getline_loop input e0) a (getline_loop-Looped input e0 (omega arith))
