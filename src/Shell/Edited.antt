-- ===== src/Shell/Edited.antt =====
-- The loop of `getline`: the line that is edited.
use fat.Prelude.{
  true, length, length-append, max, Option, none, some, ◌<◌, ℕ, zero, suc, ◌+◌, ◌-◌, ◌≤◌, ◌≡◌,
  false, List, [], ◌∷◌, ◌++◌, ◌==◌, ltb, if◌then◌else◌, arith, refl, sym, ap, ◌∙◌, Bool-cases, inl,
  inr, ==_iff, subst,
}
use fat.Shell.{buffer_size, Editor, edit, getline_loop, store, tab, backspace, newline}
use fat.Shell.Words.{characters}

abbrev pub drop_last : List ℕ → List ℕ
drop_last [] = []
drop_last (x ∷ []) = []
drop_last (x ∷ y ∷ l) = x ∷ drop_last (y ∷ l)

-- The line that typed characters make of a line: a tab is left out, a backspace takes the last character off,
-- and a newline ends it.
abbrev pub edited : List ℕ → List ℕ → List ℕ
edited line [] = line
edited line (c ∷ cs) =
    if c == tab
    then edited line cs
    else if c == backspace
    then edited (drop_last line) cs
    else if c == newline
    then line ++ c ∷ []
    else edited (line ++ c ∷ []) cs

-- The most characters that the line has on the way.
abbrev pub longest : List ℕ → List ℕ → ℕ
longest line [] = length line
longest line (c ∷ cs) =
    if c == tab
    then longest line cs
    else if c == backspace
    then max (length line) (longest (drop_last line) cs)
    else if c == newline
    then length line + 1
    else longest (line ++ c ∷ []) cs

drop_last-append : (l : List ℕ) (x : ℕ) → drop_last (l ++ x ∷ []) ≡ l
drop_last-append [] x = refl
drop_last-append (y ∷ []) x = refl
drop_last-append (y ∷ z ∷ l) x = ap (λ k. y ∷ k) (drop_last-append (z ∷ l) x)

characters_last :
    (n i : ℕ) (buf : ℕ → ℕ) → characters (suc n) i buf ≡ characters n i buf ++ buf (i + n) ∷ []
characters_last zero i buf = let here : i ≡ i + 0 = omega arith in ap (λ j. buf j ∷ []) here
characters_last (suc n) i buf =
    let shift : i + 1 + n ≡ i + suc n = omega arith in
    ap (λ l. buf i ∷ l)
      (characters_last n (i + 1) buf ∙ ap (λ j. characters n (i + 1) buf ++ buf j ∷ []) shift)

pub characters-store :
    (n i k c : ℕ) (buf : ℕ → ℕ) → i + n ≤ k → characters n i (store k c buf) ≡ characters n i buf
characters-store zero i k c buf h = refl
characters-store (suc n) i k c buf h =
    let other : (i == k) ≡ false = ground (arith, h) in
    rw other (ap (λ l. buf i ∷ l) (characters-store n (i + 1) k c buf (omega (arith, h))))

-- A character more.
characters_typed :
    (n c : ℕ) (buf : ℕ → ℕ) → characters (n + 1) 0 (store n c buf) ≡ characters n 0 buf ++ c ∷ []
characters_typed n c buf =
    let one : n + 1 ≡ suc n = omega arith in
    let new : store n c buf (0 + n) ≡ c = ground arith in
    ap (λ k. characters k 0 (store n c buf)) one
    ∙ characters_last n 0 (store n c buf)
    ∙ ap (λ l. l ++ store n c buf (0 + n) ∷ []) (characters-store n 0 n c buf (omega arith))
    ∙ ap (λ x. characters n 0 buf ++ x ∷ []) new

-- One less, or none.
characters_erased :
    (n : ℕ) (buf : ℕ → ℕ)
    → characters (if ltb 0 n then n - 1 else n) 0 buf ≡ drop_last (characters n 0 buf)
characters_erased zero buf = refl
characters_erased (suc n) buf =
    let back : (if ltb 0 (suc n) then suc n - 1 else suc n) ≡ n = ground arith in
    ap (λ k. characters k 0 buf) back
    ∙ sym (drop_last-append (characters n 0 buf) (buf (0 + n)))
    ∙ sym (ap drop_last (characters_last n 0 buf))

-- The line in the buffer of an editor.
abbrev pub line_in : Editor → List ℕ
line_in e = characters e.len 0 e.buf

pub length-characters : (n i : ℕ) (buf : ℕ → ℕ) → length (characters n i buf) ≡ n
length-characters zero i buf = refl
length-characters (suc n) i buf = ap (λ k. suc k) (length-characters n (i + 1) buf)

longest_ge : (cs line : List ℕ) → length line ≤ longest line cs
longest_ge [] line = omega arith
longest_ge (c ∷ cs) line = elim (Bool-cases (c == tab)) [
  | inl t ↦ rw t (longest_ge cs line)
  | inr t ↦ rw t (elim (Bool-cases (c == backspace)) [
    | inl b ↦ rw b (omega arith)
    | inr b ↦ rw b (elim (Bool-cases (c == newline)) [
      | inl n ↦ rw n (omega arith)
      | inr n ↦ rw n (omega (arith, longest_ge cs (line ++ c ∷ []), length-append line (c ∷ [])))
    ])
  ])
]

-- What the loop makes of a line: it faults exactly where the line gets longer than the buffer.
abbrev pub Looped : List ℕ → List ℕ → Option Editor → Type 0
Looped line cs none = buffer_size < longest line cs
Looped line cs (some e) = (longest line cs ≤ buffer_size) × (line_in e ≡ edited line cs)

-- The editor after a backspace, and after a character.
abbrev erased : Editor → Editor
erased e =
    if ltb 0 e.len then record e { len = e.len - 1; echoed = e.echoed ++ backspace ∷ [] } else e

abbrev typed : ℕ → Editor → Editor
typed c e = record e { len = e.len + 1; buf = store e.len c e.buf; echoed = e.echoed ++ c ∷ [] }

line_in-erased : (e : Editor) → line_in (erased e) ≡ drop_last (line_in e)
line_in-erased e = elim (Bool-cases (ltb 0 e.len)) [
  | inl y ↦ rw y (
      sym (ap (λ b. characters (if b then e.len - 1 else e.len) 0 e.buf) y)
      ∙ characters_erased e.len e.buf)
  | inr y ↦ rw y (
      sym (ap (λ b. characters (if b then e.len - 1 else e.len) 0 e.buf) y)
      ∙ characters_erased e.len e.buf)
]

len-erased : (e : Editor) → (erased e).len ≤ e.len
len-erased e = elim (Bool-cases (ltb 0 e.len)) [
  | inl y ↦ rw y (omega arith)
  | inr y ↦ rw y (omega arith)
]

-- A turn that erases, from what the loop makes of the rest.
Looped-erased :
    (line cs : List ℕ) (o : Option Editor)
    → length line ≤ buffer_size
    → Looped (drop_last line) cs o
    → Looped line (backspace ∷ cs) o
Looped-erased line cs none h w = omega (arith, w)
Looped-erased line cs (some e) h w = (omega (arith, h, w.0), w.1)

-- A turn that types, where the character is no tab and no backspace.
module _ (c : ℕ) (t : (c == tab) ≡ false) (b : (c == backspace) ≡ false) where
  loop_full :
      (cs : List ℕ) (e : Editor) → ltb e.len buffer_size ≡ false → getline_loop (c ∷ cs) e ≡ none
  unfolding getline_loop edit
  loop_full cs e f = rw (getline_loop, edit, t, b, f) refl

  loop_newline :
      (cs : List ℕ) (e : Editor)
      → ltb e.len buffer_size ≡ true
      → (c == newline) ≡ true
      → getline_loop (c ∷ cs) e ≡ some (record (typed c e) { input = cs })
  unfolding getline_loop edit
  loop_newline cs e f n = rw (getline_loop, edit, t, b, f) (rw n refl)

  loop_char :
      (cs : List ℕ) (e : Editor)
      → ltb e.len buffer_size ≡ true
      → (c == newline) ≡ false
      → getline_loop (c ∷ cs) e ≡ getline_loop cs (typed c e)
  unfolding getline_loop edit
  loop_char cs e f n = rw (getline_loop, edit, t, b, f) (rw n refl)

  Looped-newline :
      (line cs : List ℕ) (e : Editor)
      → (c == newline) ≡ true
      → length line < buffer_size
      → line_in e ≡ line ++ c ∷ []
      → Looped line (c ∷ cs) (some e)
  Looped-newline line cs e n h l =
      let way : longest line (c ∷ cs) ≡ length line + 1 = rw (t, b, n) refl in
      let whole : edited line (c ∷ cs) ≡ line ++ c ∷ [] = rw (t, b, n) refl in
      (omega (arith, way, h), l ∙ sym whole)

  Looped-char :
      (line cs : List ℕ) (o : Option Editor)
      → (c == newline) ≡ false
      → Looped (line ++ c ∷ []) cs o
      → Looped line (c ∷ cs) o
  Looped-char line cs none n w =
      let way : longest line (c ∷ cs) ≡ longest (line ++ c ∷ []) cs = rw (t, b, n) refl in
      omega (arith, way, w)
  Looped-char line cs (some e) n w =
      let way : longest line (c ∷ cs) ≡ longest (line ++ c ∷ []) cs = rw (t, b, n) refl in
      let whole : edited line (c ∷ cs) ≡ edited (line ++ c ∷ []) cs = rw (t, b, n) refl in
      (omega (arith, way, w.0), w.1 ∙ sym whole)

too_long :
    (c : ℕ) (line cs : List ℕ)
    → (c == tab) ≡ false
    → (c == backspace) ≡ false
    → buffer_size ≤ length line
    → buffer_size < longest line (c ∷ cs)
too_long c line cs t b h =
    rw (t, b)
      (elim (Bool-cases (c == newline)) [
        | inl n ↦ rw n (omega (arith, h))
        | inr n ↦
            rw n (omega (arith, h, longest_ge cs (line ++ c ∷ []), length-append line (c ∷ [])))
      ])

pub getline_loop-Looped :
    (cs : List ℕ) (e : Editor) → e.len ≤ buffer_size → Looped (line_in e) cs (getline_loop cs e)
unfolding getline_loop edit
getline_loop-Looped [] e h = (omega (arith, h, length-characters e.len 0 e.buf), refl)
getline_loop-Looped (c ∷ cs) e h =
    let Holds = λ (x : ℕ). Looped (line_in e) (x ∷ cs) (getline_loop (x ∷ cs) e) in
    let size : length (line_in e) ≡ e.len = length-characters e.len 0 e.buf in
    elim (Bool-cases (c == tab)) [
      | inl t ↦ subst Holds (sym ((==_iff c tab).0 t)) (getline_loop-Looped cs e h)
      | inr t ↦ elim (Bool-cases (c == backspace)) [
        | inl b ↦ subst Holds (sym ((==_iff c backspace).0 b)) (
            Looped-erased (line_in e) cs (getline_loop cs (erased e)) (omega (arith, size, h)) (
              subst (λ l. Looped l cs (getline_loop cs (erased e))) (line_in-erased e)
                (getline_loop-Looped cs (erased e) (omega (arith, len-erased e, h)))))
        | inr b ↦ elim (Bool-cases (ltb e.len buffer_size)) [
          | inr f ↦
              subst (Looped (line_in e) (c ∷ cs)) (sym (loop_full c t b cs e f))
                (too_long c (line_in e) cs t b (ground (arith, f, size)))
          | inl f ↦ elim (Bool-cases (c == newline)) [
            | inl n ↦ subst (Looped (line_in e) (c ∷ cs)) (sym (loop_newline c t b cs e f n)) (
                Looped-newline c t b (line_in e) cs (record (typed c e) { input = cs }) n
                  (ground (arith, f, size)) (characters_typed e.len c e.buf))
            | inr n ↦ subst (Looped (line_in e) (c ∷ cs)) (sym (loop_char c t b cs e f n)) (
                Looped-char c t b (line_in e) cs _ n (
                  subst (λ l. Looped l cs (getline_loop cs (typed c e)))
                    (characters_typed e.len c e.buf)
                    (getline_loop-Looped cs (typed c e) (ground (arith, f)))))
          ]
        ]
      ]
    ]
