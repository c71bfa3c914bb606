-- ===== src/Shell.antt =====
-- shell/main.c and `isspace` of src/libc/ctype.c: the line editor and the words of a command. A buffer is
-- a function from an index to its character, and what `read` brings is a sequence of characters, after which
-- it fails. A pointer into the buffer is an index.
pub mod Edited
pub mod Line
pub mod Words
mod Examples
use fat.Prelude.{
  ℕ, zero, suc, ◌+◌, ◌-◌, Bool, true, false, Option, none, some, List, [], ◌∷◌, ◌++◌, ◌==◌, ◌||◌,
  ltb, if◌then◌else◌,
}

abbrev pub backspace : ℕ
backspace = 8

abbrev pub tab : ℕ
tab = 9

abbrev pub newline : ℕ
newline = 10

unfoldable pub isspace : ℕ → Bool
isspace c = c == 32 || c == tab || c == newline || c == 11 || c == 12 || c == 13

abbrev pub store : ℕ → ℕ → (ℕ → ℕ) → ℕ → ℕ
store i c buf j = if j == i then c else buf j

-- `len`, the buffer, what was echoed, and what is left to read.
pub record Editor : Type 0 where
  pub len : ℕ
  pub buf : ℕ → ℕ
  pub echoed : List ℕ
  pub input : List ℕ

-- The entries of `buffer` and of `argv`.
abbrev pub buffer_size : ℕ
buffer_size = 512

abbrev pub argv_size : ℕ
argv_size = 32

-- The `switch` of `getline`. `none` is a store behind the buffer.
unfoldable pub edit : ℕ → Editor → Option Editor
edit c e =
    if c == tab
    then some e
    else if c == backspace
    then some (if ltb 0 e.len then record e { len = e.len - 1; echoed = e.echoed ++ c ∷ [] } else e)
    else if ltb e.len buffer_size
    then some (record e { len = e.len + 1; buf = store e.len c e.buf; echoed = e.echoed ++ c ∷ [] })
    else none

unfoldable pub getline_loop : List ℕ → Editor → Option Editor
unfolding edit
getline_loop [] e = some (record e { input = [] })
getline_loop (c ∷ cs) e = elim (edit c e) [
  | none ↦ none
  | some e' ↦
      let rest = getline_loop cs e' in
      if c == newline then some (record e' { input = cs }) else rest
]

unfoldable pub getline : List ℕ → (ℕ → ℕ) → Option Editor
unfolding getline_loop
getline input buf =
    elim (getline_loop input (record { len = 0; buf = buf; echoed = []; input = input })) [
      | none ↦ none
      | some e ↦
          if ltb e.len buffer_size then some (record e { buf = store e.len 0 e.buf }) else none
    ]

-- The loop of `parse_cmd` over `n` characters from `i` on, with the words so far counted: the words and the
-- buffer. `none` is a store behind `argv`.
unfoldable pub parse_loop : ℕ → ℕ → Bool → ℕ → (ℕ → ℕ) → Option (List ℕ × (ℕ → ℕ))
parse_loop zero i next argc buf = some ([], buf)
parse_loop (suc n) i next argc buf =
    let after_space = parse_loop n (i + 1) true argc (store i 0 buf) in
    let after_start = parse_loop n (i + 1) false (argc + 1) buf in
    let after_char = parse_loop n (i + 1) next argc buf in
    if isspace (buf i)
    then after_space
    else if next
    then (if ltb argc argv_size
        then elim after_start [ none ↦ none | some r ↦ some (i ∷ r.0, r.1) ]
        else none)
    else after_char

-- `argv`, whose length is `argc`, and the buffer.
unfoldable pub parse_cmd : (ℕ → ℕ) → ℕ → Option (List ℕ × (ℕ → ℕ))
unfolding parse_loop
parse_cmd buf length = parse_loop length 0 true 0 buf

-- The string at an index, with a bound on its length.
unfoldable pub string_at : ℕ → ℕ → (ℕ → ℕ) → List ℕ
string_at zero i buf = []
string_at (suc n) i buf =
    let rest = string_at n (i + 1) buf in if buf i == 0 then [] else buf i ∷ rest
