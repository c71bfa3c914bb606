-- ===== src/Shell/Words.antt =====
-- `parse_cmd`: the strings that the words point to.
use fat.Prelude.{
  length, Option, none, some, sym, subst, ℕ, zero, suc, ◌+◌, ◌≤◌, ◌<◌, ◌≡◌, ◌≢◌, Bool, true, false,
  List, [], ◌∷◌, ◌==◌, ◌&&◌, leb, ltb, map, if◌then◌else◌, arith, refl, ap, ◌∙◌, Bool-cases, inl,
  inr,
}
use fat.Shell.{argv_size, isspace, store, parse_loop, parse_cmd, string_at}

-- The characters from `i` on.
abbrev pub characters : ℕ → ℕ → (ℕ → ℕ) → List ℕ
characters zero i buf = []
characters (suc n) i buf = buf i ∷ characters n (i + 1) buf

-- The characters up to the next space.
abbrev pub word : List ℕ → List ℕ
word [] = []
word (c ∷ l) = if isspace c then [] else c ∷ word l

-- The words of a line, `true` where a word can begin.
abbrev pub words : Bool → List ℕ → List (List ℕ)
words next [] = []
words next (c ∷ l) =
    if isspace c then words true l else if next then (c ∷ word l) ∷ words false l else words false l

-- A line that `getline` ended with a 0 and that has no other.
abbrev pub IsLine : ℕ → ℕ → (ℕ → ℕ) → Type 0
IsLine zero i buf = buf i ≡ 0
IsLine (suc n) i buf = (buf i ≢ 0) × IsLine n (i + 1) buf

-- The buffer with a 0 for each space.
abbrev blanked : (ℕ → ℕ) → ℕ → ℕ
blanked buf j = if isspace (buf j) then 0 else buf j

-- Where the words begin.
abbrev starts : ℕ → ℕ → Bool → (ℕ → ℕ) → List ℕ
starts zero i next buf = []
starts (suc n) i next buf =
    if isspace (buf i)
    then starts n (i + 1) true buf
    else if next
    then i ∷ starts n (i + 1) false buf
    else starts n (i + 1) false buf

-- The loop without the bound on the words.
words_loop : ℕ → ℕ → Bool → (ℕ → ℕ) → List ℕ × (ℕ → ℕ)
words_loop zero i next buf = ([], buf)
words_loop (suc n) i next buf =
    let after_space = words_loop n (i + 1) true (store i 0 buf) in
    let after_char = words_loop n (i + 1) false buf in
    if isspace (buf i)
    then after_space
    else (if next then i ∷ after_char.0 else after_char.0, after_char.1)

-- The words if they fit behind those so far.
abbrev bounded : ℕ → List ℕ × (ℕ → ℕ) → Option (List ℕ × (ℕ → ℕ))
bounded argc r = if leb (argc + length r.0) argv_size then some r else none

bounded_more :
    (argc i : ℕ) (r : List ℕ × (ℕ → ℕ))
    → elim (bounded (argc + 1) r) as (λ x. Option (List ℕ × (ℕ → ℕ))) [
      | none ↦ none
      | some s ↦ some (i ∷ s.0, s.1)
    ]
      ≡ bounded argc (i ∷ r.0, r.1)
bounded_more argc i r =
    let shift : leb (argc + suc (length r.0)) argv_size ≡ leb (argc + 1 + length r.0) argv_size =
      ground arith in
    rw shift (elim (Bool-cases (leb (argc + 1 + length r.0) argv_size)) [
      | inl y ↦ rw y refl
      | inr y ↦ rw y refl
    ])

parse_loop-bounded :
    (n i : ℕ) (next : Bool) (argc : ℕ) (b : ℕ → ℕ)
    → argc ≤ argv_size
    → parse_loop n i next argc b ≡ bounded argc (words_loop n i next b)
unfolding parse_loop words_loop
parse_loop-bounded zero i next argc b h =
    let fits : leb (argc + 0) argv_size ≡ true = ground (arith, h) in rw fits refl
parse_loop-bounded (suc n) i next argc b h = elim (Bool-cases (isspace (b i))) [
  | inl y ↦ rw y (parse_loop-bounded n (i + 1) true argc (store i 0 b) h)
  | inr y ↦
      rw y
        (elim next
          as (λ x.
            (if x
              then (if ltb argc argv_size
                  then elim (parse_loop n (i + 1) false (argc + 1) b)
                      as (λ z. Option (List ℕ × (ℕ → ℕ))) [
                        | none ↦ none
                        | some r ↦ some (i ∷ r.0, r.1)
                      ]
                  else none)
              else parse_loop n (i + 1) x argc b)
            ≡ bounded argc (
              if x then i ∷ (words_loop n (i + 1) false b).0 else (words_loop n (i + 1) false b).0,
              (words_loop n (i + 1) false b).1,
            )) [
              | false ↦ parse_loop-bounded n (i + 1) false argc b h
              | true ↦ elim (Bool-cases (ltb argc argv_size)) [
                | inl z ↦ rw z (
                    rw (parse_loop-bounded n (i + 1) false (argc + 1) b (ground (arith, z)))
                      (bounded_more argc i (words_loop n (i + 1) false b)))
                | inr z ↦
                    let full : leb (argc + suc (length (words_loop n (i + 1) false b).0)) argv_size
                        ≡ false =
                      ground (arith, z) in
                    rw (z, full) refl
              ]
            ])
]

-- The loop on a buffer that is as `buf` from `i` on.
words_loop-starts :
    (n i : ℕ) (next : Bool) (buf b : ℕ → ℕ)
    → ((j : ℕ) → i ≤ j → b j ≡ buf j)
    → (words_loop n i next b).0 ≡ starts n i next buf
unfolding words_loop
words_loop-starts zero i next buf b h = refl
words_loop-starts (suc n) i next buf b h =
    rw (h i (omega arith)) (elim (Bool-cases (isspace (buf i))) [
      | inl y ↦ rw y (
          words_loop-starts n (i + 1) true buf (store i 0 b) (λ j l.
            let passed : (j == i) ≡ false = ground (arith, l) in
            rw passed (h j (omega (arith, l)))))
      | inr y ↦ rw y (
          ap (λ l. if next then i ∷ l else l)
            (words_loop-starts n (i + 1) false buf b (λ j l. h j (omega (arith, l)))))
    ])

words_loop-blanked :
    (n i : ℕ) (next : Bool) (b : ℕ → ℕ) (j : ℕ)
    → (words_loop n i next b).1 j ≡ (if leb i j && ltb j (i + n) then blanked b j else b j)
unfolding words_loop
words_loop-blanked zero i next b j = ground arith
words_loop-blanked (suc n) i next b j = elim (Bool-cases (isspace (b i))) [
  | inl y ↦ rw y (words_loop-blanked n (i + 1) true (store i 0 b) j ∙ ground (arith, y))
  | inr y ↦ rw y (words_loop-blanked n (i + 1) false b j ∙ ground (arith, y))
]

string_at-word :
    (turns n i : ℕ) (buf b : ℕ → ℕ)
    → n < turns
    → IsLine n i buf
    → ((j : ℕ) → i ≤ j → j ≤ i + n → b j ≡ blanked buf j)
    → string_at turns i b ≡ word (characters n i buf)
unfolding string_at
string_at-word zero n i buf b k l h = absurd (omega (arith, k))
string_at-word (suc turns) zero i buf b k l h =
    let ended : (b i == 0) ≡ true = ground (arith, h i (omega arith) (omega arith), l) in
    rw ended refl
string_at-word (suc turns) (suc n) i buf b k l h = elim (Bool-cases (isspace (buf i))) [
  | inl y ↦
      let ended : (b i == 0) ≡ true = ground (arith, h i (omega arith) (omega arith), y) in
      rw (ended, y) refl
  | inr y ↦
      let here : b i ≡ buf i = ground (arith, h i (omega arith) (omega arith), y) in
      let more : (buf i == 0) ≡ false = ground (arith, l.0) in
      rw here (
        rw (more, y)
          (ap (λ w. buf i ∷ w)
            (string_at-word turns n (i + 1) buf b (omega (arith, k)) l.1
              (λ j a c. h j (omega (arith, a)) (omega (arith, c))))))
]

chosen :
    (next : Bool) (i : ℕ) (w : List ℕ) (l : List ℕ) (ws : List (List ℕ)) (f : ℕ → List ℕ)
    → f i ≡ w
    → map f l ≡ ws
    → map f (if next then i ∷ l else l) ≡ (if next then w ∷ ws else ws)
chosen true i w l ws f h r = ap (λ x. x ∷ map f l) h ∙ ap (λ x. w ∷ x) r
chosen false i w l ws f h r = r

starts-words :
    (turns n i : ℕ) (next : Bool) (buf b : ℕ → ℕ)
    → n < turns
    → IsLine n i buf
    → ((j : ℕ) → i ≤ j → j ≤ i + n → b j ≡ blanked buf j)
    → map (λ o. string_at turns o b) (starts n i next buf) ≡ words next (characters n i buf)
starts-words turns zero i next buf b k l h = refl
starts-words turns (suc n) i next buf b k l h =
    let rest = λ (m : Bool).
      starts-words turns n (i + 1) m buf b (omega (arith, k)) l.1
        (λ j a c. h j (omega (arith, a)) (omega (arith, c))) in
    elim (Bool-cases (isspace (buf i))) [
      | inl y ↦ rw y (rest true)
      | inr y ↦
          let head : string_at turns i b ≡ buf i ∷ word (characters n (i + 1) buf) =
            string_at-word turns (suc n) i buf b k l h ∙ rw y refl in
          rw y (
            chosen next i (buf i ∷ word (characters n (i + 1) buf)) (starts n (i + 1) false buf)
              (words false (characters n (i + 1) buf)) (λ o. string_at turns o b) head (rest false))
    ]

line_end : (n i : ℕ) (buf : ℕ → ℕ) → IsLine n i buf → buf (i + n) ≡ 0
line_end zero i buf l = let here : i + 0 ≡ i = omega arith in ap buf here ∙ l
line_end (suc n) i buf l =
    let shift : i + suc n ≡ i + 1 + n = omega arith in ap buf shift ∙ line_end n (i + 1) buf l.1

-- The 0 at the end of a line is no space that the loop would have to overwrite.
ends :
    (n j : ℕ) (buf : ℕ → ℕ)
    → IsLine n 0 buf
    → j ≤ 0 + n
    → (if leb 0 j && ltb j (0 + n) then blanked buf j else buf j) ≡ blanked buf j
ends n j buf l c = ground (arith, line_end n 0 buf l, c)

-- What `parse_cmd` makes of a line with these words: with more words than `argv` has entries it faults, and
-- otherwise its pointers are to the words.
abbrev pub Parsed : ℕ → List (List ℕ) → Option (List ℕ × (ℕ → ℕ)) → Type 0
Parsed turns ws none = argv_size < length ws
Parsed turns ws (some r) = (length ws ≤ argv_size) × (map (λ o. string_at turns o r.1) r.0 ≡ ws)

length-map : (f : ℕ → List ℕ) (l : List ℕ) → length (map f l) ≡ length l
length-map f [] = refl
length-map f (x ∷ l) = ap (λ n. suc n) (length-map f l)

bounded-Parsed :
    (turns : ℕ) (ws : List (List ℕ)) (r : List ℕ × (ℕ → ℕ))
    → map (λ o. string_at turns o r.1) r.0 ≡ ws
    → Parsed turns ws (bounded 0 r)
bounded-Parsed turns ws r e =
    let same_length : length r.0 ≡ length ws =
      sym (length-map (λ o. string_at turns o r.1) r.0) ∙ ap length e in
    elim (Bool-cases (leb (0 + length r.0) argv_size)) [
      | inl y ↦ rw y (ground (arith, y, same_length), e)
      | inr y ↦ rw y (ground (arith, y, same_length))
    ]

-- On a line that `getline` ended, `parse_cmd` gives pointers to the words of the line, in their order: each
-- points to a string that is a longest piece of the line without spaces. It faults exactly on more than 32
-- words.
pub parse_cmd-words :
    (n : ℕ) (buf : ℕ → ℕ)
    → IsLine n 0 buf
    → Parsed (n + 1) (words true (characters n 0 buf)) (parse_cmd buf n)
unfolding parse_cmd
parse_cmd-words n buf l =
    let r = words_loop n 0 true buf in
    subst (Parsed (n + 1) (words true (characters n 0 buf)))
      (sym (parse_loop-bounded n 0 true 0 buf (omega arith)))
      (bounded-Parsed (n + 1) (words true (characters n 0 buf)) r (
        ap (map (λ o. string_at (n + 1) o r.1)) (words_loop-starts n 0 true buf buf (λ j k. refl))
        ∙ starts-words (n + 1) n 0 true buf r.1 (omega arith) l
            (λ j a c. words_loop-blanked n 0 true buf j ∙ ends n j buf l c)))
