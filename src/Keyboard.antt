-- ===== src/Keyboard.antt =====
-- src/srv/keyboard/keyboard.c: the ring buffer of characters, the scan codes and the reads. A `char`
-- is its byte; x86-64 has it signed, so that it is extended by its sign where it is compared.
pub mod Ring
pub mod Full
pub mod Typed
pub mod Reads
mod Examples
use fat.Prelude.{
  ℕ, zero, suc, ◌+◌, ◌-◌, ◌*◌, ◌%◌, ◌^◌, Bool, true, false, Option, none, some, List, [], ◌∷◌, ◌==◌,
  ltb, leb, bit_or, if◌then◌else◌, ◌&&◌,
}

abbrev pub keyboard_buf_size : ℕ
keyboard_buf_size = 128

-- `kb_buf`.
pub record Buffer : Type 0 where
  pub buf : ℕ → ℕ
  pub count : ℕ
  pub head : ℕ
  pub tail : ℕ

pub put_char : ℕ → Buffer → Buffer
put_char c b = if leb keyboard_buf_size b.count then b else record b {
  buf = λ i. if i == b.tail then c else b.buf i;
  tail = (b.tail + 1) % keyboard_buf_size;
  count = b.count + 1;
}

-- One turn of the loop of `read_char`.
pub next : Buffer → Buffer
next b = record b { head = (b.head + 1) % keyboard_buf_size; count = b.count - 1 }

-- The loop of `read_char` while `n` turns are left: the characters it stores, and the buffer.
pub read_loop : ℕ → Buffer → List ℕ × Buffer
unfolding next
read_loop zero b = ([], b)
read_loop (suc n) b =
    let rest = read_loop n (next b) in
    if b.head == b.tail then ([], b) else (b.buf b.head ∷ rest.0, rest.1)

-- The test `sz <= size` ends the loop after `size + 1` turns.
pub read_char : ℕ → Buffer → List ℕ × Buffer
unfolding read_loop
read_char size b = read_loop (size + 1) b

-- `kbf`, the static variables of `annlysis_scancode`, and the buffer. `skip` is its 32 bits.
pub record Keyboard : Type 0 where
  pub shift_l : ℕ
  pub shift_r : ℕ
  pub ctrl_l : ℕ
  pub ctrl_r : ℕ
  pub alt_l : ℕ
  pub alt_r : ℕ
  pub pre_code : ℕ
  pub skip : ℕ
  pub kb_buf : Buffer

-- A `char` as the 32 bits of the `int` that it is compared as.
pub extend : ℕ → ℕ
extend c = if ltb c 128 then c else c + (2 ^ 32 - 2 ^ 8)

-- The rows of `keymap`, two columns each, up to the last one that is not 0.
abbrev keymap_rows : List ℕ
keymap_rows =
    0 ∷ 0 ∷ 0 ∷ 0 ∷ 49 ∷ 33 ∷ 50 ∷ 64 ∷ 51 ∷ 35 ∷ 52 ∷ 36 ∷ 53 ∷ 37 ∷ 54 ∷ 94 ∷ 55 ∷ 38 ∷ 56 ∷ 42
    ∷ 57 ∷ 40 ∷ 48 ∷ 41 ∷ 45 ∷ 95 ∷ 61 ∷ 43 ∷ 8 ∷ 0 ∷ 9 ∷ 0 ∷ 113 ∷ 81 ∷ 119 ∷ 87 ∷ 101 ∷ 69 ∷ 114
    ∷ 82 ∷ 116 ∷ 84 ∷ 121 ∷ 89 ∷ 117 ∷ 85 ∷ 105 ∷ 73 ∷ 111 ∷ 79 ∷ 112 ∷ 80 ∷ 91 ∷ 123 ∷ 93 ∷ 125
    ∷ 10 ∷ 0 ∷ 29 ∷ 29 ∷ 97 ∷ 65 ∷ 115 ∷ 83 ∷ 100 ∷ 68 ∷ 102 ∷ 70 ∷ 103 ∷ 71 ∷ 104 ∷ 72 ∷ 106 ∷ 74
    ∷ 107 ∷ 75 ∷ 108 ∷ 76 ∷ 59 ∷ 58 ∷ 39 ∷ 34 ∷ 96 ∷ 126 ∷ 42 ∷ 42 ∷ 92 ∷ 124 ∷ 122 ∷ 90 ∷ 120 ∷ 88
    ∷ 99 ∷ 67 ∷ 118 ∷ 86 ∷ 98 ∷ 66 ∷ 110 ∷ 78 ∷ 109 ∷ 77 ∷ 44 ∷ 60 ∷ 46 ∷ 62 ∷ 47 ∷ 63 ∷ 54 ∷ 54
    ∷ 42 ∷ 42 ∷ 56 ∷ 56 ∷ 32 ∷ 32 ∷ 0 ∷ 0 ∷ 0 ∷ 0 ∷ 0 ∷ 0 ∷ 0 ∷ 0 ∷ 0 ∷ 0 ∷ 0 ∷ 0 ∷ 0 ∷ 0 ∷ 0 ∷ 0
    ∷ 0 ∷ 0 ∷ 0 ∷ 0 ∷ 0 ∷ 0 ∷ 0 ∷ 0 ∷ 0 ∷ 0 ∷ 55 ∷ 0 ∷ 56 ∷ 0 ∷ 57 ∷ 0 ∷ 45 ∷ 0 ∷ 52 ∷ 0 ∷ 53 ∷ 0
    ∷ 54 ∷ 0 ∷ 43 ∷ 0 ∷ 49 ∷ 0 ∷ 50 ∷ 0 ∷ 51 ∷ 0 ∷ 48 ∷ 0 ∷ 46 ∷ []

nth : ℕ → List ℕ → ℕ
nth i [] = 0
nth zero (c ∷ l) = c
nth (suc i) (c ∷ l) = nth i l

-- `keymap[i]`.
pub keymap : ℕ → ℕ
unfolding nth
keymap i = nth i keymap_rows

-- `if (!key) return; put_char(key)`
pub put_key : ℕ → Buffer → Buffer
unfolding put_char
put_key key b = if key == 0 then b else put_char key b

-- The code after 0xe1: one of those that are skipped.
skip_code : Keyboard → Keyboard
skip_code k =
    let left = (k.skip + (2 ^ 32 - 1)) % 2 ^ 32 in
    record k { skip = left; pre_code = if left == 0 then 0 else k.pre_code }

-- The code after 0xe0: a key of the right side.
right_code : ℕ → Keyboard → Keyboard
right_code code k =
    let k' = record k { pre_code = 0 } in
    if code == 0x1d
    then record k' { ctrl_r = 1 }
    else if code == 0x9d
    then record k' { ctrl_r = 0 }
    else if code == 0x38
    then record k' { alt_r = 1 }
    else if code == 0xb8
    then record k' { alt_r = 0 }
    else k'

-- Any other code: the low bits name the key, bit 7 says that it was released.
pub key_code : ℕ → Keyboard → Keyboard
unfolding keymap put_key
key_code code k =
    let make = if ltb code 0x80 then 1 else 0 in
    let c = code % 0x80 in
    if c == 0x2a
    then record k { shift_l = make }
    else if c == 0x36
    then record k { shift_r = make }
    else if c == 0x1d
    then record k { ctrl_l = make }
    else if c == 0x38
    then record k { alt_l = make }
    else if make == 1
    then record k { kb_buf = put_key (keymap (c * 2 + bit_or k.shift_l k.shift_r)) k.kb_buf }
    else k

pub annlysis_scancode : ℕ → Keyboard → Keyboard
unfolding extend skip_code right_code key_code
annlysis_scancode code k =
    if code == 0xe1
    then record k { pre_code = 0xe1; skip = 5 }
    else if code == 0xe0
    then record k { pre_code = 0xe1 }
    else if extend k.pre_code == 0xe1
    then skip_code k
    else if extend k.pre_code == 0xe0
    then right_code code k
    else key_code code k

-- The answer to MSG_FSREAD in `main`. While the buffer is empty each interrupt brings a code; `none`
-- if the codes end first. It returns the characters, their number being the result, the keyboard,
-- and the codes that are left.
pub serve_read : ℕ → List ℕ → Keyboard → Option (List ℕ × Keyboard × List ℕ)
unfolding annlysis_scancode read_char
serve_read size [] k =
    if k.kb_buf.count == 0
    then none
    else let r = read_char size k.kb_buf in some (r.0, record k { kb_buf = r.1 }, [])
serve_read size (code ∷ codes) k =
    let later = serve_read size codes (annlysis_scancode code k) in
    if k.kb_buf.count == 0
    then later
    else let r = read_char size k.kb_buf in some (r.0, record k { kb_buf = r.1 }, code ∷ codes)
