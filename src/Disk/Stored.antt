-- ===== src/Disk/Stored.antt =====
-- The sectors that `transfer` in src/srv/disk/disk.c writes, and the disk with them.
use fat.Prelude.{
  ℕ, zero, suc, ◌+◌, ◌-◌, ◌*◌, ◌/◌, ◌%◌, ◌≤◌, length, ◌<◌, ◌≡◌, List, [], ◌∷◌, ◌==◌, ltb,
  if◌then◌else◌, arith, refl, ap, ◌∙◌, inl, inr, Bool-cases,
}
use fat.Disk.{sector_size, upper_div, lower_div, nsect}

-- The bytes of the disk after sectors were written from the number `k` on.
pub stored : ℕ → List (ℕ → ℕ) → (ℕ → ℕ) → ℕ → ℕ
stored k [] byte = byte
stored k (s ∷ l) byte =
    stored (k + 1) l (λ a. if a / sector_size == k then s (a % sector_size) else byte a)

-- The sector that a turn writes, with `n` bytes to go at `buf` before it: the next bytes, and zeros.
abbrev pub next_sector : ℕ → ℕ → (ℕ → ℕ) → ℕ → ℕ
next_sector n buf mem j =
    if ltb j (if ltb sector_size (n - sector_size) then sector_size else n - sector_size)
    then mem (buf + sector_size + j)
    else 0

-- The sectors that the loop writes after the first, with `n` bytes to go and the first sector of them gone.
unfoldable pub rest_of : ℕ → ℕ → ℕ → (ℕ → ℕ) → List (ℕ → ℕ)
rest_of zero n buf mem = []
rest_of (suc m) n buf mem =
    next_sector n buf mem ∷ rest_of m (n - sector_size) (buf + sector_size) mem

stored-below :
    (l : List (ℕ → ℕ)) (k : ℕ) (byte : ℕ → ℕ) (a : ℕ)
    → a / sector_size < k
    → stored k l byte a ≡ byte a
unfolding stored
stored-below [] k byte a h = refl
stored-below (s ∷ l) k byte a h = stored-below l (k + 1) _ a (ground arith) ∙ ground arith

-- Behind the last of the sectors.
stored-above :
    (m k n buf : ℕ) (mem byte : ℕ → ℕ) (a : ℕ)
    → k + m ≤ a / sector_size
    → stored k (rest_of m n buf mem) byte a ≡ byte a
unfolding stored rest_of
stored-above zero k n buf mem byte a h = refl
stored-above (suc m) k n buf mem byte a h =
    stored-above m (k + 1) (n - sector_size) (buf + sector_size) mem _ a (ground arith)
    ∙ ground arith

stored-rest_of :
    (m k n buf : ℕ) (mem byte : ℕ → ℕ) (a : ℕ)
    → n ≤ suc m * sector_size
    → k * sector_size ≤ a
    → a - k * sector_size + sector_size < n
    → stored k (rest_of m n buf mem) byte a ≡ mem (buf + sector_size + (a - k * sector_size))
unfolding stored rest_of
stored-rest_of zero k n buf mem byte a b c h = absurd (omega (arith, b, h))
stored-rest_of (suc m) k n buf mem byte a b c h = elim (Bool-cases (a / sector_size == k)) [
  | inl e ↦
      stored-below (rest_of m (n - sector_size) (buf + sector_size) mem) (k + 1) _ a (ground arith)
      ∙ ground arith
  | inr e ↦
      stored-rest_of m (k + 1) (n - sector_size) (buf + sector_size) mem _ a (ground arith)
        (ground arith) (ground arith)
      ∙ ap mem (ground arith)
]

-- The sectors of a write: the first from the buffer, the others from the loop.
abbrev pub out : ℕ → ℕ → (ℕ → ℕ) → List (ℕ → ℕ)
out buf n mem = (λ j. mem (buf + j)) ∷ rest_of (nsect 0 n - 1) n buf mem

pub length-rest_of : (m n buf : ℕ) (mem : ℕ → ℕ) → length (rest_of m n buf mem) ≡ m
unfolding rest_of
length-rest_of zero n buf mem = refl
length-rest_of (suc m) n buf mem =
    ap (λ k. suc k) (length-rest_of m (n - sector_size) (buf + sector_size) mem)

sectors_of : (at n : ℕ) → at % sector_size ≡ 0 → nsect at n ≡ nsect 0 n
unfolding nsect upper_div lower_div
sectors_of at n h = ground arith

pub first_bytes :
    (at buf n : ℕ) (mem byte : ℕ → ℕ) (a : ℕ)
    → at % sector_size ≡ 0
    → at ≤ a
    → a < at + n
    → stored (at / sector_size) (out buf n mem) byte a ≡ mem (buf + (a - at))
unfolding stored nsect upper_div lower_div
first_bytes at buf n mem byte a z h l = elim (Bool-cases (a / sector_size == at / sector_size)) [
  | inl e ↦
      stored-below (rest_of (nsect 0 n - 1) n buf mem) (at / sector_size + 1) _ a (ground arith)
      ∙ rw e (ap mem (ground arith))
  | inr e ↦
      stored-rest_of (nsect 0 n - 1) (at / sector_size + 1) n buf mem _ a (ground arith)
        (ground arith) (ground arith)
      ∙ ap mem (ground arith)
]

pub turns : (at n : ℕ) → at % sector_size ≡ 0 → 0 < n → nsect at n ≡ suc (nsect 0 n - 1)
unfolding nsect upper_div lower_div
turns at n z h = ground arith

pub last_bytes :
    (at buf n : ℕ) (mem byte : ℕ → ℕ) (a : ℕ)
    → at % sector_size ≡ 0
    → 0 < n
    → at + nsect at n * sector_size ≤ a
    → stored (at / sector_size) (out buf n mem) byte a ≡ byte a
unfolding stored nsect upper_div lower_div
last_bytes at buf n mem byte a z h l =
    stored-above (nsect 0 n - 1) (at / sector_size + 1) n buf mem _ a (ground arith) ∙ ground arith

pub stored-under :
    (at : ℕ) (l : List (ℕ → ℕ)) (byte : ℕ → ℕ) (a : ℕ)
    → at % sector_size ≡ 0
    → a < at
    → stored (at / sector_size) l byte a ≡ byte a
stored-under at l byte a z h = stored-below l (at / sector_size) byte a (ground arith)
