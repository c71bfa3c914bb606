-- ===== src/Disk/Part.antt =====
-- `disk_part` and the messages of `main` in src/srv/disk/disk.c. A result `none` waits for an interrupt
-- that does not come. The results of `malloc` are arguments, with 0 for NULL, and `free` is left out.
use fat.Prelude.{
  little_endian, ℕ, ◌+◌, ◌-◌, ◌*◌, ◌/◌, ◌%◌, ◌^◌, Bool, true, false, Option, none, some, List, [],
  ◌∷◌, ◌==◌, leb, ◌&&◌, if◌then◌else◌, ℤ, pos, negsuc,
}
use fat.Disk.{Drive, Event, failed, done, undone, Transferred, sector_size, transfer}

-- `!strncmp(s, t, n)` for a text without a 0.
starts_with : List ℕ → ℕ → (ℕ → ℕ) → Bool
starts_with [] a mem = true
starts_with (c ∷ l) a mem = mem a == c && starts_with l (a + 1) mem

-- "EFI PART"
abbrev gpt_signature : List ℕ
gpt_signature = 69 ∷ 70 ∷ 73 ∷ 32 ∷ 80 ∷ 65 ∷ 82 ∷ 84 ∷ []

-- `header->signature`, `header->pentry`, `header->pensz` and `entry->first_lba`.
abbrev pentry : ℕ → (ℕ → ℕ) → ℕ
pentry header mem = little_endian 8 (header + 72) mem

abbrev pensz : ℕ → (ℕ → ℕ) → ℕ
pensz header mem = little_endian 4 (header + 84) mem

abbrev first_lba : ℕ → (ℕ → ℕ) → ℕ
first_lba entry mem = little_endian 8 (entry + 32) mem

-- `header->pensz * part`, of 32 bits.
abbrev part_offset : ℕ → ℕ → (ℕ → ℕ) → ℕ
part_offset header part mem = pensz header mem * part % 2 ^ 32

-- The result, memory, and the events to come.
pub record Answer : Type 0 where
  pub retval : ℤ
  pub mem : ℕ → ℕ
  pub left : List Event

abbrev answer : ℤ → Transferred → Answer
answer n w = record { retval = n; mem = w.mem; left = w.left }

-- The entry of the partition, once the two sectors that it can be in are read.
read_entry : ℕ → ℕ → Transferred → Answer
unfolding little_endian
read_entry buffer offset w = elim (w.status) [
  | done ↦ answer (pos (first_lba (buffer + offset) w.mem * sector_size)) w
  | failed ↦ answer (negsuc 0) w
  | undone ↦ answer (negsuc 0) w
]

-- What follows the read of the header.
find_entry : Drive → ℕ → ℕ → ℕ → ℕ → Transferred → Option Answer
unfolding little_endian starts_with read_entry
find_entry drive sector_per_drq part header buffer w =
    let at = part_offset header part w.mem in
    let base = (pentry header w.mem + at / sector_size) * sector_size % 2 ^ 64 in
    if starts_with gpt_signature header w.mem
    then (if buffer == 0
        then some (answer (negsuc 0) w)
        else elim (transfer drive sector_per_drq base buffer (sector_size * 2) false w.left w.mem) [
          | none ↦ none
          | some w' ↦ some (read_entry buffer (at % sector_size) w')
        ])
    else some (answer (negsuc 0) w)

disk_part : Drive → ℕ → ℕ → ℕ → ℕ → List Event → (ℕ → ℕ) → Option Answer
unfolding find_entry
disk_part drive sector_per_drq part header buffer events mem =
    if header == 0
    then some (record { retval = negsuc 0; mem = mem; left = events })
    else elim (transfer drive sector_per_drq sector_size header sector_size false events mem) [
      | none ↦ none
      | some w ↦ elim (w.status) [
        | done ↦ find_entry drive sector_per_drq part header buffer w
        | failed ↦ some (answer (negsuc 0) w)
        | undone ↦ some (answer (negsuc 0) w)
      ]
    ]

-- The message MSG_BDEV_TRANSFER, with the buffer, the position, the size and whether to write.
bdev_transfer : Drive → ℕ → ℕ → ℕ → ℕ → Bool → List Event → (ℕ → ℕ) → Option Answer
bdev_transfer drive sector_per_drq at buffer size write events mem =
    elim (transfer drive sector_per_drq at buffer size write events mem) [
      | none ↦ none
      | some w ↦ some (
          answer (elim (w.status) as (λ s. ℤ) [ failed ↦ negsuc 0 | done ↦ pos 0 | undone ↦ pos 1 ])
            w)
    ]

-- `part_base` has no sign, so that the test for a negative one never holds.
abbrev part_base : ℤ → ℕ
part_base (pos n) = n % 2 ^ 64
part_base (negsuc n) = 2 ^ 64 - (n + 1)

after_part : ℕ → Transferred → Answer
after_part base w = elim (w.status) [
  | done ↦ answer (if leb (2 ^ 63) base then negsuc (2 ^ 64 - 1 - base) else pos base) w
  | failed ↦ answer (negsuc 0) w
  | undone ↦ answer (negsuc 0) w
]

-- The message MSG_BDEV_PART: the start of a partition, and a read at a position in it.
bdev_part : Drive → ℕ → ℕ → ℕ → ℕ → ℕ → ℕ → ℕ → List Event → (ℕ → ℕ) → Option Answer
unfolding disk_part after_part
bdev_part drive sector_per_drq part at buf size header buffer events mem =
    elim (disk_part drive sector_per_drq part header buffer events mem) [
      | none ↦ none
      | some a ↦
          elim (transfer drive sector_per_drq ((part_base a.retval + at) % 2 ^ 64) buf size false
            a.left a.mem) [ none ↦ none | some w ↦ some (after_part (part_base a.retval) w) ]
    ]
