-- ===== src/Disk/Write.antt =====
-- Writes by `transfer` in src/srv/disk/disk.c.
use fat.Prelude.{
  ℕ, zero, suc, ◌+◌, ◌-◌, ◌*◌, ◌/◌, ◌%◌, ◌^◌, ◌≤◌, length, sym, ◌<◌, ◌≡◌, true, false, Option, none,
  some, List, ◌∷◌, ◌==◌, ltb, arith, refl, ap, ◌∙◌,
}
use fat.Disk.Command.{
  Port, do_request, lba48_write, Registers, outs, address, count, command, write_ext,
  address-do_request,
}
use fat.Disk.Read.{sector_of, sent_by-some}
use fat.Disk.{
  Drive, sent_by, with_sent, and_first, Request, Event, ready, Status, failed, done, undone,
  Transferred, finished, failing, request_of, sector_size, disk_write, write_loop, and_wrote,
  upper_div, lower_div, nsect, transfer,
}
use fat.Disk.Stored.{
  stored, next_sector, rest_of, length-rest_of, out, first_bytes, turns, last_bytes, stored-under,
}

-- As many interrupts; what the drive has at its port is not read.
pub interrupts : ℕ → List Event → List Event
interrupts zero l = l
interrupts (suc m) l = ready (λ j. 0) ∷ interrupts m l

-- The status is done and these sectors were written.
pub record IsWritten (mem : ℕ → ℕ) (out : List (ℕ → ℕ)) (l : List Event) (w : Transferred)
    : Type 0 where
  pub is_done : w.status ≡ done
  pub kept : w.mem ≡ mem
  pub sectors : w.written ≡ out
  pub events : w.left ≡ l

-- What the loop makes of a turn.
turn : List Event → (ℕ → ℕ) → Status × Request × Option (ℕ → ℕ) → Option Transferred
turn l mem t = elim (t.0) [
  | undone ↦ elim (write_loop l t.1 mem) [ none ↦ none | some w ↦ some (and_wrote t.2 w) ]
  | done ↦ some (finished mem l)
  | failed ↦ some (failing mem l)
]

disk_write-last :
    (s : ℕ → ℕ) (r : Request) (mem : ℕ → ℕ)
    → ltb sector_size r.size ≡ false
    → disk_write (some s) r mem ≡ (done, r, none)
unfolding disk_write
disk_write-last s r mem e = rw (disk_write, e) refl

disk_write-other :
    (s : ℕ → ℕ) (at n buf : ℕ) (mem : ℕ → ℕ)
    → ltb sector_size n ≡ true
    → disk_write (some s) (request_of at n buf) mem
      ≡ (undone, request_of at (n - sector_size) (buf + sector_size), some (next_sector n buf mem))
unfolding disk_write
disk_write-other s at n buf mem e = rw (disk_write, e) refl

write_loop-IsWritten :
    (m at n buf : ℕ) (mem : ℕ → ℕ) (l : List Event)
    → m * sector_size < n
    → n ≤ suc m * sector_size
    → (w : Transferred) × (write_loop (interrupts (suc m) l) (request_of at n buf) mem ≡ some w)
      × IsWritten mem (rest_of m n buf mem) l w
unfolding write_loop turn interrupts rest_of
write_loop-IsWritten zero at n buf mem l a b = (
  finished mem l,
  ap (turn l mem) (disk_write-last (λ j. 0) (request_of at n buf) mem (ground arith)),
  record { is_done = refl; kept = refl; sectors = refl; events = refl },
)
write_loop-IsWritten (suc m) at n buf mem l a b =
    let ih =
      write_loop-IsWritten m at (n - sector_size) (buf + sector_size) mem l (ground arith)
        (ground arith) in
    let c : ℕ → ℕ = next_sector n buf mem in
    (
      and_wrote (some c) ih.0,
      ap (turn (interrupts (suc m) l) mem) (disk_write-other (λ j. 0) at n buf mem (ground arith))
          ∙ ap
              (λ o. elim o as (λ x. Option Transferred) [
                | none ↦ none
                | some w ↦ some (and_wrote (some c) w)
              ])
              ih.1,
      record {
        is_done = ih.2.is_done;
        kept = ih.2.kept;
        sectors = ap (λ o. c ∷ o) ih.2.sectors;
        events = ih.2.events;
      },
    )

-- The drive got a write command, and as many sectors as its registers then count. Once it has stored them from
-- the number in its registers on, the bytes at the position are those of the buffer, and the bytes outside
-- the sectors are as they were. Memory is too.
pub record IsStored (registers : Registers) (at buf n : ℕ) (mem byte : ℕ → ℕ) (w : Transferred)
    : Type 0 where
  pub is_done : w.status ≡ done
  pub kept : w.mem ≡ mem
  pub writes : command w.sent ≡ some write_ext
  pub counted : length w.written ≡ count (outs w.sent registers)
  pub inside :
      (a : ℕ)
      → at ≤ a
      → a < at + n
      → stored (address (outs w.sent registers)) w.written byte a ≡ mem (buf + (a - at))
  pub below : (a : ℕ) → a < at → stored (address (outs w.sent registers)) w.written byte a ≡ byte a
  pub above :
      (a : ℕ)
      → at + nsect at n * sector_size ≤ a
      → stored (address (outs w.sent registers)) w.written byte a ≡ byte a

enough : (n : ℕ) → n ≤ suc (nsect 0 n - 1) * sector_size
unfolding nsect upper_div lower_div
enough n = ground arith

fewer : (n : ℕ) → 0 < n → (nsect 0 n - 1) * sector_size < n
unfolding nsect upper_div lower_div
fewer n h = ground arith

begin :
    (drive : Drive) (sector_per_drq at buf n : ℕ) (mem : ℕ → ℕ) (l : List Event)
    (sent : List (Port × ℕ))
    → at % sector_size ≡ 0
    → nsect at n ≤ sector_per_drq
    → do_request lba48_write (nsect at n) (at / sector_size) ≡ some sent
    → transfer drive sector_per_drq at buf n true l mem
      ≡ with_sent sent
          (and_first (λ j. mem (buf + j)) (write_loop (drive l sent) (request_of at n buf) mem))
unfolding transfer
begin drive sector_per_drq at buf n mem l sent z d e =
    let request : sent_by (
          do_request lba48_write (nsect at n)
            (lower_div at sector_size * sector_size / sector_size))
        ≡ sent =
      ap (λ k. sent_by (do_request lba48_write (nsect at n) k)) (sector_of at)
      ∙ ap sent_by e
      ∙ sent_by-some sent in
    let aligned : (at % sector_size == 0) ≡ true = ground (arith, z) in
    let fits : ltb sector_per_drq (nsect at n) ≡ false = ground (arith, d) in
    rw aligned (
      rw fits (
        ap
          (λ c.
            with_sent c
              (and_first (λ j. mem (buf + j)) (write_loop (drive l c) (request_of at n buf) mem)))
          request))

-- A drive takes, after a write command, an interrupt for each sector that its registers count, and leaves these
-- events.
unfoldable pub Takes : Drive → Registers → List Event → List Event → Type 0
Takes drive registers events l =
    (c : List (Port × ℕ))
    → command c ≡ some write_ext
    → drive events c ≡ interrupts (count (outs c registers)) l

-- The sectors of the whole write.
write_loop-first :
    (at buf size : ℕ) (mem : ℕ → ℕ) (l : List Event)
    → at % sector_size ≡ 0
    → 0 < size
    → (w : Transferred) × (and_first
          (λ j. mem (buf + j))
          (write_loop (interrupts (nsect at size) l) (request_of at size buf) mem)
        ≡ some w)
      × IsWritten mem (out buf size mem) l w
unfolding and_first and_wrote
write_loop-first at buf size mem l z h =
    let r =
      write_loop-IsWritten (nsect 0 size - 1) at size buf mem l (fewer size h) (enough size) in
    (
      and_wrote (some (λ j. mem (buf + j))) (r.0),
      ap
            (λ k.
              and_first (λ j. mem (buf + j))
                (write_loop (interrupts k l) (request_of at size buf) mem))
            (turns at size z h)
          ∙ ap (and_first (λ j. mem (buf + j))) r.1,
      record {
        is_done = r.2.is_done;
        kept = r.2.kept;
        sectors = ap (λ o. (λ j. mem (buf + j)) ∷ o) r.2.sectors;
        events = r.2.events;
      },
    )

IsStored-IsWritten :
    (registers : Registers) (at buf size : ℕ) (mem byte : ℕ → ℕ) (l : List Event) (w : Transferred)
    (sent : List (Port × ℕ))
    → at % sector_size ≡ 0
    → 0 < size
    → IsWritten mem (out buf size mem) l w
    → command sent ≡ some write_ext
    → address (outs sent registers) ≡ at / sector_size
    → count (outs sent registers) ≡ nsect at size
    → IsStored registers at buf size mem byte (record w { sent = sent })
IsStored-IsWritten registers at buf size mem byte l w sent z h r is_write from many =
    let there : (a : ℕ)
        → stored (address (outs sent registers)) w.written byte a
          ≡ stored (at / sector_size) (out buf size mem) byte a =
      λ a.
        ap (λ k. stored k w.written byte a) from
        ∙ ap (λ o. stored (at / sector_size) o byte a) r.sectors in
    record {
      is_done = r.is_done;
      kept = r.kept;
      writes = is_write;
      counted =
          ap length r.sectors
          ∙ ap (λ k. suc k) (length-rest_of (nsect 0 size - 1) size buf mem)
          ∙ sym (turns at size z h)
          ∙ sym many;
      inside = λ a b c. there a ∙ first_bytes at buf size mem byte a z b c;
      below = λ a b. there a ∙ stored-under at (out buf size mem) byte a z b;
      above = λ a b. there a ∙ last_bytes at buf size mem byte a z h b;
    }

-- A write of at least one byte at the start of a sector, of no more sectors than the drive takes at a time,
-- is done. The drive takes an interrupt for each sector that its registers count after a write command,
-- whatever they were before. It got a write command and as many sectors as the registers count; stored from
-- the number in the registers on, they make the bytes at the position those of the buffer, and the bytes
-- outside the sectors of the write, and memory, are as they were. The drive takes less than 2 ^ 16 sectors at a
-- time, and the position is in the first 2 ^ 48 sectors.
pub transfer-IsStored :
    (drive : Drive) (registers : Registers) (sector_per_drq at buf size : ℕ) (mem byte : ℕ → ℕ)
    (events l : List Event)
    → Takes drive registers events l
    → 0 < size
    → at % sector_size ≡ 0
    → nsect at size ≤ sector_per_drq
    → sector_per_drq < 2 ^ 16
    → at < 2 ^ 57
    → (w : Transferred) × (transfer drive sector_per_drq at buf size true events mem ≡ some w)
      × IsStored registers at buf size mem byte w
      × (w.left ≡ l)
unfolding with_sent Takes
transfer-IsStored drive registers sector_per_drq at buf size mem byte events l takes h z d
      few_sectors near =
    let (sent, e, is_write, from, many) =
      address-do_request true (nsect at size) (at / sector_size) registers
        (omega (arith, d, few_sectors)) (omega (arith, near)) in
    let (w, f, r) = write_loop-first at buf size mem l z h in
    let answer : drive events sent ≡ interrupts (nsect at size) l =
      takes sent is_write ∙ ap (λ m. interrupts m l) many in
    (
      record w { sent = sent },
      begin drive sector_per_drq at buf size mem events sent z d e
          ∙ ap
              (λ l.
                with_sent sent
                  (and_first (λ j. mem (buf + j)) (write_loop l (request_of at size buf) mem)))
              answer
          ∙ ap (with_sent sent) f,
      IsStored-IsWritten registers at buf size mem byte l w sent z h r is_write from many,
      r.events,
    )
