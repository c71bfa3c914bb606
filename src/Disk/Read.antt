-- ===== src/Disk/Read.antt =====
-- Reads by `transfer` in src/srv/disk/disk.c, of any position and size.
use fat.Prelude.{
  ℕ, zero, suc, ◌+◌, ◌-◌, ◌*◌, ◌/◌, ◌%◌, ◌^◌, ◌≤◌, ◌<◌, ◌≡◌, true, false, Option, some, List, [],
  ◌∷◌, ◌==◌, ltb, leb, if◌then◌else◌, ◌&&◌, arith, refl, ap, subst, ◌∙◌, inl, inr, Bool-cases,
}
use fat.Disk.Command.{
  Port, do_request, lba48_read, Registers, outs, address, count, command, read_ext,
  address-do_request,
}
use fat.Disk.{
  Drive, sent_by, with_sent, Request, Event, ready, Status, failed, done, undone, Transferred,
  finished, failing, request_of, sector_size, copy, disk_read, read_loop, upper_div, lower_div,
  nsect, transfer,
}

-- The events of a drive that reads out `m` sectors from the number `k` on, before those to come.
pub sectors : (ℕ → ℕ) → ℕ → ℕ → List Event → List Event
sectors byte k zero l = l
sectors byte k (suc m) l = ready (λ j. byte (k * sector_size + j)) ∷ sectors byte (k + 1) m l

-- The memory after `n` bytes of the disk from `at` on came to `buf`.
pub loaded : (ℕ → ℕ) → ℕ → ℕ → ℕ → (ℕ → ℕ) → ℕ → ℕ
loaded byte at buf n mem a = if leb buf a && ltb a (buf + n) then byte (at + (a - buf)) else mem a

-- The bytes of a turn and those of the turns after it.
loaded-loaded :
    (byte : ℕ → ℕ) (at buf c n : ℕ) (mem : ℕ → ℕ) (a : ℕ)
    → loaded byte (at + c) (buf + c) n (loaded byte at buf c mem) a
      ≡ loaded byte at buf (c + n) mem a
unfolding loaded
loaded-loaded byte at buf c n mem a = ground arith

copy-loaded :
    (byte : ℕ → ℕ) (at buf c : ℕ) (mem : ℕ → ℕ) (a : ℕ)
    → copy buf (λ j. byte (at / sector_size * sector_size + j)) (at % sector_size) c mem a
      ≡ loaded byte at buf c mem a
unfolding copy loaded
copy-loaded byte at buf c mem a =
    ap (λ x. if leb buf a && ltb a (buf + c) then byte x else mem a) (there at a buf)
  where
    there :
        (at a buf : ℕ)
        → at / sector_size * sector_size + (at % sector_size + (a - buf)) ≡ at + (a - buf)
    there at a buf = omega arith

-- The transfer is done, the bytes are in the buffer, nothing was written, and these events are left.
pub record IsRead (byte : ℕ → ℕ) (at buf n : ℕ) (mem : ℕ → ℕ) (l : List Event) (w : Transferred)
    : Type 0 where
  pub is_done : w.status ≡ done
  pub bytes : (a : ℕ) → w.mem a ≡ loaded byte at buf n mem a
  pub none_written : w.written ≡ []
  pub events : w.left ≡ l

sectors-none : (byte : ℕ → ℕ) (k m : ℕ) (l : List Event) → m ≡ 0 → sectors byte k m l ≡ l
unfolding sectors
sectors-none byte k zero l e = refl
sectors-none byte k (suc m) l e = ground arith

nothing_left : (n : ℕ) → (n - n == 0) ≡ true
nothing_left n = ground arith

some_left : (n c : ℕ) → ltb c n ≡ true → (n - c == 0) ≡ false
some_left n c e = ground arith

-- The turn that takes the rest, and one that leaves some.
disk_read-last :
    (s : ℕ → ℕ) (at n buf : ℕ) (mem : ℕ → ℕ)
    → ltb (sector_size - at % sector_size) n ≡ false
    → disk_read (some s) (request_of at n buf) mem
      ≡ (done, request_of (at + n) (n - n) (buf + n), copy buf s (at % sector_size) n mem)
unfolding disk_read
disk_read-last s at n buf mem e = rw (disk_read, e, nothing_left n) refl

disk_read-other :
    (s : ℕ → ℕ) (at n buf : ℕ) (mem : ℕ → ℕ)
    → ltb (sector_size - at % sector_size) n ≡ true
    → disk_read (some s) (request_of at n buf) mem ≡ (
      undone,
      request_of
          (at + (sector_size - at % sector_size))
          (n - (sector_size - at % sector_size))
          (buf + (sector_size - at % sector_size)),
      copy buf s (at % sector_size) (sector_size - at % sector_size) mem,
    )
unfolding disk_read
disk_read-other s at n buf mem e =
    rw (disk_read, e, some_left n (sector_size - at % sector_size) e) refl

-- What the loop makes of a turn.
turn : List Event → Status × Request × (ℕ → ℕ) → Option Transferred
turn l t = elim (t.0) [
  | undone ↦ read_loop l t.1 t.2
  | done ↦ some (finished t.2 l)
  | failed ↦ some (failing t.2 l)
]

read_loop-last :
    (s : ℕ → ℕ) (l : List Event) (at n buf : ℕ) (mem : ℕ → ℕ)
    → ltb (sector_size - at % sector_size) n ≡ false
    → read_loop (ready s ∷ l) (request_of at n buf) mem
      ≡ some (finished (copy buf s (at % sector_size) n mem) l)
unfolding read_loop turn
read_loop-last s l at n buf mem e = ap (turn l) (disk_read-last s at n buf mem e)

read_loop-other :
    (s : ℕ → ℕ) (l : List Event) (at n c buf : ℕ) (mem : ℕ → ℕ)
    → sector_size - at % sector_size ≡ c
    → ltb c n ≡ true
    → read_loop (ready s ∷ l) (request_of at n buf) mem
      ≡ read_loop l (request_of (at + c) (n - c) (buf + c)) (copy buf s (at % sector_size) c mem)
unfolding read_loop turn
read_loop-other s l at n c buf mem h e =
    subst
      (λ c.
        ltb c n ≡ true
        → read_loop (ready s ∷ l) (request_of at n buf) mem
          ≡ read_loop l (request_of (at + c) (n - c) (buf + c))
              (copy buf s (at % sector_size) c mem))
      h (λ e. ap (turn l) (disk_read-other s at n buf mem e)) e

next_sector :
    (at : ℕ) → at / sector_size + 1 ≡ (at + (sector_size - at % sector_size)) / sector_size
next_sector at = ground arith

rest_loaded :
    (byte : ℕ → ℕ) (at buf n : ℕ) (mem : ℕ → ℕ) (a : ℕ)
    → ltb (sector_size - at % sector_size) n ≡ true
    → loaded byte
        (at + (sector_size - at % sector_size))
        (buf + (sector_size - at % sector_size))
        (n - (sector_size - at % sector_size))
        (copy buf
          (λ j. byte (at / sector_size * sector_size + j))
          (at % sector_size)
          (sector_size - at % sector_size)
          mem)
        a
      ≡ loaded byte at buf n mem a
unfolding loaded
rest_loaded byte at buf n mem a e =
    ground (arith, copy-loaded byte at buf (sector_size - at % sector_size) mem a)

-- As many sectors as the bytes reach into.
read_loop-IsRead :
    (byte : ℕ → ℕ) (m at n buf : ℕ) (mem : ℕ → ℕ) (l : List Event)
    → 0 < n
    → at + n ≤ (at / sector_size + m) * sector_size
    → (at / sector_size + m) * sector_size < at + n + sector_size
    → (w : Transferred) × (read_loop (sectors byte (at / sector_size) m l) (request_of at n buf) mem
        ≡ some w)
      × IsRead byte at buf n mem l w
unfolding sectors
read_loop-IsRead byte zero at n buf mem l h a b = ground arith
read_loop-IsRead byte (suc m) at n buf mem l h a b =
    let s : ℕ → ℕ = λ j. byte (at / sector_size * sector_size + j) in
    elim (Bool-cases (ltb (sector_size - at % sector_size) n)) [
      | inr e ↦ (
        _,
        read_loop-last s (sectors byte (at / sector_size + 1) m l) at n buf mem e,
        record {
          is_done = refl;
          bytes = copy-loaded byte at buf n mem;
          none_written = refl;
          events = sectors-none byte (at / sector_size + 1) m l (ground arith);
        },
      )
      | inl e ↦
          let c = sector_size - at % sector_size in
          let mem' = copy buf s (at % sector_size) c mem in
          let ih =
            read_loop-IsRead byte m (at + c) (n - c) (buf + c) mem' l (ground arith) (ground arith)
              (ground arith) in
          (
            ih.0,
            read_loop-other s (sectors byte (at / sector_size + 1) m l) at n c buf mem refl e
                ∙ ap
                    (λ k.
                      read_loop (sectors byte k m l) (request_of (at + c) (n - c) (buf + c)) mem')
                    (next_sector at)
                ∙ ih.1,
            record {
              is_done = ih.2.is_done;
              bytes = λ i. ih.2.bytes i ∙ rest_loaded byte at buf n mem i e;
              none_written = ih.2.none_written;
              events = ih.2.events;
            },
          )
    ]

not_more : (a b : ℕ) → a ≤ b → ltb b a ≡ false
not_more a b h = ground arith

enough : (at n : ℕ) → at + n ≤ (at / sector_size + nsect at n) * sector_size
unfolding nsect upper_div lower_div
enough at n = ground arith

few : (at n : ℕ) → 0 < n → (at / sector_size + nsect at n) * sector_size < at + n + sector_size
unfolding nsect upper_div lower_div
few at n h = ground arith

pub sent_by-some : (l : List (Port × ℕ)) → sent_by (some l) ≡ l
unfolding sent_by
sent_by-some l = refl

-- The sector of the position, as `transfer` comes to it.
pub sector_of : (at : ℕ) → lower_div at sector_size * sector_size / sector_size ≡ at / sector_size
unfolding lower_div
sector_of at = omega arith

transfer_reading :
    (drive : Drive) (sector_per_drq at buf size : ℕ) (events : List Event) (mem : ℕ → ℕ)
    (sent : List (Port × ℕ))
    → nsect at size ≤ sector_per_drq
    → do_request lba48_read (nsect at size) (at / sector_size) ≡ some sent
    → transfer drive sector_per_drq at buf size false events mem
      ≡ with_sent sent (read_loop (drive events sent) (request_of at size buf) mem)
unfolding transfer
transfer_reading drive sector_per_drq at buf size events mem sent d e =
    let request : sent_by (
          do_request lba48_read (nsect at size)
            (lower_div at sector_size * sector_size / sector_size))
        ≡ sent =
      ap (λ k. sent_by (do_request lba48_read (nsect at size) k)) (sector_of at)
      ∙ ap sent_by e
      ∙ sent_by-some sent in
    rw (not_more (nsect at size) sector_per_drq d)
      (ap (λ l. with_sent l (read_loop (drive events l) (request_of at size buf) mem)) request)

-- A drive reads out, after a read command, as many sectors as its registers count, from the number in them on,
-- and leaves these events.
unfoldable pub ReadsOut : Drive → (ℕ → ℕ) → Registers → List Event → List Event → Type 0
ReadsOut drive byte registers events l =
    (c : List (Port × ℕ))
    → command c ≡ some read_ext
    → drive events c ≡ sectors byte (address (outs c registers)) (count (outs c registers)) l

-- A read of at least one byte, of no more sectors than the drive gives at a time, is done. The drive reads out,
-- after a read command, as many sectors as its registers then count, from the number in them on, whatever the
-- registers were before. The buffer then has the bytes of the disk from the position on, the rest of memory is
-- as it was, nothing was written and no further event was taken. The drive gives less than 2 ^ 16 sectors at
-- a time, and the position is in the first 2 ^ 48 sectors.
pub transfer-IsRead :
    (drive : Drive) (byte : ℕ → ℕ) (registers : Registers) (sector_per_drq at buf size : ℕ)
    (mem : ℕ → ℕ) (events l : List Event)
    → ReadsOut drive byte registers events l
    → 0 < size
    → nsect at size ≤ sector_per_drq
    → sector_per_drq < 2 ^ 16
    → at < 2 ^ 57
    → (w : Transferred) × (transfer drive sector_per_drq at buf size false events mem ≡ some w)
      × IsRead byte at buf size mem l w
unfolding with_sent ReadsOut
transfer-IsRead drive byte registers sector_per_drq at buf size mem events l reads h d few_sectors
      near =
    let (sent, e, is_read, from, many) =
      address-do_request false (nsect at size) (at / sector_size) registers
        (omega (arith, d, few_sectors)) (omega (arith, near)) in
    let r =
      read_loop-IsRead byte (nsect at size) at size buf mem l h (enough at size) (few at size h) in
    let answer : drive events sent ≡ sectors byte (at / sector_size) (nsect at size) l =
      reads sent is_read
      ∙ ap (λ k. sectors byte k (count (outs sent registers)) l) from
      ∙ ap (λ m. sectors byte (at / sector_size) m l) many in
    (
      record r.0 { sent = sent },
      transfer_reading drive sector_per_drq at buf size events mem sent d e
          ∙ ap (λ l. with_sent sent (read_loop l (request_of at size buf) mem)) answer
          ∙ ap (with_sent sent) r.1,
      record {
        is_done = r.2.is_done;
        bytes = r.2.bytes;
        none_written = r.2.none_written;
        events = r.2.events;
      },
    )
