-- ===== src/Disk.antt =====
-- src/srv/disk/disk.c: the driver of the disk. A sector is the function from an offset to its byte, and
-- memory one from an address. What the drive does at each interrupt comes as a sequence of events, and the
-- drive is a function from the events to come and the values that go to its ports to the events after them.
-- The loops that wait for a bit of its status are left out. Sums of positions are exact.
pub mod Command
pub mod Read
pub mod Stored
pub mod Write
pub mod Part
mod Examples
use fat.Disk.Command.{Port, do_request, lba48_write, lba48_read}
use fat.Prelude.{
  ℕ, zero, suc, ◌+◌, ◌-◌, ◌*◌, ◌/◌, ◌%◌, ◌^◌, Bool, true, false, Option, none, some, List, [], ◌∷◌,
  ◌++◌, ◌==◌, ltb, leb, not, if◌then◌else◌, ◌&&◌,
}

abbrev pub sector_size : ℕ
sector_size = 512

-- ERROR, DONE and UNDONE.
pub data Status : Type 0 where
  failed : Status
  done : Status
  undone : Status

pub record Request : Type 0 where
  pub position : ℕ
  pub size : ℕ
  pub buffer : ℕ

-- A message that failed, an interrupt with the error bit, or one with the data of a sector.
pub data Event : Type 0 where
  refused : Event
  error : Event
  ready : (ℕ → ℕ) → Event

-- `memcpy(to, from, n)`, from a sector at an offset.
pub copy : ℕ → (ℕ → ℕ) → ℕ → ℕ → (ℕ → ℕ) → ℕ → ℕ
copy to from offset n mem a = if leb to a && ltb a (to + n) then from (offset + (a - to)) else mem a

-- A turn after an interrupt: the status, the request and the memory after it.
pub disk_read : Option (ℕ → ℕ) → Request → (ℕ → ℕ) → Status × Request × (ℕ → ℕ)
unfolding copy
disk_read none r mem = (failed, r, mem)
disk_read (some data_port) r mem =
    let offset = r.position % sector_size in
    let copysz = if ltb (sector_size - offset) r.size then sector_size - offset else r.size in
    (
      if r.size - copysz == 0 then done else undone,
      record { position = r.position + copysz; size = r.size - copysz; buffer = r.buffer + copysz },
      copy r.buffer data_port offset copysz mem,
    )

-- The status, the request and the sector that is written, if one is.
pub disk_write : Option (ℕ → ℕ) → Request → (ℕ → ℕ) → Status × Request × Option (ℕ → ℕ)
disk_write none r mem = (failed, r, none)
disk_write (some data_port) r mem =
    if ltb sector_size r.size
    then (let size = r.size - sector_size in
        let buffer = r.buffer + sector_size in
        let copysz = if ltb sector_size size then sector_size else size in
        (
          undone,
          record { position = r.position; size = size; buffer = buffer },
          some (λ j. if ltb j copysz then mem (buffer + j) else 0),
        ))
    else (done, r, none)

-- What a transfer leaves: its status, the memory, the values that went to the ports and the sectors that went
-- to the drive in their order, and the events to come.
pub record Transferred : Type 0 where
  pub status : Status
  pub mem : ℕ → ℕ
  pub sent : List (Port × ℕ)
  pub written : List (ℕ → ℕ)
  pub left : List Event

abbrev pub failing : (ℕ → ℕ) → List Event → Transferred
failing mem l = record { status = failed; mem = mem; sent = []; written = []; left = l }

abbrev pub finished : (ℕ → ℕ) → List Event → Transferred
finished mem l = record { status = done; mem = mem; sent = []; written = []; left = l }

-- The loop of `transfer`; `none` waits for an interrupt that does not come.
pub read_loop : List Event → Request → (ℕ → ℕ) → Option Transferred
unfolding disk_read
read_loop [] r mem = none
read_loop (refused ∷ l) r mem = some (failing mem l)
read_loop (error ∷ l) r mem = some (failing mem l)
read_loop (ready s ∷ l) r mem =
    let t = disk_read (some s) r mem in
    let rest = read_loop l t.1 t.2 in
    elim (t.0) [ undone ↦ rest | done ↦ some (finished t.2 l) | failed ↦ some (failing t.2 l) ]

-- A sector before the others that are written.
pub and_wrote : Option (ℕ → ℕ) → Transferred → Transferred
and_wrote none t = t
and_wrote (some s) t = record t { written = s ∷ t.written }

pub write_loop : List Event → Request → (ℕ → ℕ) → Option Transferred
unfolding disk_write and_wrote
write_loop [] r mem = none
write_loop (refused ∷ l) r mem = some (failing mem l)
write_loop (error ∷ l) r mem = some (failing mem l)
write_loop (ready s ∷ l) r mem =
    let t = disk_write (some s) r mem in
    let rest = write_loop l t.1 mem in
    elim (t.0) [
      | undone ↦ elim rest [ none ↦ none | some w ↦ some (and_wrote t.2 w) ]
      | done ↦ some (finished mem l)
      | failed ↦ some (failing mem l)
    ]

pub lower_div : ℕ → ℕ → ℕ
lower_div a b = a / b

pub upper_div : ℕ → ℕ → ℕ
upper_div a b = a / b + (if ltb 0 (a % b) then 1 else 0)

pub nsect : ℕ → ℕ → ℕ
unfolding upper_div lower_div
nsect at size =
    (upper_div (at + size) sector_size * sector_size - lower_div at sector_size * sector_size)
    / sector_size

abbrev pub request_of : ℕ → ℕ → ℕ → Request
request_of at size buf = record { position = at; size = size; buffer = buf }

abbrev pub Drive : Type 0
Drive = List Event → List (Port × ℕ) → List Event

-- What goes to the ports; the result of `do_request` is not tested.
pub sent_by : Option (List (Port × ℕ)) → List (Port × ℕ)
sent_by none = []
sent_by (some l) = l

pub with_sent : List (Port × ℕ) → Option Transferred → Option Transferred
with_sent l none = none
with_sent l (some w) = some (record w { sent = l })

-- The first sector of a write, which goes out with the command, before those of the loop.
pub and_first : (ℕ → ℕ) → Option Transferred → Option Transferred
unfolding and_wrote
and_first s none = none
and_first s (some w) = some (and_wrote (some s) w)

pub transfer : Drive → ℕ → ℕ → ℕ → ℕ → Bool → List Event → (ℕ → ℕ) → Option Transferred
unfolding nsect lower_div read_loop write_loop and_first sent_by with_sent
transfer drive sector_per_drq at buf size write events mem =
    let refusal = some (failing mem events) in
    let sector = lower_div at sector_size * sector_size / sector_size in
    let cmd = if write then lba48_write else lba48_read in
    let r = request_of at size buf in
    let sent = sent_by (do_request cmd (nsect at size) sector) in
    let events' = drive events sent in
    if write && not (at % sector_size == 0)
    then refusal
    else if ltb sector_per_drq (nsect at size)
    then refusal
    else with_sent sent (
        if write
        then and_first (λ j. mem (buf + j)) (write_loop events' r mem)
        else read_loop events' r mem)
