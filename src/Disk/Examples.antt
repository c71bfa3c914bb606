-- ===== src/Disk/Examples.antt =====
-- The theorems on src/srv/disk/disk.c at a disk whose bytes are the numbers of their sectors.
use fat.Prelude.{
  ℕ, ◌/◌, ◌≡◌, Option, none, some, true, false, List, [], if◌then◌else◌, ◌==◌, arith, ap,
}
use fat.Disk.{Drive, Event, Transferred, nsect, upper_div, lower_div, transfer}
use fat.Disk.Command.{Registers, outs, address, count, command, read_ext, write_ext}
use fat.Disk.Read.{sectors, IsRead, ReadsOut, transfer-IsRead}
use fat.Disk.Write.{interrupts, IsStored, Takes, transfer-IsStored}

abbrev disk : ℕ → ℕ
disk a = a / 512

abbrev memory : ℕ → ℕ
memory a = a

abbrev registers : Registers
registers = record { cnt = (1, 2); low = (3, 4); mid = (5, 6); high = (7, 8) }

-- A drive that carries out the two commands.
abbrev answer : Option ℕ → List Event → List Event → List Event
answer none reading writing = []
answer (some n) reading writing =
    if n == read_ext then reading else if n == write_ext then writing else []

abbrev drive : Drive
drive events c =
    answer (command c) (sectors disk (address (outs c registers)) (count (outs c registers)) [])
      (interrupts (count (outs c registers)) [])

drive-ReadsOut : ReadsOut drive disk registers [] []
unfolding ReadsOut
drive-ReadsOut c e =
    ap
      (λ o.
        answer o (sectors disk (address (outs c registers)) (count (outs c registers)) [])
          (interrupts (count (outs c registers)) []))
      e

drive-Takes : Takes drive registers [] []
unfolding Takes
drive-Takes c e =
    ap
      (λ o.
        answer o (sectors disk (address (outs c registers)) (count (outs c registers)) [])
          (interrupts (count (outs c registers)) []))
      e

transfer-IsRead_example :
    (w : Transferred) × (transfer drive 16 1000 4096 700 false [] memory ≡ some w)
    × IsRead disk 1000 4096 700 memory [] w
unfolding nsect upper_div lower_div
transfer-IsRead_example =
    transfer-IsRead drive disk registers 16 1000 4096 700 memory [] [] drive-ReadsOut (ground arith)
      (ground arith) (ground arith) (ground arith)

transfer-IsStored_example :
    (w : Transferred) × (transfer drive 16 1024 4096 700 true [] memory ≡ some w)
    × IsStored registers 1024 4096 700 memory disk w
    × (w.left ≡ [])
unfolding nsect upper_div lower_div
transfer-IsStored_example =
    transfer-IsStored drive registers 16 1024 4096 700 memory disk [] [] drive-Takes (ground arith)
      (ground arith) (ground arith) (ground arith) (ground arith)
