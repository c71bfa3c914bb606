-- ===== src/Vfs/Files.antt =====
-- The open files of a process in src/srv/vfs/vfs.c: what a write to one of them leaves, and the calls
-- that need one.
pub mod Positions
pub mod Open
use fat.Prelude.{
  ℕ, zero, suc, ◌+◌, ◌≤◌, ◌<◌, ◌≡◌, ◌≢◌, ◌⊎◌, Bool, true, false, Option, none, some, ◌==◌, ltb,
  lt→ltb, ltb→lt, if◌then◌else◌, List, arith, refl, ap, subst, sym, ◌∙◌, Bool-cases, Option-cases,
  inl, inr, ℤ, pos, negsuc, ◌+ℤ◌,
}
use fat.Vfs.{
  File, ProcFile, Vfs, Servers, nr_files, map_proc_file, write_proc_file, set_filp, set_pos,
  open_table, getfilp,
}
use fat.Vfs.Calls.{failed, with_file, vfs_read, vfs_write, vfs_getdents, vfs_lseek}
use fat.Vfs.Handle.{
  Request, handle, read, write, open_file, close, lseek, getcwd, chdir, stat, getdents, mkdir,
  forkfs, execfs, freefs, unsupported,
}
use fat.Vfs.Table.{map-write_proc_file}

-- The process has the table, and the file in its slot.
pub record IsOpen (pid fd : ℕ) (p : ProcFile) (file : File) (v : Vfs) : Type 0 where
  pub table : map_proc_file pid v ≡ some p
  pub below : fd < nr_files
  pub slot : p.filp fd ≡ some file

pub open_table-table :
    (pid : ℕ) (p : ProcFile) (v : Vfs)
    → map_proc_file pid v ≡ some p
    → open_table pid v ≡ some (p, v)
unfolding open_table
open_table-table pid p v e = rw (open_table, e) refl

getfilp-table :
    (pid fd : ℕ) (p : ProcFile) (v : Vfs)
    → map_proc_file pid v ≡ some p
    → getfilp pid fd v ≡ some (if ltb fd nr_files then p.filp fd else none, v)
unfolding getfilp
getfilp-table pid fd p v e = rw (getfilp, open_table-table pid p v e) refl

pub getfilp-IsOpen :
    (pid fd : ℕ) (p : ProcFile) (file : File) (v : Vfs)
    → IsOpen pid fd p file v
    → getfilp pid fd v ≡ some (some file, v)
getfilp-IsOpen pid fd p file v o =
    getfilp-table pid fd p v o.table ∙ rw (lt→ltb fd nr_files o.below, o.slot) refl

-- A write to one slot of the table.
pub map-set_filp :
    (pid fd : ℕ) (o : Option File) (p : ProcFile) (v : Vfs)
    → map_proc_file pid v ≡ some p
    → map_proc_file pid (write_proc_file pid (set_filp fd o) v) ≡ some (set_filp fd o p)
unfolding set_filp
map-set_filp pid fd o p v e =
    ground (arith, map-write_proc_file pid pid (set_filp fd o) v (λ p. refl))

-- The descriptor that a call needs an open file for.
unfoldable pub descriptor : Request → Option ℕ
descriptor (read fd size) = some fd
descriptor (write fd size) = some fd
descriptor (open_file path oflag) = none
descriptor (close fd) = none
descriptor (lseek fd offset whence) = some fd
descriptor (getcwd size) = none
descriptor (chdir path) = none
descriptor (stat path) = none
descriptor (getdents fd count) = some fd
descriptor (mkdir name mode) = none
descriptor (forkfs pid) = none
descriptor execfs = none
descriptor freefs = none
descriptor unsupported = none

getfilp-not_open :
    (pid fd : ℕ) (p : ProcFile) (v : Vfs)
    → map_proc_file pid v ≡ some p
    → (nr_files ≤ fd) ⊎ (p.filp fd ≡ none)
    → getfilp pid fd v ≡ some (none, v)
getfilp-not_open pid fd p v e h = getfilp-table pid fd p v e ∙ ground (arith, ltb→lt fd nr_files)

same_fd : (fd fd' : ℕ) → some fd' ≡ some fd → fd ≡ fd'
same_fd fd fd' d = ground arith

with_file-not_open :
    (pid fd fd' : ℕ) (p : ProcFile) (v : Vfs) (f : File → Vfs → ℤ × Vfs)
    → map_proc_file pid v ≡ some p
    → some fd' ≡ some fd
    → (nr_files ≤ fd) ⊎ (p.filp fd ≡ none)
    → with_file (getfilp pid fd' v) f ≡ some (failed, v)
unfolding with_file
with_file-not_open pid fd fd' p v f e d h =
    let there = subst (λ x. (nr_files ≤ x) ⊎ (p.filp x ≡ none)) (same_fd fd fd' d) h in
    ap (λ o. with_file o f) (getfilp-not_open pid fd' p v e there)

-- A read, a write, a seek and a listing of a descriptor that is not below NR_FILES or has no file answer
-- -1 and leave the state as it is, in a process that has a table.
handle-not_open :
    (srv : Servers) (depth pid fd : ℕ) (r : Request) (p : ProcFile) (v : Vfs)
    → map_proc_file pid v ≡ some p
    → descriptor r ≡ some fd
    → (nr_files ≤ fd) ⊎ (p.filp fd ≡ none)
    → handle srv depth pid r v ≡ some (failed, v)
unfolding handle descriptor vfs_read vfs_write vfs_lseek vfs_getdents
handle-not_open srv depth pid fd (read fd' size) p v e d h =
    with_file-not_open pid fd fd' p v _ e d h
handle-not_open srv depth pid fd (write fd' size) p v e d h =
    with_file-not_open pid fd fd' p v _ e d h
handle-not_open srv depth pid fd (lseek fd' offset whence) p v e d h =
    with_file-not_open pid fd fd' p v _ e d h
handle-not_open srv depth pid fd (getdents fd' count) p v e d h =
    with_file-not_open pid fd fd' p v _ e d h
handle-not_open srv depth pid fd (open_file path oflag) p v e d h = ground arith
handle-not_open srv depth pid fd (close fd') p v e d h = ground arith
handle-not_open srv depth pid fd (getcwd size) p v e d h = ground arith
handle-not_open srv depth pid fd (chdir path) p v e d h = ground arith
handle-not_open srv depth pid fd (stat path) p v e d h = ground arith
handle-not_open srv depth pid fd (mkdir name mode) p v e d h = ground arith
handle-not_open srv depth pid fd (forkfs child) p v e d h = ground arith
handle-not_open srv depth pid fd (execfs) p v e d h = ground arith
handle-not_open srv depth pid fd (freefs) p v e d h = ground arith
handle-not_open srv depth pid fd (unsupported) p v e d h = ground arith
