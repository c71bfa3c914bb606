-- ===== src/Vfs.antt =====
-- src/srv/vfs/vfs.c: the server of files. Dentries stand in a store by their address, with 0 for NULL,
-- and `malloc` gives the next address that was never used. A `struct file` belongs to one descriptor,
-- and is kept in its slot. A name is the list of its characters. Sums of offsets are exact, where an
-- overflow of the C type has no meaning.
pub mod Path
pub mod Calls
pub mod Fork
pub mod Handle
pub mod Mount
pub mod Table
pub mod Counts
pub mod Walks
pub mod Isolation
pub mod Files
mod Examples
use fat.Prelude.{
  ℕ, zero, suc, ◌+◌, ◌-◌, ◌*◌, ◌/◌, ◌%◌, ◌^◌, Bool, true, false, Option, none, some, List, [], ◌∷◌,
  ◌++◌, ◌==◌, ltb, leb, if◌then◌else◌, ℤ, pos, negsuc, ◌+ℤ◌,
}

pub record Dentry : Type 0 where
  pub f_fs_pid : ℕ
  pub f_flags : ℕ
  pub f_ino : ℕ
  pub f_count : ℤ
  pub f_size : ℕ
  pub f_mode : ℕ
  pub f_name : List ℕ
  pub f_parent : ℕ
  pub f_children : List ℕ

pub record File : Type 0 where
  pub f_mode : ℕ
  pub f_dentry : ℕ
  pub f_pos : ℕ

abbrev pub nr_files : ℕ
nr_files = 64

pub record ProcFile : Type 0 where
  pub pid : ℕ
  pub filp : ℕ → Option File
  pub cwd : ℕ

-- The global variables of the server. `fresh` is the next address of `malloc`.
pub record Vfs : Type 0 where
  pub dentry : ℕ → Dentry
  pub fresh : ℕ
  pub file_map : ℕ → List ProcFile
  pub root_entry : ℕ
  pub stdin : ℕ
  pub stdout : ℕ
  pub stderr : ℕ

abbrev pub file_map_size : ℕ
file_map_size = 1024

-- The first entry of the pid.
pub find_pid : ℕ → List ProcFile → Option ProcFile
find_pid pid [] = none
find_pid pid (p ∷ l) = if p.pid == pid then some p else find_pid pid l

-- `list_del` of that entry.
pub remove_pid : ℕ → List ProcFile → List ProcFile
remove_pid pid [] = []
remove_pid pid (p ∷ l) = if p.pid == pid then l else p ∷ remove_pid pid l

-- A write to that entry.
pub update_pid : ℕ → (ProcFile → ProcFile) → List ProcFile → List ProcFile
update_pid pid f [] = []
update_pid pid f (p ∷ l) = if p.pid == pid then f p ∷ l else p ∷ update_pid pid f l

pub set_bucket : ℕ → (List ProcFile → List ProcFile) → Vfs → Vfs
set_bucket pid f v = record v {
  file_map = λ i. if i == pid % file_map_size then f (v.file_map i) else v.file_map i;
}

pub map_proc_file : ℕ → Vfs → Option ProcFile
unfolding find_pid
map_proc_file pid v = find_pid pid (v.file_map (pid % file_map_size))

pub unmap_proc_file : ℕ → Vfs → Vfs
unfolding set_bucket remove_pid
unmap_proc_file pid v = elim (map_proc_file pid v) [
  | none ↦ v
  | some p ↦ set_bucket pid (remove_pid pid) v
]

-- `none` is the failed assertion. A table whose pid is there already is not appended.
pub append_proc_file : ProcFile → Vfs → Option Vfs
unfolding set_bucket
append_proc_file p v = if p.pid == 0 then none else elim (map_proc_file p.pid v) [
  | some q ↦ some v
  | none ↦ some (set_bucket p.pid (λ l. l ++ p ∷ []) v)
]

-- A write through the pointer that `map_proc_file` returned.
pub write_proc_file : ℕ → (ProcFile → ProcFile) → Vfs → Vfs
unfolding set_bucket update_pid
write_proc_file pid f v = set_bucket pid (update_pid pid f) v

pub set_filp : ℕ → Option File → ProcFile → ProcFile
set_filp fd o p = record p { filp = λ i. if i == fd then o else p.filp i }

-- `f_count += n`.
pub add_count : ℕ → ℤ → Vfs → Vfs
add_count d n v = record v {
  dentry = λ e.
      if e == d then record (v.dentry e) { f_count = (v.dentry e).f_count +ℤ n } else v.dentry e;
}

abbrev pub new_file : ℕ → ℕ → File
new_file mode d = record { f_mode = mode; f_dentry = d; f_pos = 0 }

pub make_filp : ℕ → ℕ → Vfs → File × Vfs
unfolding add_count
make_filp mode d v = (new_file mode d, add_count d (pos 1) v)

pub free_filp : File → Vfs → Vfs
unfolding add_count
free_filp file v = add_count file.f_dentry (negsuc 0) v

-- The three standard files, as a table, and the state after their `make_filp`.
pub std_files : Vfs → (ℕ → Option File) × Vfs
unfolding make_filp
std_files v =
    let (f0, v0) = make_filp (v.dentry v.stdin).f_mode v.stdin v in
    let (f1, v1) = make_filp (v.dentry v.stdout).f_mode v.stdout v0 in
    let (f2, v2) = make_filp (v.dentry v.stderr).f_mode v.stderr v1 in
    (
      λ fd.
          if fd == 0
          then some f0
          else if fd == 1
          then some f1
          else if fd == 2
          then some f2
          else none,
      v2,
    )

pub init_proc_file : ℕ → Vfs → ProcFile × Vfs
unfolding std_files add_count
init_proc_file pid v =
    let r = std_files (add_count v.root_entry (pos 1) v) in
    (record { pid = pid; filp = r.0; cwd = v.root_entry }, r.1)

-- The table of the process, which is made if it has none; `none` is the failed assertion.
pub open_table : ℕ → Vfs → Option (ProcFile × Vfs)
unfolding init_proc_file append_proc_file
open_table pid v = elim (map_proc_file pid v) [
  | some p ↦ some (p, v)
  | none ↦
      let r = init_proc_file pid v in
      elim (append_proc_file r.0 r.1) [ none ↦ none | some v' ↦ some (r.0, v') ]
]

-- A descriptor is its 32 bits, so that the negative ones are not below `NR_FILES`.
pub getfilp : ℕ → ℕ → Vfs → Option (Option File × Vfs)
unfolding open_table
getfilp pid fd v = elim (open_table pid v) [
  | none ↦ none
  | some (p, v') ↦ some (if ltb fd nr_files then p.filp fd else none, v')
]

-- `filp->f_pos = n`, through the slot of the descriptor.
pub set_pos : ℕ → ℕ → ℕ → Vfs → Vfs
unfolding write_proc_file set_filp
set_pos pid fd n v =
    write_proc_file pid
      (λ p. elim (p.filp fd) [
        | none ↦ p
        | some file ↦ set_filp fd (some (record file { f_pos = n })) p
      ])
      v

-- What the servers behind the files answer. `none` is a message that failed.
pub record Attr : Type 0 where
  pub ino : ℕ
  pub size : ℕ
  pub mode : ℕ

pub record Servers : Type 0 where
  pub kmap_ok : Bool
  pub fs_lookup : ℕ → ℕ → List ℕ → Option Attr
  pub fs_read : ℕ → ℕ → ℕ → ℕ → ℕ → Option ℤ
  pub fs_write : ℕ → ℕ → ℕ → ℕ → ℕ → Option ℤ
  pub fs_stat : ℕ → ℕ → Bool
  pub fs_getdents : ℕ → ℕ → ℕ → ℕ → Option ℤ
  pub fs_mkdir : ℕ → ℕ → List ℕ → ℕ → Option ℤ
  pub fs_mount : ℕ → ℕ → Option Attr
