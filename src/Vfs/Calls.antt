-- ===== src/Vfs/Calls.antt =====
-- The calls on files in src/srv/vfs/vfs.c, from `vfs_read` to `vfs_mkdir`. A call gives its result and
-- the state; `none` is a fault of the server, a failed assertion among them.
use fat.Prelude.{
  ℕ, zero, suc, ◌+◌, ◌/◌, ◌%◌, Bool, Option, none, some, List, ◌==◌, ltb, if◌then◌else◌, ℤ, pos,
  negsuc, ◌+ℤ◌,
}
use fat.Vfs.{
  Dentry, File, Vfs, Servers, nr_files, map_proc_file, write_proc_file, set_filp, make_filp,
  free_filp, open_table, getfilp, set_pos, add_count,
}
use fat.Vfs.Path.{Looked, fault, missing, found, vfs_lookup, getcwdstr}

abbrev pub failed : ℤ
failed = negsuc 0

-- What a call returns and the state after it.
abbrev pub Result : Type 0
Result = Option (ℤ × Vfs)

-- A positive answer moves the file on.
unfoldable pub advance : ℕ → ℕ → File → Option ℤ → Vfs → ℤ × Vfs
unfolding set_pos
advance pid fd file none v = (failed, v)
advance pid fd file (some (pos n)) v = (pos n, set_pos pid fd (file.f_pos + n) v)
advance pid fd file (some (negsuc n)) v = (negsuc n, v)

-- The rest of a call that needs the file of a descriptor.
unfoldable pub with_file : Option (Option File × Vfs) → (File → Vfs → ℤ × Vfs) → Result
with_file none f = none
with_file (some (none, v)) f = some (failed, v)
with_file (some (some file, v)) f = some (f file v)

unfoldable pub vfs_read : Servers → ℕ → ℕ → ℕ → Vfs → Result
unfolding getfilp with_file advance
vfs_read srv pid fd size v = with_file (getfilp pid fd v) (λ file v'.
    let d = v'.dentry file.f_dentry in
    if srv.kmap_ok
    then advance pid fd file (srv.fs_read d.f_fs_pid d.f_ino d.f_size file.f_pos size) v'
    else (failed, v'))

unfoldable pub vfs_write : Servers → ℕ → ℕ → ℕ → Vfs → Result
unfolding getfilp with_file advance
vfs_write srv pid fd size v = with_file (getfilp pid fd v) (λ file v'.
    let d = v'.dentry file.f_dentry in
    if srv.kmap_ok
    then advance pid fd file (srv.fs_write d.f_fs_pid d.f_ino d.f_size file.f_pos size) v'
    else (failed, v'))

unfoldable pub vfs_getdents : Servers → ℕ → ℕ → ℕ → Vfs → Result
unfolding getfilp with_file set_pos
vfs_getdents srv pid fd nbytes v = with_file (getfilp pid fd v) (λ file v'.
    let d = v'.dentry file.f_dentry in
    elim (srv.fs_getdents d.f_fs_pid d.f_ino file.f_pos nbytes) [
      | none ↦ (failed, v')
      | some r ↦ elim r [
        | pos n ↦ (pos n, set_pos pid fd (file.f_pos + n) v')
        | negsuc n ↦ (failed, v')
      ]
    ])

-- The slot of the lowest free descriptor from `fd` on, in `turns` turns.
unfoldable pub free_slot : ℕ → ℕ → (ℕ → Option File) → Option ℕ
free_slot zero fd filp = none
free_slot (suc turns) fd filp =
    let later = free_slot turns (fd + 1) filp in
    elim (filp fd) [ none ↦ some fd | some file ↦ later ]

-- `oflag & O_APPEND`
abbrev pub is_append : ℕ → Bool
is_append oflag = oflag / 1024 % 2 == 1

-- What `vfs_open` does once it has the dentry.
unfoldable pub install : ℕ → (ℕ → Option File) → ℕ → ℕ → Vfs → ℤ × Vfs
unfolding make_filp free_slot write_proc_file set_filp
install pid filp oflag d v =
    let r = make_filp (v.dentry d).f_mode d v in
    let file = if is_append oflag then record (r.0) { f_pos = (v.dentry d).f_size } else r.0 in
    elim (free_slot nr_files 0 filp) [
      | none ↦ (failed, r.1)
      | some fd ↦ (pos fd, write_proc_file pid (set_filp fd (some file)) r.1)
    ]

-- The rest of a call that looks a path up. A dentry that is NULL counts as not found.
unfoldable pub with_dentry : Option Looked → (ℕ → Vfs → ℤ × Vfs) → Result
with_dentry none f = none
with_dentry (some fault) f = none
with_dentry (some (missing v)) f = some (failed, v)
with_dentry (some (found d v)) f = some (if d == 0 then (failed, v) else f d v)

unfoldable pub vfs_open : Servers → ℕ → List ℕ → ℕ → Vfs → Result
unfolding open_table with_dentry install
vfs_open srv pid path oflag v = elim (open_table pid v) [
  | none ↦ none
  | some (p, v') ↦ with_dentry (vfs_lookup srv p.cwd path v') (install pid p.filp oflag)
]

-- A descriptor outside the table is read outside the array.
unfoldable pub vfs_close : ℕ → ℕ → Vfs → Result
unfolding free_filp write_proc_file set_filp
vfs_close pid fd v = elim (map_proc_file pid v) [
  | none ↦ none
  | some p ↦
      if ltb fd nr_files
      then elim (p.filp fd) [
        | none ↦ some (pos 0, v)
        | some file ↦ some (pos 0, write_proc_file pid (set_filp fd none) (free_filp file v))
      ]
      else none
]

-- The offset that SEEK_SET, SEEK_CUR and SEEK_END count from.
unfoldable pub seek_base : ℕ → File → Dentry → Option ℕ
seek_base whence file d =
    if whence == 0
    then some 0
    else if whence == 1
    then some file.f_pos
    else if whence == 2
    then some d.f_size
    else none

unfoldable pub seek_to : ℕ → ℕ → Option ℕ → ℤ → Vfs → ℤ × Vfs
unfolding set_pos
seek_to pid fd none offset v = (failed, v)
seek_to pid fd (some base) offset v = elim (pos base +ℤ offset) [
  | pos n ↦ (pos n, set_pos pid fd n v)
  | negsuc n ↦ (failed, v)
]

unfoldable pub vfs_lseek : ℕ → ℕ → ℤ → ℕ → Vfs → Result
unfolding getfilp with_file seek_base seek_to
vfs_lseek pid fd offset whence v =
    with_file (getfilp pid fd v)
      (λ file v'. seek_to pid fd (seek_base whence file (v'.dentry file.f_dentry)) offset v')

-- The `fuel` of `getcwdstr` is a bound on the depth of the directory.
unfoldable pub vfs_getcwd : ℕ → ℕ → ℕ → Vfs → Result
vfs_getcwd fuel pid size v = elim (map_proc_file pid v) [
  | none ↦ some (failed, v)
  | some p ↦ elim (getcwdstr fuel p.cwd size v) [
    | none ↦ none
    | some text ↦ elim text [ none ↦ some (failed, v) | some t ↦ some (pos 0, v) ]
  ]
]

unfoldable pub vfs_chdir : Servers → ℕ → List ℕ → Vfs → Result
unfolding with_dentry write_proc_file add_count
vfs_chdir srv pid path v = elim (map_proc_file pid v) [
  | none ↦ some (failed, v)
  | some p ↦ with_dentry (vfs_lookup srv p.cwd path v) (λ d v'.
      (pos 0, write_proc_file pid (λ p. record p { cwd = d }) (add_count p.cwd (negsuc 0) v')))
]

unfoldable pub vfs_stat : Servers → ℕ → List ℕ → Vfs → Result
unfolding with_dentry
vfs_stat srv pid path v = elim (map_proc_file pid v) [
  | none ↦ some (failed, v)
  | some p ↦ with_dentry (vfs_lookup srv p.cwd path v) (λ d v'.
      (if srv.fs_stat (v'.dentry d).f_fs_pid (v'.dentry d).f_ino then pos 0 else failed, v'))
]

unfoldable pub vfs_mkdir : Servers → ℕ → List ℕ → ℕ → Vfs → Result
vfs_mkdir srv pid name mode v = elim (map_proc_file pid v) [
  | none ↦ some (failed, v)
  | some p ↦
      let d = v.dentry p.cwd in
      elim (srv.fs_mkdir d.f_fs_pid d.f_ino name mode) [
        | none ↦ some (failed, v)
        | some r ↦ some (r, v)
      ]
]
