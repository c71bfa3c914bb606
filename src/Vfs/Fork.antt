-- ===== src/Vfs/Fork.antt =====
-- `vfs_forkfs`, `vfs_execfs` and `vfs_freefs` of src/srv/vfs/vfs.c.
use fat.Prelude.{ℕ, zero, suc, ◌+◌, Option, none, some, ltb, if◌then◌else◌, ℤ, pos, negsuc}
use fat.Vfs.{
  File, ProcFile, Vfs, nr_files, map_proc_file, unmap_proc_file, append_proc_file, write_proc_file,
  std_files, open_table, add_count,
}
use fat.Vfs.Calls.{Result}

-- `f_count += n` at the dentry of each of the files from `fd` on, in `turns` turns.
unfoldable pub count_files : ℕ → ℕ → (ℕ → Option File) → ℤ → Vfs → Vfs
unfolding add_count
count_files zero fd filp n v = v
count_files (suc turns) fd filp n v =
    count_files turns (fd + 1) filp n
      (elim (filp fd) [ none ↦ v | some file ↦ add_count file.f_dentry n v ])

-- The copy of the table for `pid`; the slots behind its array are not there.
abbrev pub child_of : ℕ → ProcFile → ProcFile
child_of pid p = record {
  pid = pid;
  filp = λ fd. if ltb fd nr_files then p.filp fd else none;
  cwd = p.cwd;
}

unfoldable pub vfs_forkfs : ℕ → ℕ → Vfs → Result
unfolding open_table add_count count_files append_proc_file
vfs_forkfs ppid pid v = elim (open_table ppid v) [
  | none ↦ none
  | some (p, v') ↦
      elim (append_proc_file (child_of pid p)
        (count_files nr_files 0 p.filp (pos 1) (add_count p.cwd (pos 1) v'))) [
          | none ↦ none
          | some v'' ↦ some (pos 0, v'')
        ]
]

unfoldable pub vfs_execfs : ℕ → Vfs → Result
unfolding open_table count_files std_files write_proc_file
vfs_execfs pid v = elim (map_proc_file pid v) [
  | none ↦ elim (open_table pid v) [ none ↦ none | some (p, v') ↦ some (pos 0, v') ]
  | some p ↦
      let r = std_files (count_files nr_files 0 p.filp (negsuc 0) v) in
      some (pos 0, write_proc_file pid (λ p. record p { filp = r.0 }) r.1)
]

unfoldable pub vfs_freefs : ℕ → Vfs → Result
unfolding count_files unmap_proc_file
vfs_freefs pid v = elim (map_proc_file pid v) [
  | none ↦ some (pos 0, v)
  | some p ↦ some (pos 0, unmap_proc_file pid (count_files nr_files 0 p.filp (negsuc 0) v))
]
