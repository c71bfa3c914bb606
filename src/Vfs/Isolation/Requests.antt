-- ===== src/Vfs/Isolation/Requests.antt =====
-- What each request to the server of src/srv/vfs/vfs.c does to the tables of other processes.
use fat.Prelude.{
  ℕ, ◌+◌, ◌≡◌, ◌≢◌, none, some, List, ltb, refl, ◌∙◌, Bool-cases, Option-cases, inl, inr, ℤ, pos,
  negsuc,
}
use fat.Vfs.{
  ProcFile, Vfs, Servers, nr_files, map_proc_file, append_proc_file, set_filp, set_pos, add_count,
  free_filp, std_files, open_table, getfilp,
}
use fat.Vfs.Path.{vfs_lookup, getcwdstr}
use fat.Vfs.Calls.{
  Result, failed, with_dentry, install, vfs_read, vfs_write, vfs_open, vfs_close, vfs_lseek,
  vfs_getcwd, vfs_chdir, vfs_stat, vfs_getdents, vfs_mkdir,
}
use fat.Vfs.Fork.{child_of, count_files, vfs_forkfs, vfs_execfs, vfs_freefs}
use fat.Vfs.Handle.{
  Request, handle, read, write, open_file, close, lseek, getcwd, chdir, stat, getdents, mkdir,
  forkfs, execfs, freefs, unsupported,
}
use fat.Vfs.Isolation.{
  Kept, KeptBy, Kept-trans, Kept-refl, Kept-file_map, Kept-write_proc_file, Kept-unmap_proc_file,
  Kept-append_proc_file, open_table-KeptBy,
}
use fat.Vfs.Isolation.Lookup.{file_map-vfs_lookup}
use fat.Vfs.Isolation.Steps.{
  set_filp-pid, Kept-set_pos, getfilp-KeptBy, then-KeptBy, file_map-add_count, file_map-free_filp,
  file_map-std_files, file_map-count_files, with_file-KeptBy, Kept-if, with_dentry-KeptBy,
  Kept-advance, Kept-seek_to, Kept-install,
}

vfs_read-KeptBy :
    (srv : Servers) (q pid fd size : ℕ) (v : Vfs)
    → q ≢ pid
    → KeptBy q v (vfs_read srv pid fd size v)
unfolding vfs_read
vfs_read-KeptBy srv q pid fd size v n =
    with_file-KeptBy q v (getfilp pid fd v) _ (getfilp-KeptBy q pid fd v) (λ file v'.
      Kept-if q v' srv.kmap_ok _ (failed, v') (Kept-advance q pid fd file _ v' n) (Kept-refl q v'))

vfs_write-KeptBy :
    (srv : Servers) (q pid fd size : ℕ) (v : Vfs)
    → q ≢ pid
    → KeptBy q v (vfs_write srv pid fd size v)
unfolding vfs_write
vfs_write-KeptBy srv q pid fd size v n =
    with_file-KeptBy q v (getfilp pid fd v) _ (getfilp-KeptBy q pid fd v) (λ file v'.
      Kept-if q v' srv.kmap_ok _ (failed, v') (Kept-advance q pid fd file _ v' n) (Kept-refl q v'))

vfs_getdents-KeptBy :
    (srv : Servers) (q pid fd nbytes : ℕ) (v : Vfs)
    → q ≢ pid
    → KeptBy q v (vfs_getdents srv pid fd nbytes v)
unfolding vfs_getdents
vfs_getdents-KeptBy srv q pid fd nbytes v n =
    with_file-KeptBy q v (getfilp pid fd v) _ (getfilp-KeptBy q pid fd v) (λ file v'.
      elim (srv.fs_getdents (v'.dentry file.f_dentry).f_fs_pid (v'.dentry file.f_dentry).f_ino
          file.f_pos nbytes)
        as (λ o.
          Kept q v'
            (elim o as (λ x. ℤ × Vfs) [
              | none ↦ (failed, v')
              | some r ↦ elim r as (λ x. ℤ × Vfs) [
                | pos n ↦ (pos n, set_pos pid fd (file.f_pos + n) v')
                | negsuc n ↦ (failed, v')
              ]
            ]).1) [
              | none ↦ Kept-refl q v'
              | some r ↦
                  elim r
                    as (λ r.
                      Kept q v'
                        (elim r as (λ x. ℤ × Vfs) [
                          | pos n ↦ (pos n, set_pos pid fd (file.f_pos + n) v')
                          | negsuc n ↦ (failed, v')
                        ]).1) [
                          | pos m ↦ Kept-set_pos q pid fd (file.f_pos + m) v' n
                          | negsuc m ↦ Kept-refl q v'
                        ]
            ])

vfs_lseek-KeptBy :
    (q pid fd : ℕ) (offset : ℤ) (whence : ℕ) (v : Vfs)
    → q ≢ pid
    → KeptBy q v (vfs_lseek pid fd offset whence v)
unfolding vfs_lseek
vfs_lseek-KeptBy q pid fd offset whence v n =
    with_file-KeptBy q v (getfilp pid fd v) _ (getfilp-KeptBy q pid fd v)
      (λ file v'. Kept-seek_to q pid fd _ offset v' n)

vfs_open-KeptBy :
    (srv : Servers) (q pid : ℕ) (path : List ℕ) (oflag : ℕ) (v : Vfs)
    → q ≢ pid
    → KeptBy q v (vfs_open srv pid path oflag v)
unfolding vfs_open
vfs_open-KeptBy srv q pid path oflag v n =
    then-KeptBy q v (open_table pid v)
      (λ p v'. with_dentry (vfs_lookup srv p.cwd path v') (install pid p.filp oflag))
      (open_table-KeptBy q pid v)
      (λ p v'.
        with_dentry-KeptBy q v' (vfs_lookup srv p.cwd path v') (install pid p.filp oflag)
          (file_map-vfs_lookup srv p.cwd path v')
          (λ d v''. Kept-install q pid p.filp oflag d v'' n))

vfs_close-KeptBy : (q pid fd : ℕ) (v : Vfs) → q ≢ pid → KeptBy q v (vfs_close pid fd v)
unfolding vfs_close KeptBy
vfs_close-KeptBy q pid fd v n = elim (Option-cases (map_proc_file pid v)) [
  | inl e ↦ rw (vfs_close, e) tt
  | inr (p, e) ↦ elim (Bool-cases (ltb fd nr_files)) [
    | inr f ↦ rw (vfs_close, e, f) tt
    | inl f ↦ elim (Option-cases (p.filp fd)) [
      | inl g ↦ rw (vfs_close, e, f, g) (Kept-refl q v)
      | inr (file, g) ↦
          rw (vfs_close, e, f, g)
            (Kept-trans q v (free_filp file v) _
              (Kept-file_map q v (free_filp file v) (file_map-free_filp file v))
              (Kept-write_proc_file q pid (set_filp fd none) (free_filp file v) n
                (set_filp-pid fd none)))
    ]
  ]
]

vfs_getcwd-KeptBy : (q fuel pid size : ℕ) (v : Vfs) → KeptBy q v (vfs_getcwd fuel pid size v)
unfolding vfs_getcwd KeptBy
vfs_getcwd-KeptBy q fuel pid size v = elim (Option-cases (map_proc_file pid v)) [
  | inl e ↦ rw (vfs_getcwd, e) (Kept-refl q v)
  | inr (p, e) ↦ elim (Option-cases (getcwdstr fuel p.cwd size v)) [
    | inl f ↦ rw (vfs_getcwd, e, f) tt
    | inr (text, f) ↦ elim (Option-cases text) [
      | inl g ↦ rw (vfs_getcwd, e, f, g) (Kept-refl q v)
      | inr (t, g) ↦ rw (vfs_getcwd, e, f, g) (Kept-refl q v)
    ]
  ]
]

vfs_chdir-KeptBy :
    (srv : Servers) (q pid : ℕ) (path : List ℕ) (v : Vfs)
    → q ≢ pid
    → KeptBy q v (vfs_chdir srv pid path v)
unfolding vfs_chdir KeptBy
vfs_chdir-KeptBy srv q pid path v n = elim (Option-cases (map_proc_file pid v)) [
  | inl e ↦ rw (vfs_chdir, e) (Kept-refl q v)
  | inr (p, e) ↦
      rw (vfs_chdir, e)
        (with_dentry-KeptBy q v (vfs_lookup srv p.cwd path v) _
          (file_map-vfs_lookup srv p.cwd path v)
          (λ d v'.
            Kept-trans q v' (add_count p.cwd (negsuc 0) v') _
              (Kept-file_map q v' _ (file_map-add_count p.cwd (negsuc 0) v'))
              (Kept-write_proc_file q pid _ (add_count p.cwd (negsuc 0) v') n (λ p. refl))))
]

vfs_stat-KeptBy :
    (srv : Servers) (q pid : ℕ) (path : List ℕ) (v : Vfs) → KeptBy q v (vfs_stat srv pid path v)
unfolding vfs_stat KeptBy
vfs_stat-KeptBy srv q pid path v = elim (Option-cases (map_proc_file pid v)) [
  | inl e ↦ rw (vfs_stat, e) (Kept-refl q v)
  | inr (p, e) ↦
      rw (vfs_stat, e)
        (with_dentry-KeptBy q v (vfs_lookup srv p.cwd path v) _
          (file_map-vfs_lookup srv p.cwd path v) (λ d v'. Kept-refl q v'))
]

vfs_mkdir-KeptBy :
    (srv : Servers) (q pid : ℕ) (name : List ℕ) (mode : ℕ) (v : Vfs)
    → KeptBy q v (vfs_mkdir srv pid name mode v)
unfolding vfs_mkdir KeptBy
vfs_mkdir-KeptBy srv q pid name mode v = elim (Option-cases (map_proc_file pid v)) [
  | inl e ↦ rw (vfs_mkdir, e) (Kept-refl q v)
  | inr (p, e) ↦
      elim (Option-cases
        (srv.fs_mkdir (v.dentry p.cwd).f_fs_pid (v.dentry p.cwd).f_ino name mode)) [
          | inl f ↦ rw (vfs_mkdir, e, f) (Kept-refl q v)
          | inr (r, f) ↦ rw (vfs_mkdir, e, f) (Kept-refl q v)
        ]
]

vfs_forkfs-KeptBy : (q ppid pid : ℕ) (v : Vfs) → KeptBy q v (vfs_forkfs ppid pid v)
unfolding vfs_forkfs KeptBy
vfs_forkfs-KeptBy q ppid pid v =
    then-KeptBy q v (open_table ppid v) _ (open_table-KeptBy q ppid v) (λ p v'.
      fork (child_of pid p) (count_files nr_files 0 p.filp (pos 1) (add_count p.cwd (pos 1) v')) v'
        (file_map-count_files nr_files 0 p.filp (pos 1) (add_count p.cwd (pos 1) v')
          ∙ file_map-add_count p.cwd (pos 1) v'))
  where
    fork :
        (c : ProcFile) (u v' : Vfs)
        → u.file_map ≡ v'.file_map
        → KeptBy q v' (elim (append_proc_file c u) as (λ x. Result) [
          | none ↦ none
          | some v'' ↦ some (pos 0, v'')
        ])
    fork c u v' h = elim (Option-cases (append_proc_file c u)) [
      | inl e ↦ rw e tt
      | inr (w, e) ↦
          rw e (Kept-trans q v' u w (Kept-file_map q v' u h) (Kept-append_proc_file q c u w e))
    ]

vfs_execfs-KeptBy : (q pid : ℕ) (v : Vfs) → q ≢ pid → KeptBy q v (vfs_execfs pid v)
unfolding vfs_execfs KeptBy
vfs_execfs-KeptBy q pid v n = elim (Option-cases (map_proc_file pid v)) [
  | inl e ↦
      rw (vfs_execfs, e)
        (then-KeptBy q v (open_table pid v) (λ p v'. some (pos 0, v')) (open_table-KeptBy q pid v)
          (λ p v'. Kept-refl q v'))
  | inr (p, e) ↦
      rw (vfs_execfs, e)
        (let u = count_files nr_files 0 p.filp (negsuc 0) v in
          Kept-trans q v (std_files u).1 _
            (Kept-file_map q v (std_files u).1
              (file_map-std_files u ∙ file_map-count_files nr_files 0 p.filp (negsuc 0) v))
            (Kept-write_proc_file q pid _ (std_files u).1 n (λ p. refl)))
]

vfs_freefs-KeptBy : (q pid : ℕ) (v : Vfs) → q ≢ pid → KeptBy q v (vfs_freefs pid v)
unfolding vfs_freefs KeptBy
vfs_freefs-KeptBy q pid v n = elim (Option-cases (map_proc_file pid v)) [
  | inl e ↦ rw (vfs_freefs, e) (Kept-refl q v)
  | inr (p, e) ↦
      rw (vfs_freefs, e)
        (Kept-trans q v (count_files nr_files 0 p.filp (negsuc 0) v) _
          (Kept-file_map q v _ (file_map-count_files nr_files 0 p.filp (negsuc 0) v))
          (Kept-unmap_proc_file q pid _ n))
]

-- A request of the process `src` that the server answers without leaving its arrays leaves the table that
-- another process has as it is, whatever the request, its answer and the answers of the other servers are.
-- Nothing is said of a request on which the server leaves them, such as a close of a descriptor from 64 on.
pub handle-KeptBy :
    (srv : Servers) (depth src q : ℕ) (r : Request) (v : Vfs)
    → q ≢ src
    → KeptBy q v (handle srv depth src r v)
unfolding handle KeptBy Kept
handle-KeptBy srv depth src q (read fd size) v n = vfs_read-KeptBy srv q src fd size v n
handle-KeptBy srv depth src q (write fd size) v n = vfs_write-KeptBy srv q src fd size v n
handle-KeptBy srv depth src q (open_file path oflag) v n = vfs_open-KeptBy srv q src path oflag v n
handle-KeptBy srv depth src q (close fd) v n = vfs_close-KeptBy q src fd v n
handle-KeptBy srv depth src q (lseek fd offset whence) v n =
    vfs_lseek-KeptBy q src fd offset whence v n
handle-KeptBy srv depth src q (getcwd size) v n = vfs_getcwd-KeptBy q depth src size v
handle-KeptBy srv depth src q (chdir path) v n = vfs_chdir-KeptBy srv q src path v n
handle-KeptBy srv depth src q (stat path) v n = vfs_stat-KeptBy srv q src path v
handle-KeptBy srv depth src q (getdents fd count) v n = vfs_getdents-KeptBy srv q src fd count v n
handle-KeptBy srv depth src q (mkdir name mode) v n = vfs_mkdir-KeptBy srv q src name mode v
handle-KeptBy srv depth src q (forkfs pid) v n = vfs_forkfs-KeptBy q src pid v
handle-KeptBy srv depth src q execfs v n = vfs_execfs-KeptBy q src v n
handle-KeptBy srv depth src q freefs v n = vfs_freefs-KeptBy q src v n
handle-KeptBy srv depth src q unsupported v n = Kept-file_map q v v refl
