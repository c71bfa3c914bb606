-- ===== src/Vfs/Files/Open.antt =====
-- `vfs_open` and `vfs_close` of src/srv/vfs/vfs.c, in a process that has a table.
use fat.Prelude.{
  ℕ, zero, suc, ◌+◌, ◌≤◌, ◌<◌, ◌≡◌, ◌≢◌, false, Option, none, some, List, ◌==◌, lt→ltb,
  if◌then◌else◌, arith, refl, ap, subst, ◌∙◌, Bool-cases, Option-cases, inl, inr, ℤ, pos, negsuc,
  ◌+ℤ◌, eq_of_parts, +ℤ_parts,
}
use fat.Vfs.{
  File, ProcFile, Vfs, Servers, nr_files, map_proc_file, write_proc_file, set_filp, make_filp,
  free_filp, add_count,
}
use fat.Vfs.Path.{found, vfs_lookup}
use fat.Vfs.Calls.{failed, with_dentry, install, is_append, free_slot, vfs_open, vfs_close}
use fat.Vfs.Isolation.{Kept, Kept-file_map}
use fat.Vfs.Isolation.Lookup.{state_after, file_map-vfs_lookup}
use fat.Vfs.Files.{IsOpen, open_table-table, map-set_filp}

-- The lowest free descriptor from `fd` on.
pub record IsLowest (fd : ℕ) (filp : ℕ → Option File) (k : ℕ) : Type 0 where
  pub from_fd : fd ≤ k
  pub free : filp k ≡ none
  pub first : (j : ℕ) → fd ≤ j → j < k → filp j ≢ none

free_slot-IsLowest :
    (turns fd k : ℕ) (filp : ℕ → Option File)
    → k < fd + turns
    → IsLowest fd filp k
    → free_slot turns fd filp ≡ some k
unfolding free_slot
free_slot-IsLowest zero fd k filp h l = ground (arith, l.from_fd)
free_slot-IsLowest (suc turns) fd k filp h l = elim (Option-cases (filp fd)) [
  | inl e ↦ rw (free_slot, e) (ap some (ground (arith, l.from_fd, l.first fd)))
  | inr (file, e) ↦
      rw (free_slot, e)
        (free_slot-IsLowest turns (fd + 1) k filp (ground arith) (record {
          from_fd = grind (arith, l.from_fd, l.free, e);
          free = l.free;
          first = λ j a b. l.first j (ground arith) b;
        }))
]

free_slot-full :
    (turns fd : ℕ) (filp : ℕ → Option File)
    → ((j : ℕ) → fd ≤ j → j < fd + turns → filp j ≢ none)
    → free_slot turns fd filp ≡ none
unfolding free_slot
free_slot-full zero fd filp h = refl
free_slot-full (suc turns) fd filp h = elim (Option-cases (filp fd)) [
  | inl e ↦ ground (arith, h fd)
  | inr (file, e) ↦
      rw (free_slot, e)
        (free_slot-full turns (fd + 1) filp (λ j a b. h j (ground arith) (ground arith)))
]

-- The file that an open of the dentry makes.
abbrev pub opened : ℕ → ℕ → Vfs → File
opened oflag d w = record {
  f_mode = (w.dentry d).f_mode;
  f_dentry = d;
  f_pos = if is_append oflag then (w.dentry d).f_size else 0;
}

-- The process has the table, and its path leads to the dentry, which is not NULL, and to this state.
pub record Reaches (srv : Servers) (pid : ℕ) (path : List ℕ) (v : Vfs) (p : ProcFile) (d : ℕ)
    (w : Vfs) : Type 0 where
  pub table : map_proc_file pid v ≡ some p
  pub lookup : vfs_lookup srv p.cwd path v ≡ some (found d w)
  pub present : d ≢ 0

Reaches-table :
    (srv : Servers) (pid : ℕ) (path : List ℕ) (v : Vfs) (p : ProcFile) (d : ℕ) (w : Vfs)
    → Reaches srv pid path v p d w
    → map_proc_file pid w ≡ some p
unfolding Kept
Reaches-table srv pid path v p d w r =
    Kept-file_map pid v w
      (subst (λ o. (state_after v o).file_map ≡ v.file_map) r.lookup
        (file_map-vfs_lookup srv p.cwd path v))
      p r.table

not_null : (d : ℕ) → d ≢ 0 → (d == 0) ≡ false
not_null d n = ground arith

vfs_open-install :
    (srv : Servers) (pid : ℕ) (path : List ℕ) (oflag : ℕ) (v : Vfs) (p : ProcFile) (d : ℕ) (w : Vfs)
    → Reaches srv pid path v p d w
    → vfs_open srv pid path oflag v ≡ some (install pid p.filp oflag d w)
unfolding vfs_open with_dentry
vfs_open-install srv pid path oflag v p d w r =
    rw (vfs_open, open_table-table pid p v r.table, r.lookup, not_null d r.present) refl

file_map-add_count : (d : ℕ) (n : ℤ) (v : Vfs) → (add_count d n v).file_map ≡ v.file_map
unfolding add_count
file_map-add_count d n v = refl

file_map-free_filp : (file : File) (v : Vfs) → (free_filp file v).file_map ≡ v.file_map
unfolding free_filp
file_map-free_filp file v = file_map-add_count file.f_dentry (negsuc 0) v

count-add_count :
    (d e : ℕ) (n : ℤ) (v : Vfs)
    → ((add_count d n v).dentry e).f_count
      ≡ (if e == d then (v.dentry e).f_count +ℤ n else (v.dentry e).f_count)
unfolding add_count
count-add_count d e n v = ground arith

install-full :
    (pid : ℕ) (filp : ℕ → Option File) (oflag d : ℕ) (w : Vfs)
    → ((j : ℕ) → j < nr_files → filp j ≢ none)
    → install pid filp oflag d w ≡ (failed, add_count d (pos 1) w)
unfolding install make_filp
install-full pid filp oflag d w h =
    rw (install, free_slot-full nr_files 0 filp (λ j a b. h j (ground arith))) refl

install-IsLowest :
    (pid : ℕ) (filp : ℕ → Option File) (oflag d k : ℕ) (w : Vfs)
    → k < nr_files
    → IsLowest 0 filp k
    → install pid filp oflag d w
      ≡ (pos k, write_proc_file pid (set_filp k (some (opened oflag d w))) (add_count d (pos 1) w))
unfolding install make_filp
install-IsLowest pid filp oflag d k w b l =
    let found = free_slot-IsLowest nr_files 0 k filp b l in
    elim (Bool-cases (is_append oflag)) [
      | inl a ↦ rw (install, found, a) refl
      | inr a ↦ rw (install, found, a) refl
    ]

-- The state that an open leads to.
abbrev after_open : ℕ → ℕ → ℕ → ℕ → Vfs → Vfs
after_open pid oflag d k w =
    write_proc_file pid (set_filp k (some (opened oflag d w))) (add_count d (pos 1) w)

free_again :
    (k : ℕ) (file : File) (p : ProcFile)
    → p.filp k ≡ none
    → set_filp k none (set_filp k (some file) p) ≡ p
unfolding set_filp
free_again k file p e = λ i. record p { filp = λ fd. freed fd i }
  where
    freed :
        (fd : ℕ)
        → (if fd == k then none else (if fd == k then some file else p.filp fd)) ≡ p.filp fd
    freed fd = ground arith

after_open-table :
    (srv : Servers) (pid : ℕ) (path : List ℕ) (oflag : ℕ) (v : Vfs) (p : ProcFile) (d k : ℕ)
    (w : Vfs)
    → Reaches srv pid path v p d w
    → map_proc_file pid (after_open pid oflag d k w) ≡ some (set_filp k (some (opened oflag d w)) p)
unfolding Kept
after_open-table srv pid path oflag v p d k w r =
    map-set_filp pid k (some (opened oflag d w)) p (add_count d (pos 1) w) (
      Kept-file_map pid w (add_count d (pos 1) w) (file_map-add_count d (pos 1) w) p
        (Reaches-table srv pid path v p d w r))

vfs_open-after_open :
    (srv : Servers) (pid : ℕ) (path : List ℕ) (oflag : ℕ) (v : Vfs) (p : ProcFile) (d k : ℕ)
    (w : Vfs)
    → Reaches srv pid path v p d w
    → k < nr_files
    → IsLowest 0 p.filp k
    → vfs_open srv pid path oflag v ≡ some (pos k, after_open pid oflag d k w)
vfs_open-after_open srv pid path oflag v p d k w r b l =
    vfs_open-install srv pid path oflag v p d w r
    ∙ ap some (install-IsLowest pid p.filp oflag d k w b l)

-- An open whose path leads to a dentry that is not NULL, in a process with a table, answers the lowest
-- descriptor below NR_FILES that is free, and gives it a file of that dentry. Its position is the start,
-- or with O_APPEND the end. The rest of the table stays.
vfs_open-lowest :
    (srv : Servers) (pid : ℕ) (path : List ℕ) (oflag : ℕ) (v : Vfs) (p : ProcFile) (d k : ℕ)
    (w : Vfs)
    → Reaches srv pid path v p d w
    → k < nr_files
    → IsLowest 0 p.filp k
    → (v' : Vfs) × (vfs_open srv pid path oflag v ≡ some (pos k, v'))
      × (map_proc_file pid v' ≡ some (set_filp k (some (opened oflag d w)) p))
unfolding Kept
vfs_open-lowest srv pid path oflag v p d k w r b l = (
  after_open pid oflag d k w,
  vfs_open-after_open srv pid path oflag v p d k w r b l,
  after_open-table srv pid path oflag v p d k w r,
)

-- When each descriptor below NR_FILES has a file, an open whose path leads to a dentry that is not NULL
-- answers -1 and leaves the table, but the dentry has one more user than after the lookup.
vfs_open-full :
    (srv : Servers) (pid : ℕ) (path : List ℕ) (oflag : ℕ) (v : Vfs) (p : ProcFile) (d : ℕ) (w : Vfs)
    → Reaches srv pid path v p d w
    → ((j : ℕ) → j < nr_files → p.filp j ≢ none)
    → (v' : Vfs) × (vfs_open srv pid path oflag v ≡ some (failed, v'))
      × (map_proc_file pid v' ≡ some p)
      × ((v'.dentry d).f_count ≡ (w.dentry d).f_count +ℤ pos 1)
unfolding Kept
vfs_open-full srv pid path oflag v p d w r h = (
  add_count d (pos 1) w,
  vfs_open-install srv pid path oflag v p d w r ∙ ap some (install-full pid p.filp oflag d w h),
  Kept-file_map pid w (add_count d (pos 1) w) (file_map-add_count d (pos 1) w) p
      (Reaches-table srv pid path v p d w r),
  count-add_count d d (pos 1) w ∙ ground arith,
)

vfs_close-table :
    (pid k : ℕ) (p : ProcFile) (file : File) (v : Vfs)
    → IsOpen pid k p file v
    → vfs_close pid k v ≡ some (pos 0, write_proc_file pid (set_filp k none) (free_filp file v))
unfolding vfs_close
vfs_close-table pid k p file v o = rw (vfs_close, o.table, lt→ltb k nr_files o.below, o.slot) refl

one_less : (a : ℤ) → (a +ℤ pos 1) +ℤ negsuc 0 ≡ a
one_less a = eq_of_parts _ a (ground (arith, +ℤ_parts (a +ℤ pos 1) (negsuc 0), +ℤ_parts a (pos 1)))

count-closed :
    (pid k : ℕ) (file : File) (oflag : ℕ) (e : ℕ) (w : Vfs)
    → ((write_proc_file pid
          (set_filp k none)
          (free_filp file (after_open pid oflag file.f_dentry k w))).dentry
        e).f_count
      ≡ (w.dentry e).f_count
unfolding write_proc_file free_filp add_count
count-closed pid k file oflag e w = elim (Bool-cases (e == file.f_dentry)) [
  | inl f ↦ rw f (one_less (w.dentry e).f_count)
  | inr f ↦ rw f refl
]

after_open-IsOpen :
    (srv : Servers) (pid : ℕ) (path : List ℕ) (oflag : ℕ) (v : Vfs) (p : ProcFile) (d k : ℕ)
    (w : Vfs)
    → Reaches srv pid path v p d w
    → k < nr_files
    → IsOpen pid k
        (set_filp k (some (opened oflag d w)) p)
        (opened oflag d w)
        (after_open pid oflag d k w)
unfolding set_filp
after_open-IsOpen srv pid path oflag v p d k w r b = record {
  table = after_open-table srv pid path oflag v p d k w r;
  below = b;
  slot = ground arith;
}

-- An open and a close of the descriptor that it answered leave the table as it was, and each dentry has
-- as many users as after the lookup of the path, which the open begins with. The path leads to a dentry, and
-- the descriptor is the lowest free one.
pub vfs_close-vfs_open :
    (srv : Servers) (pid : ℕ) (path : List ℕ) (oflag : ℕ) (v : Vfs) (p : ProcFile) (d k : ℕ)
    (w : Vfs)
    → Reaches srv pid path v p d w
    → k < nr_files
    → IsLowest 0 p.filp k
    → (v' v'' : Vfs) × (vfs_open srv pid path oflag v ≡ some (pos k, v'))
      × (vfs_close pid k v' ≡ some (pos 0, v''))
      × (map_proc_file pid v'' ≡ some p)
      × ((e : ℕ) → (v''.dentry e).f_count ≡ (w.dentry e).f_count)
unfolding Kept
vfs_close-vfs_open srv pid path oflag v p d k w r b l =
    let file = opened oflag d w in
    let v' = after_open pid oflag d k w in
    let o = after_open-IsOpen srv pid path oflag v p d k w r b in
    (
      v',
      write_proc_file pid (set_filp k none) (free_filp file v'),
      vfs_open-after_open srv pid path oflag v p d k w r b l,
      vfs_close-table pid k _ file v' o,
      map-set_filp pid k none _ (free_filp file v')
            (Kept-file_map pid v' (free_filp file v') (file_map-free_filp file v') _ o.table)
          ∙ ap some (free_again k file p l.free),
      λ e. count-closed pid k file oflag e w,
    )
