-- ===== src/Vfs/Counts.antt =====
-- The users of the dentries in src/srv/vfs/vfs.c, over a fork and the end of the child.
use fat.Prelude.{
  ℕ, zero, suc, ◌+◌, ◌≤◌, ◌≡◌, ◌≢◌, Bool, true, false, Option, none, some, [], ◌∷◌, ◌++◌, ◌%◌, ◌==◌,
  lt→ltb, if◌then◌else◌, arith, refl, ap, sym, ◌∙◌, Option-cases, inl, inr, ℤ, pos, negsuc, ◌+ℤ◌,
  eq_of_parts, +ℤ_parts,
}
use fat.Vfs.{
  find_pid, set_bucket, file_map_size, File, ProcFile, Vfs, nr_files, map_proc_file,
  append_proc_file, unmap_proc_file, add_count,
}
use fat.Vfs.Fork.{count_files, child_of, vfs_forkfs, vfs_freefs}
use fat.Vfs.Table.{map-append_proc_file}
use fat.Vfs.Files.{open_table-table}
use fat.Vfs.Isolation.Steps.{file_map-count_files, file_map-add_count}

abbrev users : ℕ → Vfs → ℤ
users e v = (v.dentry e).f_count

-- How many of the files from `fd` on are at the dentry `e`.
uses : ℕ → ℕ → (ℕ → Option File) → ℕ → ℕ
uses zero fd filp e = 0
uses (suc turns) fd filp e =
    let rest = uses turns (fd + 1) filp e in
    elim (filp fd) [ none ↦ rest | some file ↦ if e == file.f_dentry then suc rest else rest ]

neg : ℕ → ℤ
neg zero = pos 0
neg (suc n) = negsuc n

users-add_count :
    (d e : ℕ) (n : ℤ) (v : Vfs)
    → users e (add_count d n v) ≡ (if e == d then users e v +ℤ n else users e v)
unfolding add_count
users-add_count d e n v = ground arith

add_one : (a : ℤ) (n : ℕ) → (a +ℤ pos 1) +ℤ pos n ≡ a +ℤ pos (suc n)
add_one a n =
    eq_of_parts _ _
      (ground (arith, +ℤ_parts (a +ℤ pos 1) (pos n), +ℤ_parts a (pos 1), +ℤ_parts a (pos (suc n))))

add_none : (a : ℤ) → a +ℤ pos 0 ≡ a
add_none a = eq_of_parts _ _ (ground (arith, +ℤ_parts a (pos 0)))

sub_one : (a : ℤ) (n : ℕ) → (a +ℤ negsuc 0) +ℤ neg n ≡ a +ℤ neg (suc n)
unfolding neg
sub_one a zero = add_none (a +ℤ negsuc 0)
sub_one a (suc n) = eq_of_parts _ _ (
    ground (
      arith,
      +ℤ_parts (a +ℤ negsuc 0) (negsuc n),
      +ℤ_parts a (negsuc 0),
      +ℤ_parts a (negsuc (suc n)),
    ))

counted :
    (b : Bool) (a : ℤ) (u : ℕ)
    → (if b then a +ℤ pos 1 else a) +ℤ pos u ≡ a +ℤ pos (if b then suc u else u)
counted true a u = add_one a u
counted false a u = refl

uncounted :
    (b : Bool) (a : ℤ) (u : ℕ)
    → (if b then a +ℤ negsuc 0 else a) +ℤ neg u ≡ a +ℤ neg (if b then suc u else u)
uncounted true a u = sub_one a u
uncounted false a u = refl

more_users :
    (d e u : ℕ) (v : Vfs)
    → users e (add_count d (pos 1) v) +ℤ pos u ≡ users e v +ℤ pos (if e == d then suc u else u)
more_users d e u v =
    ap (λ a. a +ℤ pos u) (users-add_count d e (pos 1) v) ∙ counted (e == d) (users e v) u

fewer_users :
    (d e u : ℕ) (v : Vfs)
    → users e (add_count d (negsuc 0) v) +ℤ neg u ≡ users e v +ℤ neg (if e == d then suc u else u)
fewer_users d e u v =
    ap (λ a. a +ℤ neg u) (users-add_count d e (negsuc 0) v) ∙ uncounted (e == d) (users e v) u

users-count_files :
    (turns fd : ℕ) (filp : ℕ → Option File) (e : ℕ) (v : Vfs)
    → users e (count_files turns fd filp (pos 1) v) ≡ users e v +ℤ pos (uses turns fd filp e)
unfolding count_files uses
users-count_files zero fd filp e v = sym (add_none (users e v))
users-count_files (suc turns) fd filp e v = elim (Option-cases (filp fd)) [
  | inl f ↦ rw (count_files, uses, f) (users-count_files turns (fd + 1) filp e v)
  | inr (file, f) ↦
      rw (count_files, uses, f)
        (users-count_files turns (fd + 1) filp e (add_count file.f_dentry (pos 1) v)
          ∙ more_users file.f_dentry e (uses turns (fd + 1) filp e) v)
]

users-uncount_files :
    (turns fd : ℕ) (filp : ℕ → Option File) (e : ℕ) (v : Vfs)
    → users e (count_files turns fd filp (negsuc 0) v) ≡ users e v +ℤ neg (uses turns fd filp e)
unfolding count_files uses neg
users-uncount_files zero fd filp e v = sym (add_none (users e v))
users-uncount_files (suc turns) fd filp e v = elim (Option-cases (filp fd)) [
  | inl f ↦ rw (count_files, uses, f) (users-uncount_files turns (fd + 1) filp e v)
  | inr (file, f) ↦
      rw (count_files, uses, f)
        (users-uncount_files turns (fd + 1) filp e (add_count file.f_dentry (negsuc 0) v)
          ∙ fewer_users file.f_dentry e (uses turns (fd + 1) filp e) v)
]

neg_parts : (n : ℕ) (a : ℤ) → (a +ℤ pos n) +ℤ neg n ≡ a
unfolding neg
neg_parts zero a = add_none (a +ℤ pos 0) ∙ add_none a
neg_parts (suc n) a =
    eq_of_parts _ _
      (ground (arith, +ℤ_parts (a +ℤ pos (suc n)) (negsuc n), +ℤ_parts a (pos (suc n))))

-- The same files counted up and down.
users-count-uncount :
    (turns fd : ℕ) (filp : ℕ → Option File) (e : ℕ) (u v : Vfs)
    → users e v ≡ users e (count_files turns fd filp (pos 1) u)
    → users e (count_files turns fd filp (negsuc 0) v) ≡ users e u
users-count-uncount turns fd filp e u v h =
    users-uncount_files turns fd filp e v
    ∙ ap (λ a. a +ℤ neg (uses turns fd filp e)) (h ∙ users-count_files turns fd filp e u)
    ∙ neg_parts (uses turns fd filp e) (users e u)

-- What `vfs_forkfs` counts in the files of the parent and its directory.
abbrev forked : ProcFile → Vfs → Vfs
forked p v = count_files nr_files 0 p.filp (pos 1) (add_count p.cwd (pos 1) v)

-- The state with one more table.
abbrev with_table : ProcFile → Vfs → Vfs
with_table c u = set_bucket c.pid (λ l. l ++ c ∷ []) u

append_proc_file-new :
    (c : ProcFile) (u : Vfs)
    → c.pid ≢ 0
    → map_proc_file c.pid u ≡ none
    → append_proc_file c u ≡ some (with_table c u)
unfolding append_proc_file
append_proc_file-new c u z n = ground (arith, z, n)

map-forked : (q : ℕ) (p : ProcFile) (v : Vfs) → map_proc_file q (forked p v) ≡ map_proc_file q v
unfolding map_proc_file
map-forked q p v =
    ap (λ m. find_pid q (m (q % file_map_size)))
      (file_map-count_files nr_files 0 p.filp (pos 1) (add_count p.cwd (pos 1) v)
        ∙ file_map-add_count p.cwd (pos 1) v)

users-with_table : (e : ℕ) (c : ProcFile) (u : Vfs) → users e (with_table c u) ≡ users e u
unfolding set_bucket
users-with_table e c u = refl

-- A fork of a process with the table `p`, for a pid that is not 0 and has no table, gives that pid the
-- files below NR_FILES and the directory of the parent, and the parent keeps its table.
vfs_forkfs-child :
    (ppid pid : ℕ) (p : ProcFile) (v : Vfs)
    → map_proc_file ppid v ≡ some p
    → map_proc_file pid v ≡ none
    → pid ≢ 0
    → (v' : Vfs) × (vfs_forkfs ppid pid v ≡ some (pos 0, v'))
      × (map_proc_file pid v' ≡ some (child_of pid p))
      × (map_proc_file ppid v' ≡ some p)
      × ((e : ℕ) → users e v' ≡ users e (forked p v))
unfolding vfs_forkfs
vfs_forkfs-child ppid pid p v e n z =
    let c = child_of pid p in
    let new = append_proc_file-new c (forked p v) z (map-forked pid p v ∙ n) in
    (
      with_table c (forked p v),
      rw (vfs_forkfs, open_table-table ppid p v e, new) refl,
      map-append_proc_file pid c (forked p v) _ new ∙ rw (map-forked pid p v, n) ground arith,
      map-append_proc_file ppid c (forked p v) _ new ∙ rw (map-forked ppid p v, e) refl,
      λ e. users-with_table e c (forked p v),
    )

-- The copy of a table has the files that are counted.
count_files-child_of :
    (turns fd pid : ℕ) (p : ProcFile) (n : ℤ) (v : Vfs)
    → fd + turns ≤ nr_files
    → count_files turns fd (child_of pid p).filp n v ≡ count_files turns fd p.filp n v
unfolding count_files
count_files-child_of zero fd pid p n v h = refl
count_files-child_of (suc turns) fd pid p n v h =
    rw (count_files, lt→ltb fd nr_files (ground arith))
      (count_files-child_of turns (fd + 1) pid p n _ (ground arith))

dentry-unmap_proc_file : (pid : ℕ) (v : Vfs) → (unmap_proc_file pid v).dentry ≡ v.dentry
unfolding unmap_proc_file set_bucket
dentry-unmap_proc_file pid v = elim (Option-cases (map_proc_file pid v)) [
  | inl e ↦ rw (unmap_proc_file, e) refl
  | inr (p, e) ↦ rw (unmap_proc_file, e) refl
]

-- A fork of a process with the table `p`, for a pid that is not 0 and has no table, and the end of the child
-- right after it both succeed. The end takes back what the fork counted in the files, and what it counted
-- in the directory stays: each dentry has as many users as before the fork, and the directory one more.
pub vfs_freefs-vfs_forkfs :
    (ppid pid : ℕ) (p : ProcFile) (v : Vfs)
    → map_proc_file ppid v ≡ some p
    → map_proc_file pid v ≡ none
    → pid ≢ 0
    → (v' v'' : Vfs) × (vfs_forkfs ppid pid v ≡ some (pos 0, v'))
      × (vfs_freefs pid v' ≡ some (pos 0, v''))
      × ((e : ℕ) → users e v'' ≡ (if e == p.cwd then users e v +ℤ pos 1 else users e v))
unfolding vfs_freefs
vfs_freefs-vfs_forkfs ppid pid p v m n z =
    let f = vfs_forkfs-child ppid pid p v m n z in
    let c = child_of pid p in
    let u = count_files nr_files 0 c.filp (negsuc 0) (f.0) in
    (
      f.0,
      unmap_proc_file pid u,
      f.1,
      rw (vfs_freefs, f.2) refl,
      λ e.
          ap (λ d. (d e).f_count) (dentry-unmap_proc_file pid u)
          ∙ ap (users e) (count_files-child_of nr_files 0 pid p (negsuc 0) f.0 (ground arith))
          ∙ users-count-uncount nr_files 0 p.filp e (add_count p.cwd (pos 1) v) f.0 (f.4 e)
          ∙ users-add_count p.cwd e (pos 1) v,
    )
