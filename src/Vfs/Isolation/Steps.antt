-- ===== src/Vfs/Isolation/Steps.antt =====
-- The parts of the calls of src/srv/vfs/vfs.c, and what they do to the tables of other processes.
use fat.Prelude.{
  ℕ, zero, suc, ◌+◌, ◌+ℤ◌, ◌≡◌, ◌≢◌, Bool, true, false, Option, none, some, ◌==◌, ltb,
  if◌then◌else◌, refl, ◌∙◌, Option-cases, inl, inr, ℤ, pos, negsuc,
}
use fat.Vfs.{
  File, ProcFile, Vfs, nr_files, set_filp, set_pos, add_count, make_filp, free_filp, std_files,
  open_table, getfilp,
}
use fat.Vfs.Path.{Looked, fault, missing, found}
use fat.Vfs.Calls.{failed, advance, with_file, with_dentry, install, seek_to, free_slot}
use fat.Vfs.Fork.{count_files}
use fat.Vfs.Isolation.{
  Kept, KeptBy, Kept-trans, Kept-refl, Kept-file_map, Kept-write_proc_file, open_table-KeptBy,
}
use fat.Vfs.Isolation.Lookup.{state_after}

pub set_filp-pid : (fd : ℕ) (o : Option File) (p : ProcFile) → (set_filp fd o p).pid ≡ p.pid
unfolding set_filp
set_filp-pid fd o p = refl

pub Kept-set_pos : (q pid fd n : ℕ) (v : Vfs) → q ≢ pid → Kept q v (set_pos pid fd n v)
unfolding set_pos
Kept-set_pos q pid fd n v k = Kept-write_proc_file q pid _ v k (λ p.
    elim (p.filp fd)
      as (λ o.
        (elim o as (λ x. ProcFile) [
          | none ↦ p
          | some file ↦ set_filp fd (some (record file { f_pos = n })) p
        ]).pid
        ≡ p.pid) [ none ↦ refl | some file ↦ set_filp-pid fd (some (record file { f_pos = n })) p ])

pub getfilp-KeptBy : (q pid fd : ℕ) (v : Vfs) → KeptBy q v (getfilp pid fd v)
unfolding getfilp KeptBy
getfilp-KeptBy q pid fd v =
    elim (open_table pid v)
        as (λ o.
          KeptBy q v o
          → KeptBy q v (elim o as (λ x. Option (Option File × Vfs)) [
            | none ↦ none
            | some (p, v') ↦ some (if ltb fd nr_files then p.filp fd else none, v')
          ])) [ none ↦ λ k. k | some (p, v') ↦ λ k. k ]
      (open_table-KeptBy q pid v)

-- A call and the rest of it.
pub then-KeptBy :
    {A B : Type 0} (q : ℕ) (v : Vfs) (o : Option (A × Vfs)) (f : A → Vfs → Option (B × Vfs))
    → KeptBy q v o
    → ((a : A) (v' : Vfs) → KeptBy q v' (f a v'))
    → KeptBy q v (elim o [ none ↦ none | some (a, v') ↦ f a v' ])
unfolding KeptBy
then-KeptBy q v none f k h = tt
then-KeptBy q v (some (a, v')) f k h =
    elim (f a v') as (λ o. KeptBy q v' o → KeptBy q v o) [
      | none ↦ λ l. tt
      | some (b, w) ↦ λ l. Kept-trans q v v' w k l
    ]
      (h a v')

pub file_map-add_count : (d : ℕ) (n : ℤ) (v : Vfs) → (add_count d n v).file_map ≡ v.file_map
unfolding add_count
file_map-add_count d n v = refl

file_map-make_filp : (mode d : ℕ) (v : Vfs) → (make_filp mode d v).1.file_map ≡ v.file_map
unfolding make_filp
file_map-make_filp mode d v = file_map-add_count d (pos 1) v

pub file_map-free_filp : (file : File) (v : Vfs) → (free_filp file v).file_map ≡ v.file_map
unfolding free_filp
file_map-free_filp file v = file_map-add_count file.f_dentry (negsuc 0) v

pub file_map-std_files : (v : Vfs) → (std_files v).1.file_map ≡ v.file_map
unfolding std_files make_filp add_count
file_map-std_files v = refl

pub file_map-count_files :
    (turns fd : ℕ) (filp : ℕ → Option File) (n : ℤ) (v : Vfs)
    → (count_files turns fd filp n v).file_map ≡ v.file_map
unfolding count_files add_count
file_map-count_files zero fd filp n v = refl
file_map-count_files (suc turns) fd filp n v =
    file_map-count_files turns (fd + 1) filp n _
    ∙ elim (filp fd)
        as (λ o.
          (elim o as (λ x. Vfs) [ none ↦ v | some file ↦ add_count file.f_dentry n v ]).file_map
          ≡ v.file_map) [ none ↦ refl | some file ↦ refl ]

pub with_file-KeptBy :
    (q : ℕ) (v : Vfs) (o : Option (Option File × Vfs)) (f : File → Vfs → ℤ × Vfs)
    → KeptBy q v o
    → ((file : File) (v' : Vfs) → Kept q v' (f file v').1)
    → KeptBy q v (with_file o f)
unfolding with_file KeptBy
with_file-KeptBy q v none f k h = k
with_file-KeptBy q v (some (none, v')) f k h = k
with_file-KeptBy q v (some (some file, v')) f k h = Kept-trans q v v' (f file v').1 k (h file v')

pub Kept-if :
    (q : ℕ) (v : Vfs) (b : Bool) (r s : ℤ × Vfs)
    → Kept q v r.1
    → Kept q v s.1
    → Kept q v (if b then r else s).1
Kept-if q v true r s k l = k
Kept-if q v false r s k l = l

pub with_dentry-KeptBy :
    (q : ℕ) (v : Vfs) (o : Option Looked) (f : ℕ → Vfs → ℤ × Vfs)
    → (state_after v o).file_map ≡ v.file_map
    → ((d : ℕ) (v' : Vfs) → Kept q v' (f d v').1)
    → KeptBy q v (with_dentry o f)
unfolding with_dentry KeptBy
with_dentry-KeptBy q v none f k h = tt
with_dentry-KeptBy q v (some fault) f k h = tt
with_dentry-KeptBy q v (some (missing v')) f k h = Kept-file_map q v v' k
with_dentry-KeptBy q v (some (found d v')) f k h =
    Kept-trans q v v' _ (Kept-file_map q v v' k)
      (Kept-if q v' (d == 0) (failed, v') (f d v') (Kept-refl q v') (h d v'))

pub Kept-advance :
    (q pid fd : ℕ) (file : File) (o : Option ℤ) (v : Vfs)
    → q ≢ pid
    → Kept q v (advance pid fd file o v).1
unfolding advance
Kept-advance q pid fd file none v n = Kept-refl q v
Kept-advance q pid fd file (some (pos m)) v n = Kept-set_pos q pid fd (file.f_pos + m) v n
Kept-advance q pid fd file (some (negsuc m)) v n = Kept-refl q v

pub Kept-seek_to :
    (q pid fd : ℕ) (o : Option ℕ) (offset : ℤ) (v : Vfs)
    → q ≢ pid
    → Kept q v (seek_to pid fd o offset v).1
unfolding seek_to
Kept-seek_to q pid fd none offset v n = Kept-refl q v
Kept-seek_to q pid fd (some base) offset v n =
    elim (pos base +ℤ offset)
      as (λ r.
        Kept q v
          (elim r as (λ x. ℤ × Vfs) [
            | pos n ↦ (pos n, set_pos pid fd n v)
            | negsuc n ↦ (failed, v)
          ]).1) [ pos m ↦ Kept-set_pos q pid fd m v n | negsuc m ↦ Kept-refl q v ]

Kept-make_filp : (q mode d : ℕ) (v : Vfs) → Kept q v (make_filp mode d v).1
Kept-make_filp q mode d v = Kept-file_map q v (make_filp mode d v).1 (file_map-make_filp mode d v)

pub Kept-install :
    (q pid : ℕ) (filp : ℕ → Option File) (oflag d : ℕ) (v : Vfs)
    → q ≢ pid
    → Kept q v (install pid filp oflag d v).1
unfolding install set_filp
Kept-install q pid filp oflag d v n = elim (Option-cases (free_slot nr_files 0 filp)) [
  | inl e ↦ rw (install, e) (Kept-make_filp q (v.dentry d).f_mode d v)
  | inr (fd, e) ↦
      rw (install, e)
        (Kept-trans q v (make_filp (v.dentry d).f_mode d v).1 _
          (Kept-make_filp q (v.dentry d).f_mode d v)
          (Kept-write_proc_file q pid _ (make_filp (v.dentry d).f_mode d v).1 n (λ p. refl)))
]
