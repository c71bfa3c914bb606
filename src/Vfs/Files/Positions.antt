-- ===== src/Vfs/Files/Positions.antt =====
-- The position of an open file in src/srv/vfs/vfs.c: `vfs_lseek`, and `vfs_read` and `vfs_write` after it.
use fat.Prelude.{
  ℕ, zero, suc, ◌+◌, ◌≡◌, ◌≢◌, true, Option, none, some, arith, refl, ap, subst, ◌∙◌, ℤ, pos,
  negsuc, ◌+ℤ◌, eq_of_parts, +ℤ_parts,
}
use fat.Vfs.{
  set_bucket, File, ProcFile, Vfs, Servers, map_proc_file, write_proc_file, set_filp, set_pos,
}
use fat.Vfs.Calls.{failed, with_file, advance, seek_base, seek_to, vfs_read, vfs_lseek}
use fat.Vfs.Files.{IsOpen, getfilp-IsOpen}
use fat.Vfs.Table.{map-write_proc_file}

abbrev pub moved : ℕ → File → File
moved n file = record file { f_pos = n }

-- The same table, with the file at another position.
abbrev at_pos : ℕ → ℕ → File → ProcFile → ProcFile
at_pos fd n file p = set_filp fd (some (moved n file)) p

set_filp-pid : (fd : ℕ) (o : Option File) (p : ProcFile) → (set_filp fd o p).pid ≡ p.pid
unfolding set_filp
set_filp-pid fd o p = refl

slot-set_filp : (fd : ℕ) (o : Option File) (p : ProcFile) → (set_filp fd o p).filp fd ≡ o
unfolding set_filp
slot-set_filp fd o p = ground arith

set_pos-set_filp :
    (fd n : ℕ) (p : ProcFile) (file : File)
    → p.filp fd ≡ some file
    → elim (p.filp fd) as (λ x. ProcFile) [ none ↦ p | some f ↦ set_filp fd (some (moved n f)) p ]
      ≡ at_pos fd n file p
set_pos-set_filp fd n p file e = rw e refl

map-set_pos :
    (pid fd n : ℕ) (p : ProcFile) (file : File) (v : Vfs)
    → map_proc_file pid v ≡ some p
    → p.filp fd ≡ some file
    → map_proc_file pid (set_pos pid fd n v) ≡ some (at_pos fd n file p)
unfolding set_pos
map-set_pos pid fd n p file v e s =
    map-write_proc_file pid pid _ v (λ r.
      elim (r.filp fd)
        as (λ o.
          (elim o as (λ x. ProcFile) [ none ↦ r | some f ↦ set_filp fd (some (moved n f)) r ]).pid
          ≡ r.pid) [ none ↦ refl | some f ↦ set_filp-pid fd (some (moved n f)) r ])
    ∙ ground (arith, set_pos-set_filp fd n p file s)

set_pos-IsOpen :
    (pid fd n : ℕ) (p : ProcFile) (file : File) (v : Vfs)
    → IsOpen pid fd p file v
    → IsOpen pid fd (at_pos fd n file p) (moved n file) (set_pos pid fd n v)
set_pos-IsOpen pid fd n p file v o = record {
  table = map-set_pos pid fd n p file v o.table o.slot;
  below = o.below;
  slot = slot-set_filp fd (some (moved n file)) p;
}

-- Where a seek leads to: the offset from the start, the position or the end of the file.
pub target : ℕ → ℤ → ℕ → ℕ → Option ℤ
target zero offset at end = some offset
target (suc zero) offset at end = some (pos at +ℤ offset)
target (suc (suc zero)) offset at end = some (pos end +ℤ offset)
target (suc (suc (suc n))) offset at end = none

-- The answer of a seek to there, and the file after it.
pub data Sought (pid fd : ℕ) (p : ProcFile) (file : File) (v : Vfs)
    : Option ℤ → ℤ × Vfs → Type 0 where
  there :
      {n : ℕ} {v' : Vfs}
      → IsOpen pid fd (at_pos fd n file p) (moved n file) v'
      → ((q : ℕ) → q ≢ pid → map_proc_file q v' ≡ map_proc_file q v)
      → record v' { file_map = v.file_map } ≡ v
      → Sought pid fd p file v (some (pos n)) (pos n, v')
  before_start : {n : ℕ} → Sought pid fd p file v (some (negsuc n)) (failed, v)
  unknown : Sought pid fd p file v none (failed, v)

-- The rest of the state.
set_pos_rest : (pid fd n : ℕ) (v : Vfs) → record (set_pos pid fd n v) { file_map = v.file_map } ≡ v
unfolding set_pos write_proc_file set_bucket
set_pos_rest pid fd n v = refl

-- The tables of the other processes.
map-set_pos_other :
    (pid fd n q : ℕ) (v : Vfs) → q ≢ pid → map_proc_file q (set_pos pid fd n v) ≡ map_proc_file q v
unfolding set_pos
map-set_pos_other pid fd n q v o =
    map-write_proc_file pid q _ v (λ r.
      elim (r.filp fd)
        as (λ x.
          (elim x as (λ y. ProcFile) [ none ↦ r | some f ↦ set_filp fd (some (moved n f)) r ]).pid
          ≡ r.pid) [ none ↦ refl | some f ↦ set_filp-pid fd (some (moved n f)) r ])
    ∙ ground (arith, o)

vfs_lseek-IsOpen :
    (pid fd : ℕ) (offset : ℤ) (whence : ℕ) (p : ProcFile) (file : File) (v : Vfs)
    → IsOpen pid fd p file v
    → vfs_lseek pid fd offset whence v
      ≡ some (seek_to pid fd (seek_base whence file (v.dentry file.f_dentry)) offset v)
unfolding vfs_lseek with_file
vfs_lseek-IsOpen pid fd offset whence p file v o =
    rw (vfs_lseek, getfilp-IsOpen pid fd p file v o) refl

sought :
    (pid fd base : ℕ) (offset : ℤ) (p : ProcFile) (file : File) (v : Vfs) (t : Option ℤ)
    → IsOpen pid fd p file v
    → some (pos base +ℤ offset) ≡ t
    → Sought pid fd p file v t (seek_to pid fd (some base) offset v)
unfolding seek_to
sought pid fd base offset p file v t o e =
    subst (λ t. Sought pid fd p file v t (seek_to pid fd (some base) offset v)) e
      (elim (pos base +ℤ offset)
        as (λ r. Sought pid fd p file v (some r) (elim r as (λ x. ℤ × Vfs) [
          | pos n ↦ (pos n, set_pos pid fd n v)
          | negsuc n ↦ (failed, v)
        ])) [
          | pos n ↦
              there (set_pos-IsOpen pid fd n p file v o) (λ q. map-set_pos_other pid fd n q v)
                (set_pos_rest pid fd n v)
          | negsuc n ↦ before_start
        ])

zero_add : (a : ℤ) → pos 0 +ℤ a ≡ a
zero_add a = eq_of_parts (pos 0 +ℤ a) a (ground (arith, +ℤ_parts (pos 0) a))

-- A seek in an open file with SEEK_SET, SEEK_CUR or SEEK_END goes to the offset from the start, the
-- position or the end and answers where that is. In the table of the process only the position of the file
-- is another, the tables of the other processes are as they were, and so is all of the state but the tables,
-- such as the dentries. Where it is before the start, or `whence` is none of the three, the answer is -1 and the state is unchanged.
pub vfs_lseek-Sought :
    (pid fd : ℕ) (offset : ℤ) (whence : ℕ) (p : ProcFile) (file : File) (v : Vfs)
    → IsOpen pid fd p file v
    → (r : ℤ × Vfs) × (vfs_lseek pid fd offset whence v ≡ some r)
      × Sought pid fd p file v (target whence offset file.f_pos (v.dentry file.f_dentry).f_size) r
unfolding target seek_base seek_to
vfs_lseek-Sought pid fd offset zero p file v o = (
  _,
  vfs_lseek-IsOpen pid fd offset 0 p file v o,
  sought pid fd 0 offset p file v (some offset) o (ap some (zero_add offset)),
)
vfs_lseek-Sought pid fd offset (suc zero) p file v o = (
  _,
  vfs_lseek-IsOpen pid fd offset 1 p file v o,
  sought pid fd file.f_pos offset p file v _ o refl,
)
vfs_lseek-Sought pid fd offset (suc (suc zero)) p file v o = (
  _,
  vfs_lseek-IsOpen pid fd offset 2 p file v o,
  sought pid fd (v.dentry file.f_dentry).f_size offset p file v _ o refl,
)
vfs_lseek-Sought pid fd offset (suc (suc (suc n))) p file v o = (
  (failed, v),
  vfs_lseek-IsOpen pid fd offset (suc (suc (suc n))) p file v o ∙ ground arith,
  unknown,
)

vfs_read-IsOpen :
    (srv : Servers) (pid fd size k : ℕ) (p : ProcFile) (file : File) (v : Vfs)
    → IsOpen pid fd p file v
    → srv.kmap_ok ≡ true
    → srv.fs_read
        (v.dentry file.f_dentry).f_fs_pid
        (v.dentry file.f_dentry).f_ino
        (v.dentry file.f_dentry).f_size
        file.f_pos
        size
      ≡ some (pos k)
    → vfs_read srv pid fd size v ≡ some (pos k, set_pos pid fd (file.f_pos + k) v)
unfolding vfs_read with_file advance
vfs_read-IsOpen srv pid fd size k p file v o m e =
    rw (vfs_read, getfilp-IsOpen pid fd p file v o, m, e) refl

vfs_lseek-pos :
    (pid fd base n : ℕ) (offset : ℤ) (whence : ℕ) (p : ProcFile) (file : File) (v : Vfs)
    → IsOpen pid fd p file v
    → seek_base whence file (v.dentry file.f_dentry) ≡ some base
    → pos base +ℤ offset ≡ pos n
    → vfs_lseek pid fd offset whence v ≡ some (pos n, set_pos pid fd n v)
unfolding seek_to
vfs_lseek-pos pid fd base n offset whence p file v o b e =
    vfs_lseek-IsOpen pid fd offset whence p file v o ∙ rw (b, seek_to, e) refl

pos_add : (a b : ℕ) → pos a +ℤ pos b ≡ pos (a + b)
pos_add a b = eq_of_parts (pos a +ℤ pos b) (pos (a + b)) (ground (arith, +ℤ_parts (pos a) (pos b)))

-- After a seek of an open file to `n`, a read that returns `k`, and a seek by nothing from the position,
-- the last answers `n + k`: the server was asked for what stands at `n`, and the position is behind it.
seek_read_tell :
    (srv : Servers) (pid fd size n k : ℕ) (p : ProcFile) (file : File) (v : Vfs)
    → IsOpen pid fd p file v
    → srv.kmap_ok ≡ true
    → srv.fs_read
        (v.dentry file.f_dentry).f_fs_pid
        (v.dentry file.f_dentry).f_ino
        (v.dentry file.f_dentry).f_size
        n
        size
      ≡ some (pos k)
    → (v1 v2 v3 : Vfs) × (vfs_lseek pid fd (pos n) 0 v ≡ some (pos n, v1))
      × (vfs_read srv pid fd size v1 ≡ some (pos k, v2))
      × (vfs_lseek pid fd (pos 0) 1 v2 ≡ some (pos (n + k), v3))
unfolding seek_base set_pos write_proc_file
seek_read_tell srv pid fd size n k p file v o m e =
    let v1 = set_pos pid fd n v in
    let o1 = set_pos-IsOpen pid fd n p file v o in
    let o2 = set_pos-IsOpen pid fd (n + k) _ _ v1 o1 in
    (
      v1,
      set_pos pid fd (n + k) v1,
      set_pos pid fd (n + k) (set_pos pid fd (n + k) v1),
      vfs_lseek-pos pid fd 0 n (pos n) 0 p file v o refl (zero_add (pos n)),
      vfs_read-IsOpen srv pid fd size k _ _ v1 o1 m e,
      vfs_lseek-pos pid fd (n + k) (n + k) (pos 0) 1 _ _ _ o2 refl
          (pos_add (n + k) 0 ∙ ground arith),
    )
