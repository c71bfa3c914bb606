-- ===== src/Vfs/Isolation.antt =====
-- Which tables of src/srv/vfs/vfs.c a request to the server writes.
pub mod Lookup
pub mod Steps
pub mod Requests
use fat.Prelude.{
  ℕ, zero, suc, ◌+◌, ◌%◌, ◌≡◌, ◌≢◌, Bool, true, false, Option, none, some, List, [], ◌∷◌, ◌==◌,
  if◌then◌else◌, arith, refl, ap, sym, subst, ◌∙◌, Bool-cases, Option-cases, inl, inr, ℤ, pos,
  negsuc,
}
use fat.Vfs.{
  File, ProcFile, Vfs, Servers, file_map_size, find_pid, map_proc_file, unmap_proc_file,
  append_proc_file, write_proc_file, set_filp, set_pos, add_count, make_filp, free_filp, std_files,
  init_proc_file, open_table, getfilp,
}
use fat.Vfs.Table.{map-write_proc_file, map-unmap_proc_file, map-append_proc_file}

-- The process keeps its table.
unfoldable pub Kept : ℕ → Vfs → Vfs → Type 0
Kept q v v' = (p : ProcFile) → map_proc_file q v ≡ some p → map_proc_file q v' ≡ some p

-- It does in the state after a call, if the call returns.
pub KeptBy : {A : Type 0} → ℕ → Vfs → Option (A × Vfs) → Type 0
unfolding Kept
KeptBy q v none = Unit
KeptBy q v (some (a, v')) = Kept q v v'

pub Kept-trans : (q : ℕ) (u v w : Vfs) → Kept q u v → Kept q v w → Kept q u w
unfolding Kept
Kept-trans q u v w k l p e = l p (k p e)

pub Kept-refl : (q : ℕ) (v : Vfs) → Kept q v v
unfolding Kept
Kept-refl q v p e = e

pub Kept-file_map : (q : ℕ) (v v' : Vfs) → v'.file_map ≡ v.file_map → Kept q v v'
unfolding Kept map_proc_file
Kept-file_map q v v' k p e = ap (λ m. find_pid q (m (q % file_map_size))) k ∙ e

pub Kept-write_proc_file :
    (q pid : ℕ) (f : ProcFile → ProcFile) (v : Vfs)
    → q ≢ pid
    → ((p : ProcFile) → (f p).pid ≡ p.pid)
    → Kept q v (write_proc_file pid f v)
unfolding Kept
Kept-write_proc_file q pid f v n k p e = ground (arith, map-write_proc_file pid q f v k)

pub Kept-unmap_proc_file : (q pid : ℕ) (v : Vfs) → q ≢ pid → Kept q v (unmap_proc_file pid v)
unfolding Kept
Kept-unmap_proc_file q pid v n p e = map-unmap_proc_file pid q v n ∙ e

pub Kept-append_proc_file :
    (q : ℕ) (p : ProcFile) (v v' : Vfs) → append_proc_file p v ≡ some v' → Kept q v v'
unfolding Kept
Kept-append_proc_file q p v v' a r e = ground (arith, map-append_proc_file q p v v' a)

file_map-init_proc_file : (pid : ℕ) (v : Vfs) → (init_proc_file pid v).1.file_map ≡ v.file_map
unfolding init_proc_file std_files make_filp add_count
file_map-init_proc_file pid v = refl

pub open_table-KeptBy : (q pid : ℕ) (v : Vfs) → KeptBy q v (open_table pid v)
unfolding KeptBy open_table
open_table-KeptBy q pid v = elim (Option-cases (map_proc_file pid v)) [
  | inr (p, e) ↦ rw (open_table, e) (Kept-refl q v)
  | inl e ↦
      elim (Option-cases (append_proc_file (init_proc_file pid v).0 (init_proc_file pid v).1)) [
        | inl f ↦ rw (open_table, e, f) tt
        | inr (v', f) ↦
            rw (open_table, e, f)
              (Kept-trans q v (init_proc_file pid v).1 v'
                (Kept-file_map q v _ (file_map-init_proc_file pid v))
                (Kept-append_proc_file q _ _ v' f))
      ]
]
