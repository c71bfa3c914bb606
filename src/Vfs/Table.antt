-- ===== src/Vfs/Table.antt =====
-- The tables of the processes in src/srv/vfs/vfs.c, by pid, under the writes to them.
use fat.Prelude.{
  ℕ, ◌%◌, ◌≡◌, ◌≢◌, none, some, List, [], ◌∷◌, ◌++◌, ◌==◌, if◌then◌else◌, arith, refl, ◌∙◌,
  Option-cases, inl, inr,
}
use fat.Vfs.{
  ProcFile, Vfs, find_pid, remove_pid, update_pid, set_bucket, map_proc_file, unmap_proc_file,
  append_proc_file, write_proc_file, file_map_size,
}

find_pid-pid : (pid : ℕ) (l : List ProcFile) (p : ProcFile) → find_pid pid l ≡ some p → p.pid ≡ pid
unfolding find_pid
find_pid-pid pid [] p e = ground arith
find_pid-pid pid (q ∷ l) p e = ground (arith, find_pid-pid pid l p)

map_proc_file-pid : (pid : ℕ) (v : Vfs) (p : ProcFile) → map_proc_file pid v ≡ some p → p.pid ≡ pid
unfolding map_proc_file
map_proc_file-pid pid v p e = find_pid-pid pid _ p e

find_pid-update_pid :
    (pid q : ℕ) (f : ProcFile → ProcFile) (l : List ProcFile)
    → ((p : ProcFile) → (f p).pid ≡ p.pid)
    → find_pid q (update_pid pid f l) ≡ (
        if q == pid
        then elim (find_pid pid l) [ none ↦ none | some p ↦ some (f p) ]
        else find_pid q l)
unfolding find_pid update_pid
find_pid-update_pid pid q f [] k = ground arith
find_pid-update_pid pid q f (p ∷ l) k = ground (arith, k p, find_pid-update_pid pid q f l k)

find_pid-remove_pid :
    (pid q : ℕ) (l : List ProcFile) → q ≢ pid → find_pid q (remove_pid pid l) ≡ find_pid q l
unfolding find_pid remove_pid
find_pid-remove_pid pid q [] n = refl
find_pid-remove_pid pid q (p ∷ l) n = ground (arith, find_pid-remove_pid pid q l n)

find_pid-append :
    (q : ℕ) (p : ProcFile) (l : List ProcFile)
    → find_pid q (l ++ p ∷ [])
      ≡ elim (find_pid q l) [ none ↦ if p.pid == q then some p else none | some r ↦ some r ]
unfolding find_pid
find_pid-append q p [] = refl
find_pid-append q p (r ∷ l) = ground (arith, find_pid-append q p l)

-- What the process `q` has after a write to one bucket.
map-set_bucket :
    (pid q : ℕ) (g : List ProcFile → List ProcFile) (v : Vfs)
    → map_proc_file q (set_bucket pid g v) ≡ (
        if q % file_map_size == pid % file_map_size
        then find_pid q (g (v.file_map (q % file_map_size)))
        else map_proc_file q v)
unfolding map_proc_file set_bucket
map-set_bucket pid q g v = ground arith

pub map-write_proc_file :
    (pid q : ℕ) (f : ProcFile → ProcFile) (v : Vfs)
    → ((p : ProcFile) → (f p).pid ≡ p.pid)
    → map_proc_file q (write_proc_file pid f v) ≡ (
        if q == pid
        then elim (map_proc_file pid v) [ none ↦ none | some p ↦ some (f p) ]
        else map_proc_file q v)
unfolding write_proc_file map_proc_file
map-write_proc_file pid q f v k =
    map-set_bucket pid q (update_pid pid f) v
    ∙ ground (arith, find_pid-update_pid pid q f (v.file_map (q % file_map_size)) k)

removed :
    (pid q : ℕ) (v : Vfs)
    → q ≢ pid
    → map_proc_file q (set_bucket pid (remove_pid pid) v) ≡ map_proc_file q v
unfolding map_proc_file
removed pid q v n =
    map-set_bucket pid q (remove_pid pid) v
    ∙ ground (arith, find_pid-remove_pid pid q (v.file_map (q % file_map_size)) n)

appended :
    (q : ℕ) (p : ProcFile) (v : Vfs)
    → map_proc_file p.pid v ≡ none
    → map_proc_file q (set_bucket p.pid (λ l. l ++ p ∷ []) v)
      ≡ elim (map_proc_file q v) [ none ↦ if p.pid == q then some p else none | some r ↦ some r ]
unfolding map_proc_file
appended q p v e =
    map-set_bucket p.pid q (λ l. l ++ p ∷ []) v
    ∙ ground (arith, find_pid-append q p (v.file_map (q % file_map_size)))

pub map-unmap_proc_file :
    (pid q : ℕ) (v : Vfs) → q ≢ pid → map_proc_file q (unmap_proc_file pid v) ≡ map_proc_file q v
unfolding unmap_proc_file
map-unmap_proc_file pid q v n = elim (Option-cases (map_proc_file pid v)) [
  | inl e ↦ rw (unmap_proc_file, e) refl
  | inr (p, e) ↦ rw (unmap_proc_file, e) (removed pid q v n)
]

pub map-append_proc_file :
    (q : ℕ) (p : ProcFile) (v v' : Vfs)
    → append_proc_file p v ≡ some v'
    → map_proc_file q v'
      ≡ elim (map_proc_file q v) [ none ↦ if p.pid == q then some p else none | some r ↦ some r ]
unfolding append_proc_file
map-append_proc_file q p v v' e = elim (Option-cases (map_proc_file p.pid v)) [
  | inl n ↦ ground (arith, appended q p v n)
  | inr (r, f) ↦ ground arith
]
