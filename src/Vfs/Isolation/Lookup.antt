-- ===== src/Vfs/Isolation/Lookup.antt =====
-- The lookups of paths in src/srv/vfs/vfs.c leave the tables of the processes alone.
use fat.Prelude.{ℕ, zero, suc, ◌≡◌, Option, none, some, List, [], ◌∷◌, length, arith, refl, ◌∙◌}
use fat.Vfs.{Vfs, Servers, add_count}
use fat.Vfs.Path.{
  Looked, fault, missing, found, getfilename, skip_slash, add_child, vfs_lookup_in_fs, walk,
  lookup_loop, vfs_lookup,
}

-- The state after a lookup that began in `v`.
abbrev state_of : Vfs → Looked → Vfs
state_of v fault = v
state_of v (missing v') = v'
state_of v (found d v') = v'

-- The state after the loop; a loop that ran out of turns has none.
abbrev pub state_after : Vfs → Option Looked → Vfs
state_after v none = v
state_after v (some l) = state_of v l

file_map-vfs_lookup_in_fs :
    (srv : Servers) (parent : ℕ) (name : List ℕ) (v : Vfs)
    → (state_of v (vfs_lookup_in_fs srv parent name v)).file_map ≡ v.file_map
unfolding vfs_lookup_in_fs add_child
file_map-vfs_lookup_in_fs srv parent name v = ground arith

file_map-walk :
    (srv : Servers) (name : List ℕ) (current : ℕ) (v : Vfs)
    → (state_of v (walk srv name current v)).file_map ≡ v.file_map
unfolding walk add_count
file_map-walk srv name current v = ground (arith, file_map-vfs_lookup_in_fs srv current name v)

-- What holds after a turn and after what follows it, holds after both.
then_kept :
    (v : Vfs) (l : Looked) (k : ℕ → Vfs → Option Looked)
    → (state_of v l).file_map ≡ v.file_map
    → ((next : ℕ) (v' : Vfs) → (state_after v' (k next v')).file_map ≡ v'.file_map)
    → (state_after v (elim l as (λ x. Option Looked) [
      | fault ↦ some fault
      | missing v' ↦ some (missing v')
      | found next v' ↦ k next v'
    ])).file_map
      ≡ v.file_map
then_kept v fault k e h = refl
then_kept v (missing v') k e h = e
then_kept v (found next v') k e h =
    elim (k next v')
        as (λ o.
          (state_after v' o).file_map ≡ v'.file_map → (state_after v o).file_map ≡ v.file_map) [
            | none ↦ λ f. refl
            | some l ↦
                elim l
                  as (λ l.
                    (state_of v' l).file_map ≡ v'.file_map → (state_of v l).file_map ≡ v.file_map) [
                      | fault ↦ λ f. refl
                      | missing w ↦ λ f. f ∙ e
                      | found d w ↦ λ f. f ∙ e
                    ]
          ]
      (h next v')

file_map-lookup_loop :
    (srv : Servers) (path : List ℕ) (fuel current : ℕ) (v : Vfs)
    → (state_after v (lookup_loop srv path fuel current v)).file_map ≡ v.file_map
unfolding lookup_loop
file_map-lookup_loop srv [] fuel current v = refl
file_map-lookup_loop srv (c ∷ path) zero current v = refl
file_map-lookup_loop srv (c ∷ path) (suc fuel) current v =
    then_kept v (walk srv (getfilename (c ∷ path)).0 current v)
      (lookup_loop srv (skip_slash (getfilename (c ∷ path)).1) fuel)
      (file_map-walk srv (getfilename (c ∷ path)).0 current v)
      (file_map-lookup_loop srv (skip_slash (getfilename (c ∷ path)).1) fuel)

pub file_map-vfs_lookup :
    (srv : Servers) (cwd : ℕ) (path : List ℕ) (v : Vfs)
    → (state_after v (vfs_lookup srv cwd path v)).file_map ≡ v.file_map
unfolding vfs_lookup
file_map-vfs_lookup srv cwd [] v = ground (arith, file_map-lookup_loop srv [] 0 cwd v)
file_map-vfs_lookup srv cwd (c ∷ path) v = ground (
  arith,
  file_map-lookup_loop srv path (length path) v.root_entry v,
  file_map-lookup_loop srv (c ∷ path) (length (c ∷ path)) cwd v,
)
