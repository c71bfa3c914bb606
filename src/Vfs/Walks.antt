-- ===== src/Vfs/Walks.antt =====
-- `vfs_lookup` of src/srv/vfs/vfs.c, against the names of a path, one after the other.
use fat.Prelude.{
  ℕ, zero, suc, ◌≤◌, ◌≡◌, ◌≢◌, Option, some, List, [], ◌∷◌, ◌==◌, length, if◌then◌else◌, arith,
  refl, ap, sym, ◌∙◌,
}
use fat.Vfs.{Vfs, Servers}
use fat.Vfs.Path.{
  Looked, fault, missing, found, getfilename, skip_slash, walk, lookup_loop, vfs_lookup,
}

-- A character before the first of the names.
push : ℕ → List (List ℕ) → List (List ℕ)
push c [] = (c ∷ []) ∷ []
push c (name ∷ names) = (c ∷ name) ∷ names

-- The parts of a path between its slashes, where a slash at the end begins no further part.
names : List ℕ → List (List ℕ)
unfolding push
names [] = []
names (c ∷ path) = if c == 47 then [] ∷ names path else push c (names path)

-- Each name is looked up in the dentry that the one before it led to.
walk_all : Servers → List (List ℕ) → ℕ → Vfs → Looked
walk_all srv [] current v = found current v
walk_all srv (name ∷ l) current v = elim (walk srv name current v) [
  | fault ↦ fault
  | missing v' ↦ missing v'
  | found next v' ↦ walk_all srv l next v'
]

-- The names of a path and where they are counted from.
pub resolve : Servers → ℕ → List ℕ → Vfs → Looked
unfolding walk_all names
resolve srv cwd [] v = found cwd v
resolve srv cwd (c ∷ path) v =
    if c == 47
    then walk_all srv (names path) v.root_entry v
    else walk_all srv (names (c ∷ path)) cwd v

names-getfilename :
    (c : ℕ) (path : List ℕ)
    → names (c ∷ path) ≡ (getfilename (c ∷ path)).0 ∷ names (skip_slash (getfilename (c ∷ path)).1)
unfolding names getfilename skip_slash push
names-getfilename c [] = ground arith
names-getfilename c (d ∷ path) = ground (arith, names-getfilename d path)

length-skip_slash : (path : List ℕ) → length (skip_slash path) ≤ length path
unfolding skip_slash
length-skip_slash [] = ground arith
length-skip_slash (c ∷ path) = ground arith

length-getfilename : (path : List ℕ) → length (getfilename path).1 ≤ length path
unfolding getfilename
length-getfilename [] = ground arith
length-getfilename (c ∷ path) = ground (arith, length-getfilename path)

length-rest : (c : ℕ) (path : List ℕ) → length (skip_slash (getfilename (c ∷ path)).1) ≤ length path
unfolding getfilename skip_slash
length-rest c path = ground (arith, length-getfilename path, length-skip_slash (getfilename path).1)

after_turn :
    (l : Looked) (k : ℕ → Vfs → Option Looked) (k' : ℕ → Vfs → Looked)
    → ((next : ℕ) (v' : Vfs) → k next v' ≡ some (k' next v'))
    → (elim l as (λ x. Option Looked) [
      | fault ↦ some fault
      | missing v' ↦ some (missing v')
      | found next v' ↦ k next v'
    ])
      ≡ some (elim l as (λ x. Looked) [
        | fault ↦ fault
        | missing v' ↦ missing v'
        | found next v' ↦ k' next v'
      ])
after_turn fault k k' h = refl
after_turn (missing v') k k' h = refl
after_turn (found next v') k k' h = h next v'

-- With a turn for each character the loop visits all the names.
lookup_loop-walk_all :
    (srv : Servers) (path : List ℕ) (fuel current : ℕ) (v : Vfs)
    → length path ≤ fuel
    → lookup_loop srv path fuel current v ≡ some (walk_all srv (names path) current v)
unfolding lookup_loop walk_all names
lookup_loop-walk_all srv [] fuel current v h = refl
lookup_loop-walk_all srv (c ∷ path) zero current v h = ground arith
lookup_loop-walk_all srv (c ∷ path) (suc fuel) current v h =
    let g = getfilename (c ∷ path) in
    after_turn (walk srv g.0 current v) (lookup_loop srv (skip_slash g.1) fuel)
      (walk_all srv (names (skip_slash g.1)))
      (λ next v'.
        lookup_loop-walk_all srv (skip_slash g.1) fuel next v' (ground (arith, length-rest c path)))
    ∙ ap (λ n. some (walk_all srv n current v)) (sym (names-getfilename c path))

-- From a current directory and a root that are not NULL, `vfs_lookup` ends, within a turn for each character of the
-- path, and its result is that of looking up the names between the slashes one after the other, from
-- the root if the path begins with a slash and else from the current directory.
pub vfs_lookup-resolve :
    (srv : Servers) (cwd : ℕ) (path : List ℕ) (v : Vfs)
    → cwd ≢ 0
    → v.root_entry ≢ 0
    → vfs_lookup srv cwd path v ≡ some (resolve srv cwd path v)
unfolding vfs_lookup resolve lookup_loop
vfs_lookup-resolve srv cwd [] v n z = ground arith
vfs_lookup-resolve srv cwd (c ∷ path) v n z = ground (
  arith,
  lookup_loop-walk_all srv path (length path) v.root_entry v,
  lookup_loop-walk_all srv (c ∷ path) (length (c ∷ path)) cwd v,
)
