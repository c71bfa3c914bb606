-- ===== src/Vfs/Path.antt =====
-- Paths in src/srv/vfs/vfs.c: `getfilename`, `vfs_lookup_in_fs`, `vfs_lookup` and `getcwdstr`.
use fat.Prelude.{
  ℕ, zero, suc, ◌+◌, Bool, true, false, Option, none, some, List, [], ◌∷◌, ◌++◌, ◌==◌, ltb, leb,
  if◌then◌else◌, pos, ◌+ℤ◌, ◌&&◌, length,
}
use fat.Vfs.{Vfs, Servers, Attr, add_count}

-- The name up to the next slash, and the rest from there on.
unfoldable pub getfilename : List ℕ → List ℕ × List ℕ
getfilename [] = ([], [])
getfilename (c ∷ l) = let r = getfilename l in if c == 47 then ([], c ∷ l) else (c ∷ r.0, r.1)

-- `if (*sptr == '/') sptr++`
unfoldable pub skip_slash : List ℕ → List ℕ
skip_slash [] = []
skip_slash (c ∷ l) = if c == 47 then l else c ∷ l

-- `!strcmp(s, t)`
unfoldable pub same_name : List ℕ → List ℕ → Bool
same_name [] [] = true
same_name [] (d ∷ t) = false
same_name (c ∷ s) [] = false
same_name (c ∷ s) (d ∷ t) = c == d && same_name s t

-- A lookup faults through NULL or behind the end of an array, finds nothing, or finds a dentry.
pub data Looked : Type 0 where
  fault : Looked
  missing : Vfs → Looked
  found : ℕ → Vfs → Looked

unfoldable pub find_child : List ℕ → Vfs → List ℕ → Option ℕ
unfolding same_name
find_child name v [] = none
find_child name v (d ∷ l) =
    if same_name (v.dentry d).f_name name then some d else find_child name v l

-- A dentry for a file that its server knows, at the front of the children of `parent`.
unfoldable pub add_child : ℕ → List ℕ → Attr → Vfs → Vfs
add_child parent name a v =
    let child = v.fresh in
    record v {
      fresh = child + 1;
      dentry = λ e.
          if e == child
          then record {
            f_fs_pid = (v.dentry parent).f_fs_pid;
            f_flags = 1;
            f_ino = a.ino;
            f_count = pos 1;
            f_size = a.size;
            f_mode = a.mode;
            f_name = name;
            f_parent = parent;
            f_children = [];
          }
          else if e == parent
          then record (v.dentry e) {
            f_count = (v.dentry e).f_count +ℤ pos 1;
            f_children = child ∷ (v.dentry e).f_children;
          }
          else v.dentry e;
    }

-- `f_name` has 128 characters, its final 0 included.
unfoldable pub vfs_lookup_in_fs : Servers → ℕ → List ℕ → Vfs → Looked
unfolding add_child
vfs_lookup_in_fs srv parent name v =
    if srv.kmap_ok
    then elim (srv.fs_lookup (v.dentry parent).f_fs_pid (v.dentry parent).f_ino name) [
      | none ↦ missing v
      | some a ↦ if leb 128 (length name) then fault else found v.fresh (add_child parent name a v)
    ]
    else missing v

-- One turn of the loop of `vfs_lookup`, with a name. `filename` has 256 characters.
unfoldable pub walk : Servers → List ℕ → ℕ → Vfs → Looked
unfolding same_name find_child vfs_lookup_in_fs add_count
walk srv name current v =
    if leb 256 (length name)
    then fault
    else if same_name name (46 ∷ 46 ∷ [])
    then (if current == 0 then fault else found (v.dentry current).f_parent v)
    else if same_name name (46 ∷ [])
    then found current v
    else if current == 0
    then fault
    else elim (find_child name v (v.dentry current).f_children) [
      | some next ↦ found next (add_count next (pos 1) v)
      | none ↦ vfs_lookup_in_fs srv current name v
    ]

-- The loop, with a bound on its turns; `none` is a bound that is too small.
unfoldable pub lookup_loop : Servers → List ℕ → ℕ → ℕ → Vfs → Option Looked
unfolding walk getfilename skip_slash
lookup_loop srv [] fuel current v = some (found current v)
lookup_loop srv (c ∷ path) zero current v = none
lookup_loop srv (c ∷ path) (suc fuel) current v =
    let r = getfilename (c ∷ path) in
    elim (walk srv r.0 current v) [
      | fault ↦ some fault
      | missing v' ↦ some (missing v')
      | found next v' ↦ lookup_loop srv (skip_slash r.1) fuel next v'
    ]

-- A path from the root begins with a slash. The tests for NULL are the assertions.
unfoldable pub vfs_lookup : Servers → ℕ → List ℕ → Vfs → Option Looked
unfolding lookup_loop
vfs_lookup srv cwd [] v = if cwd == 0 then some fault else lookup_loop srv [] 0 cwd v
vfs_lookup srv cwd (c ∷ path) v =
    if cwd == 0
    then some fault
    else if c == 47
    then (if v.root_entry == 0
        then some fault
        else lookup_loop srv path (length path) v.root_entry v)
    else lookup_loop srv (c ∷ path) (length (c ∷ path)) cwd v

-- `getcwdstr` in a buffer of `size` characters: the text, or `some none` for the error. `none` is a
-- fault: NULL for a parent, a write outside the buffer, or a `fuel` below the depth of the dentry.
pub getcwdstr : ℕ → ℕ → ℕ → Vfs → Option (Option (List ℕ))
getcwdstr zero d size v = none
getcwdstr (suc fuel) d size v =
    let name = (v.dentry d).f_name in
    let above = getcwdstr fuel (v.dentry d).f_parent size v in
    if d == 0
    then none
    else if d == v.root_entry
    then some (if ltb size (length name + 1) then none else some name)
    else elim above [
      | none ↦ none
      | some none ↦ if ltb size (length name + 2) then some none else none
      | some (some text) ↦
          if ltb size (length name + 2)
          then some none
          else if ltb size (length text + length name + 2)
          then none
          else some (some (text ++ name ++ 47 ∷ []))
    ]
