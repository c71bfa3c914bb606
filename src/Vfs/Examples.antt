-- ===== src/Vfs/Examples.antt =====
-- The theorems on src/srv/vfs/vfs.c at a server with a file "a" in its root and two processes.
use fat.Prelude.{
  ℕ, ◌≡◌, true, none, some, List, [], ◌∷◌, ◌==◌, if◌then◌else◌, arith, refl, ℤ, pos, negsuc, ◌+ℤ◌,
}
use fat.Vfs.{Dentry, ProcFile, Vfs, Servers, find_pid, map_proc_file, new_file}
use fat.Vfs.Path.{vfs_lookup, lookup_loop, walk, getfilename, skip_slash, same_name, find_child}
use fat.Vfs.Calls.{vfs_open, vfs_close, vfs_lseek}
use fat.Vfs.Fork.{vfs_forkfs, vfs_freefs}
use fat.Vfs.Handle.{handle, close}
use fat.Vfs.Walks.{resolve, vfs_lookup-resolve}
use fat.Vfs.Files.{IsOpen}
use fat.Vfs.Files.Positions.{Sought, target, vfs_lseek-Sought}
use fat.Vfs.Files.Open.{IsLowest, Reaches, vfs_close-vfs_open}
use fat.Vfs.Counts.{vfs_freefs-vfs_forkfs}
use fat.Vfs.Isolation.{KeptBy}
use fat.Vfs.Isolation.Requests.{handle-KeptBy}

abbrev entry : List ℕ → ℕ → List ℕ → Dentry
entry name parent children = record {
  f_fs_pid = 7;
  f_flags = 1;
  f_ino = 2;
  f_count = pos 1;
  f_size = 100;
  f_mode = 4;
  f_name = name;
  f_parent = parent;
  f_children = children;
}

abbrev table_of : ℕ → ProcFile
table_of pid = record {
  pid = pid;
  filp = λ fd. if fd == 0 then some (new_file 4 2) else none;
  cwd = 1;
}

abbrev server : Vfs
server = record {
  dentry = λ d. if d == 1 then entry (47 ∷ []) 1 (4 ∷ []) else entry (97 ∷ []) 1 [];
  fresh = 10;
  file_map = λ i. if i == 7 then table_of 7 ∷ [] else if i == 8 then table_of 8 ∷ [] else [];
  root_entry = 1;
  stdin = 2;
  stdout = 3;
  stderr = 3;
}

abbrev silent : Servers
silent = record {
  kmap_ok = true;
  fs_lookup = λ pid ino name. none;
  fs_read = λ pid ino size offset n. some (pos n);
  fs_write = λ pid ino size offset n. some (pos n);
  fs_stat = λ pid ino. true;
  fs_getdents = λ pid ino offset n. some (pos 0);
  fs_mkdir = λ pid ino name mode. some (pos 0);
  fs_mount = λ pid part. none;
}

server-table : map_proc_file 7 server ≡ some (table_of 7)
unfolding map_proc_file find_pid
server-table = refl

handle-KeptBy_example : KeptBy 8 server (handle silent 3 7 (close 0) server)
handle-KeptBy_example = handle-KeptBy silent 3 7 8 (close 0) server (ground arith)

vfs_lookup-resolve_example :
    vfs_lookup silent 1 (47 ∷ 97 ∷ []) server ≡ some (resolve silent 1 (47 ∷ 97 ∷ []) server)
vfs_lookup-resolve_example =
    vfs_lookup-resolve silent 1 (47 ∷ 97 ∷ []) server (ground arith) (ground arith)

server-IsOpen : IsOpen 7 0 (table_of 7) (new_file 4 2) server
server-IsOpen = record { table = server-table; below = ground arith; slot = refl }

vfs_lseek-Sought_example :
    (r : ℤ × Vfs) × (vfs_lseek 7 0 (negsuc 9) 2 server ≡ some r)
    × Sought 7 0 (table_of 7) (new_file 4 2) server (target 2 (negsuc 9) 0 100) r
vfs_lseek-Sought_example =
    vfs_lseek-Sought 7 0 (negsuc 9) 2 (table_of 7) (new_file 4 2) server server-IsOpen

abbrev path_a : List ℕ
path_a = 97 ∷ []

abbrev found_a : Vfs
found_a = record server {
  dentry = λ e.
      if e == 4
      then record (server.dentry e) { f_count = (server.dentry e).f_count +ℤ pos 1 }
      else server.dentry e;
}

server-Reaches : Reaches silent 7 path_a server (table_of 7) 4 found_a
unfolding vfs_lookup lookup_loop walk getfilename skip_slash same_name find_child
server-Reaches = record { table = server-table; lookup = refl; present = ground arith }

IsLowest-free : IsLowest 0 (table_of 7).filp 1
IsLowest-free = record { from_fd = ground arith; free = refl; first = λ j a b. ground arith }

vfs_close-vfs_open_example :
    (v' v'' : Vfs) × (vfs_open silent 7 path_a 0 server ≡ some (pos 1, v'))
    × (vfs_close 7 1 v' ≡ some (pos 0, v''))
    × (map_proc_file 7 v'' ≡ some (table_of 7))
    × ((e : ℕ) → (v''.dentry e).f_count ≡ (found_a.dentry e).f_count)
vfs_close-vfs_open_example =
    vfs_close-vfs_open silent 7 path_a 0 server (table_of 7) 4 1 found_a server-Reaches
      (ground arith) IsLowest-free

server-no_table : map_proc_file 9 server ≡ none
unfolding map_proc_file find_pid
server-no_table = refl

vfs_freefs-vfs_forkfs_example :
    (v' v'' : Vfs) × (vfs_forkfs 7 9 server ≡ some (pos 0, v'))
    × (vfs_freefs 9 v' ≡ some (pos 0, v''))
    × ((e : ℕ)
        → (v''.dentry e).f_count
          ≡ (if e == 1 then (server.dentry e).f_count +ℤ pos 1 else (server.dentry e).f_count))
vfs_freefs-vfs_forkfs_example =
    vfs_freefs-vfs_forkfs 7 9 (table_of 7) server server-table server-no_table (ground arith)
