-- ===== src/Vfs/Mount.antt =====
-- `mount_root` and `mount_dev` of src/srv/vfs/vfs.c: the dentries that the server starts with. The list
-- `mount_head`, which nothing reads, is left out. A file system that answers a mount with an error counts
-- as mounted, since only the message is checked.
use fat.Prelude.{ℕ, ◌+◌, Option, none, some, List, [], ◌∷◌, ◌++◌, ◌==◌, if◌then◌else◌, ℤ, pos, ◌+ℤ◌}
use fat.Vfs.{Dentry, Vfs, Servers}
use fat.Vfs.Calls.{failed}

abbrev ipc_kernel : ℕ
ipc_kernel = 268435455

abbrev ipc_kb : ℕ
ipc_kb = 4

abbrev ipc_video : ℕ
ipc_video = 5

record DevFile : Type 0 where
  pub name : List ℕ
  pub driver_pid : ℕ
  pub mode : ℕ

-- "video" and "keyboard".
abbrev dev_table : List DevFile
dev_table =
    record { name = 118 ∷ 105 ∷ 100 ∷ 101 ∷ 111 ∷ []; driver_pid = ipc_video; mode = 146 }
    ∷ record {
      name = 107 ∷ 101 ∷ 121 ∷ 98 ∷ 111 ∷ 97 ∷ 114 ∷ 100 ∷ [];
      driver_pid = ipc_kb;
      mode = 292;
    }
    ∷ []

-- A dentry in fresh memory.
new_dentry : Dentry → Vfs → Vfs
new_dentry entry v = record v {
  fresh = v.fresh + 1;
  dentry = λ e. if e == v.fresh then entry else v.dentry e;
}

-- `list_add_tail` to the children of `parent`, which has one user more.
add_last : ℕ → ℕ → Vfs → Vfs
add_last parent child v = record v {
  dentry = λ e.
      if e == parent
      then record (v.dentry e) {
        f_count = (v.dentry e).f_count +ℤ pos 1;
        f_children = (v.dentry e).f_children ++ child ∷ [];
      }
      else v.dentry e;
}

mount_root : Servers → ℕ → ℕ → Vfs → ℤ × Vfs
unfolding new_dentry
mount_root srv fs_pid part v =
    let v' = record v { root_entry = v.fresh } in
    if srv.kmap_ok
    then elim (srv.fs_mount fs_pid part) [
      | none ↦ (failed, v')
      | some a ↦ (
        pos 0,
        new_dentry
            (record {
              f_fs_pid = fs_pid;
              f_flags = 1;
              f_ino = a.ino;
              f_count = pos 1;
              f_size = a.size;
              f_mode = a.mode;
              f_name = 47 ∷ [];
              f_parent = v.fresh;
              f_children = [];
            })
            v',
      )
    ]
    else (failed, v')

-- The standard files, when the device is theirs.
set_std : ℕ → ℕ → Vfs → Vfs
set_std driver_pid dev v =
    if driver_pid == ipc_video
    then record v { stdout = dev; stderr = dev }
    else if driver_pid == ipc_kb
    then record v { stdin = dev }
    else v

-- One turn of the loop over the devices, with the number `i`.
add_dev : ℕ → ℕ → DevFile → Vfs → Vfs
unfolding new_dentry add_last set_std
add_dev dev_dir i dev_file v = set_std dev_file.driver_pid v.fresh (
    add_last dev_dir v.fresh (
      new_dentry
        (record {
          f_fs_pid = dev_file.driver_pid;
          f_flags = 2;
          f_ino = i;
          f_count = pos 1;
          f_size = 0;
          f_mode = dev_file.mode;
          f_name = dev_file.name;
          f_parent = 0;
          f_children = [];
        })
        v))

add_devs : ℕ → ℕ → List DevFile → Vfs → Vfs
unfolding add_dev
add_devs dev_dir i [] v = v
add_devs dev_dir i (dev_file ∷ l) v = add_devs dev_dir (i + 1) l (add_dev dev_dir i dev_file v)

-- `none` is the failed assertion. The memory of the directory is cleared, so that it has no users yet.
mount_dev : Vfs → Option (ℤ × Vfs)
unfolding new_dentry add_last add_devs
mount_dev v =
    if v.root_entry == 0
    then none
    else some (
      pos 0,
      add_devs v.fresh 0 dev_table (
          add_last v.root_entry v.fresh (
            new_dentry
              (record {
                f_fs_pid = ipc_kernel;
                f_flags = 2;
                f_ino = 0;
                f_count = pos 0;
                f_size = 0;
                f_mode = 438;
                f_name = 100 ∷ 101 ∷ 118 ∷ [];
                f_parent = 0;
                f_children = [];
              })
              v)),
    )
