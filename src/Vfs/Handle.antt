-- ===== src/Vfs/Handle.antt =====
-- `do_process` of src/srv/vfs/vfs.c: one message, and the reply to it.
use fat.Prelude.{ℕ, List, ℤ, some}
use fat.Vfs.{Vfs, Servers}
use fat.Vfs.Calls.{
  Result, failed, vfs_read, vfs_write, vfs_open, vfs_close, vfs_lseek, vfs_getcwd, vfs_chdir,
  vfs_stat, vfs_getdents, vfs_mkdir,
}
use fat.Vfs.Fork.{vfs_forkfs, vfs_execfs, vfs_freefs}

-- The messages of the kernel and of the processes.
pub data Request : Type 0 where
  read : ℕ → ℕ → Request
  write : ℕ → ℕ → Request
  open_file : List ℕ → ℕ → Request
  close : ℕ → Request
  lseek : ℕ → ℤ → ℕ → Request
  getcwd : ℕ → Request
  chdir : List ℕ → Request
  stat : List ℕ → Request
  getdents : ℕ → ℕ → Request
  mkdir : List ℕ → ℕ → Request
  forkfs : ℕ → Request
  execfs : Request
  freefs : Request
  unsupported : Request

-- The result for the process `src`; `depth` bounds the depth of its directory.
unfoldable pub handle : Servers → ℕ → ℕ → Request → Vfs → Result
handle srv depth src (read fd size) v = vfs_read srv src fd size v
handle srv depth src (write fd size) v = vfs_write srv src fd size v
handle srv depth src (open_file path oflag) v = vfs_open srv src path oflag v
handle srv depth src (close fd) v = vfs_close src fd v
handle srv depth src (lseek fd offset whence) v = vfs_lseek src fd offset whence v
handle srv depth src (getcwd size) v = vfs_getcwd depth src size v
handle srv depth src (chdir path) v = vfs_chdir srv src path v
handle srv depth src (stat path) v = vfs_stat srv src path v
handle srv depth src (getdents fd count) v = vfs_getdents srv src fd count v
handle srv depth src (mkdir name mode) v = vfs_mkdir srv src name mode v
handle srv depth src (forkfs pid) v = vfs_forkfs src pid v
handle srv depth src execfs v = vfs_execfs src v
handle srv depth src freefs v = vfs_freefs src v
handle srv depth src unsupported v = some (failed, v)
