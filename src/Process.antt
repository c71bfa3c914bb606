-- ===== src/Process.antt =====
-- src/core/sys.c, and `send_signal` of src/core/ipc.c: the memory and the end of a process, over the page
-- tables of Page and the scheduler of Sched. A process is named by its pid. A process that blocks is cut
-- there: what it does when it runs again is a function of its own.
pub mod Brk
pub mod Pair
pub mod Copy
pub mod Copied
pub mod Ranges
pub mod Fork
pub mod Wait
pub mod Again
mod Examples
use fat.Prelude.{
  ℕ, ◌+◌, Bool, true, false, Option, none, some, List, [], ◌∷◌, ◌++◌, ◌==◌, ◌&&◌, if◌then◌else◌,
  reverse,
}
use fat.Sched.{
  State, stopped, receiving, runnable, Proc, Kernel, modify, schedule, remove, unmap_proc,
}
use fat.Ipc.{is_receiving}
use fat.Page.{Memory, free_proc_mm}

abbrev pub ipc_signal : ℕ
ipc_signal = 0x0fff_fffc

abbrev pub sigchld : ℕ
sigchld = 17

-- The fields of `proc_t` that the end of a process uses, each as a function of the process. `freed` are the
-- pages and `reaped` the processes that went back to the page allocator; the fields of the latter stay until
-- the allocator hands their pages out again.
pub record System : Type 0 where
  pub kernel : Kernel
  pub signal : ℕ → ℕ
  pub exit_status : ℕ → ℕ
  pub parent : ℕ → ℕ
  pub children : ℕ → List ℕ
  pub pgd : ℕ → ℕ
  pub memory : Memory
  pub freed : List ℕ
  pub reaped : List ℕ

-- A write to one place of a function.
abbrev pub put {ℓ} : {A : Type ℓ} → ℕ → A → (ℕ → A) → ℕ → A
put p x f q = if q == p then x else f q

unfoldable pub is_stopped : State → Bool
is_stopped stopped = true
is_stopped _ = false

unfoldable pub send_signal : ℕ → ℕ → System → System
unfolding is_receiving
send_signal proc signal s = record s {
  signal = put proc signal s.signal;
  kernel =
      modify proc
        (λ p.
          if is_receiving p.state && p.wait == ipc_signal then record p { state = runnable } else p)
        s.kernel;
}

-- `do_exit` up to its message to the file system.
unfoldable pub exit_begin : System → System
exit_begin s =
    let proc = s.kernel.current in
    let freed = free_proc_mm (s.pgd proc) s.memory in
    record s {
      memory = freed.1;
      freed = freed.0 ++ s.freed;
      children =
          put (s.parent proc) (reverse (s.children proc) ++ s.children (s.parent proc)) s.children;
    }

-- The process after the answer of the file system, before it gives up the CPU.
unfoldable pub exit_marks : ℕ → System → System
unfolding send_signal
exit_marks status s =
    let proc = s.kernel.current in
    let s' =
      send_signal (s.parent proc) sigchld
        (record s { exit_status = put proc status s.exit_status }) in
    record s' { kernel = modify proc (λ p. record p { state = stopped }) s'.kernel }

unfoldable pub exit_end : ℕ → ℕ → System → System
unfolding exit_marks
exit_end idle status s =
    let s' = exit_marks status s in record s' { kernel = schedule idle s'.kernel }

-- What `do_wait` does: an error, a switch to another process, the child and its status, or a fault on a
-- child that is NULL.
pub data Waited : Type 0 where
  failed : Waited
  blocked : System → Waited
  child : ℕ → ℕ → System → Waited
  fault : Waited

-- The loop over `children`.
unfoldable pub first_stopped : (ℕ → Proc) → List ℕ → Option ℕ
unfolding is_stopped
first_stopped procs [] = none
first_stopped procs (pos ∷ l) =
    if is_stopped (procs pos).state then some pos else first_stopped procs l

-- The memory of a child goes back: its first table, its entry in the table by pid, its place in the queue,
-- and the process itself.
unfoldable pub reap : ℕ → System → System
reap pid s = record s {
  freed = s.pgd pid ∷ s.freed;
  reaped = pid ∷ s.reaped;
  kernel = (let k = unmap_proc pid s.kernel in record k { proc_head = remove pid k.proc_head });
}

-- The end of `do_wait` on the child that its loop found, with a `statloc` that is not NULL.
unfoldable pub take_child : Option ℕ → System → Waited
unfolding reap
take_child none s = fault
take_child (some pid) s = child pid (s.exit_status pid) (reap pid s)

-- `do_wait` from the reset of the signal on.
unfoldable pub wait_end : System → Waited
unfolding first_stopped take_child
wait_end s =
    take_child (first_stopped s.kernel.procs (s.children s.kernel.current))
      (record s { signal = put s.kernel.current 0 s.signal })

unfoldable pub is_null : List ℕ → Bool
is_null [] = true
is_null (p ∷ l) = false

unfoldable pub wait_signal : ℕ → System → System
wait_signal idle s = record s {
  kernel =
      schedule idle
        (modify s.kernel.current (λ p. record p { wait = ipc_signal; state = receiving }) s.kernel);
}

unfoldable pub do_wait : ℕ → System → Waited
unfolding wait_end is_null
do_wait idle s =
    let proc = s.kernel.current in
    if is_null (s.children proc)
    then failed
    else if s.signal proc == sigchld
    then wait_end s
    else blocked (wait_signal idle s)
