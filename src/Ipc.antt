-- ===== src/Ipc.antt =====
-- src/core/ipc.c: synchronous messages between processes. A call that reaches
-- `schedule` is cut there: its first part ends with the switch, and what it does once the
-- process has the CPU again is a function of its own.
pub mod Mailbox
pub mod Wakeup
pub mod Stale
mod Examples
use fat.Prelude.{
  ℕ, Bool, true, false, Option, none, some, List, [], ◌∷◌, ◌++◌, ◌&&◌, ◌||◌, ◌==◌, map,
  if◌then◌else◌,
}
use fat.Sched.{
  State, runnable, running, sending, receiving, stopped, Message, Proc, Kernel, modify, map_proc,
  remove, schedule,
}

abbrev pub ipc_nowait : ℕ
ipc_nowait = 0

abbrev pub ipc_intr : ℕ
ipc_intr = 0x0fff_fffd

abbrev pub ipc_all : ℕ
ipc_all = 0x0fff_fffe

abbrev msg_intr : ℕ
msg_intr = 259

abbrev intr_ok : ℕ
intr_ok = 1

unfoldable pub is_receiving : State → Bool
is_receiving receiving = true
is_receiving _ = false

is_sending : State → Bool
is_sending sending = true
is_sending _ = false

-- A receiver that waits for `from`, or for anybody, can run again.
pub wake : ℕ → Proc → Proc
unfolding is_receiving
wake from d =
    if is_receiving d.state && (d.wait == from || d.wait == ipc_all)
    then record d { state = runnable }
    else d

-- An interrupt is a flag and does not block its sender.
pub send_intr : ℕ → Kernel → Kernel
unfolding wake
send_intr dest = modify dest (λ d. wake ipc_intr (record d { has_intr = true }))

-- The sender posts its message, joins the queue of `dest` and wakes it.
pub post : ℕ → ℕ → Message → Kernel → Kernel
unfolding wake
post dest to msg k =
    let c = k.current in
    modify dest (λ d. wake c (record d { wait_proc = d.wait_proc ++ c ∷ [] }))
      (modify c (λ p. record p { msg = msg; wait = to; state = sending }) k)

-- `none` is the read through `dest`, which is NULL if no process has the pid.
pub do_send : ℕ → ℕ → Message → Kernel → Option Kernel
unfolding send_intr post
do_send idle to msg k = elim (map_proc to k) [
  | none ↦ none
  | some dest ↦
      if msg.src == ipc_intr
      then some (send_intr dest k)
      else some (schedule idle (post dest to msg k))
]

-- A receive ends with a message, or gives the CPU away.
pub data Recv : Type 0 where
  received : Message → Kernel → Recv
  blocked : Kernel → Recv

-- `list_del(&source->wait_list)` takes the process off the queue that it is on, if any.
unlink : ℕ → Kernel → Kernel
unlink source k = record k {
  procs = λ q. record (k.procs q) { wait_proc = remove source (k.procs q).wait_proc };
}

-- The current process takes the message of `source`, which can run again.
pub take_from : ℕ → Kernel → Recv
unfolding unlink
take_from source k = received (k.procs source).msg (
    modify source (λ p. record p { state = runnable })
      (modify k.current (λ p. record p { wait = ipc_nowait }) (unlink source k)))

-- The flag is taken; `msg` is the buffer that the caller passed.
pub take_intr : Message → Kernel → Recv
take_intr msg k =
    received (record msg { type = msg_intr; body = intr_ok })
      (modify k.current (λ p. record p { has_intr = false }) k)

pub wait_for : ℕ → ℕ → Kernel → Recv
wait_for idle from k =
    blocked (schedule idle (modify k.current (λ p. record p { wait = from; state = receiving }) k))

-- `do_recv` with IPC_ALL: one turn of `recv_all`, which is also what a blocked one goes on with.
pub recv_all : ℕ → Message → Kernel → Recv
unfolding take_intr wait_for
recv_all idle msg k =
    if (k.procs k.current).has_intr then take_intr msg k else elim (k.procs k.current).wait_proc [
      | [] ↦ wait_for idle ipc_all k
      | source ∷ rest ↦ take_from source k
    ]

-- `do_recv` with IPC_INTR; a blocked one goes on with `take_intr`.
recv_intr : ℕ → Message → Kernel → Recv
unfolding take_intr wait_for
recv_intr idle msg k =
    if (k.procs k.current).has_intr then take_intr msg k else wait_for idle ipc_intr k

-- `do_recv` with a pid; a blocked one goes on with `take_from`. `none` is the failed assertion.
pub recv_from : ℕ → ℕ → Kernel → Option Recv
unfolding is_sending take_from wait_for
recv_from idle from k = elim (map_proc from k) [
  | none ↦ none
  | some source ↦ some (
      if is_sending (k.procs source).state && (k.procs source).wait == k.current
      then take_from source k
      else wait_for idle from k)
]
