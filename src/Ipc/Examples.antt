-- ===== src/Ipc/Examples.antt =====
-- Runs of src/core/ipc.c with three processes, and its theorems there.
use fat.Prelude.{ℕ, ◌≡◌, false, some, List, [], ◌∷◌, ◌==◌, if◌then◌else◌, arith, refl}
use fat.Sched.{
  State, runnable, running, sending, receiving, Message, Proc, Kernel, map_proc, find_pid, schedule,
}
use fat.Ipc.{post, received, do_send, recv_all, ipc_all}
use fat.Ipc.Mailbox.{IsLinked}
use fat.Ipc.Mailbox.Send.{Sent, do_send-Sent}
use fat.Ipc.Mailbox.Receive.{Got, recv_all-Got}

abbrev letter : ℕ → Message
letter n = record { src = n; type = 512; body = 0 }

abbrev proc : State → ℕ → List ℕ → Proc
proc s wait queue = record {
  state = s;
  is_idle = false;
  need_schedule = false;
  counter = 0;
  alarm = 0;
  wait = wait;
  wait_proc = queue;
  has_intr = false;
  msg = letter 8;
}

-- Process 7 runs, 8 is blocked in a send to 7, and 9 in a receive from anybody.
abbrev busy : Kernel
busy = record {
  procs = λ p.
      if p == 7
      then proc running 10 (8 ∷ [])
      else if p == 8
      then proc sending 7 []
      else if p == 9
      then proc receiving ipc_all []
      else proc runnable 0 [];
  proc_head = 7 ∷ 8 ∷ 9 ∷ 10 ∷ [];
  hash_map = λ i. if i == 9 then 9 ∷ [] else if i == 7 then 7 ∷ [] else [];
  current = 7;
}

busy-IsLinked : IsLinked busy
busy-IsLinked = record { linked = λ d q h. ground (arith, h); once = λ d. ground arith }

do_send-Sent_example :
    (k' : Kernel) × (do_send 0 9 (letter 7) busy ≡ some k') × Sent 9 (letter 7) busy k'
unfolding map_proc find_pid
do_send-Sent_example =
    do_send-Sent 0 9 9 (letter 7) busy busy-IsLinked (λ e. ground (arith, e)) refl refl

recv_all-Got_example :
    (m : Message) × (k' : Kernel) × (recv_all 0 (letter 0) busy ≡ received m k') × Got m busy k'
recv_all-Got_example =
    recv_all-Got 0 8 [] (letter 0) busy busy-IsLinked (λ e. ground (arith, e)) refl refl

abbrev sent : Kernel
sent = schedule 0 (post 9 9 (letter 7) busy)
