-- ===== src/Ipc/Mailbox.antt =====
-- The queues of senders of src/core/ipc.c as mailboxes of messages.
pub mod Frame
pub mod Send
pub mod Receive
use fat.Prelude.{
  ℕ, ◌≡◌, Bool, true, false, List, [], ◌∷◌, map, if◌then◌else◌, ◌==◌, arith, refl, ap,
}
use fat.Sched.{State, sending, Message, Proc, Kernel}
use fat.Sched.Queue.{has}

-- The messages that wait for `d`, oldest first.
abbrev pub mailbox : ℕ → Kernel → List Message
mailbox d k = map (λ q. (k.procs q).msg) (k.procs d).wait_proc

abbrev pub Distinct : List ℕ → Type 0
Distinct [] = Unit {0}
Distinct (q ∷ l) = (has q l ≡ false) × Distinct l

-- Who is on the queue of `d` is blocked in a send to `d`, and is there once.
pub record IsLinked (k : Kernel) : Type 0 where
  pub linked :
      (d q : ℕ)
      → has q (k.procs d).wait_proc ≡ true
      → ((k.procs q).state ≡ sending) × ((k.procs q).wait ≡ d)
  pub once : (d : ℕ) → Distinct (k.procs d).wait_proc
