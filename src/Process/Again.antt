-- ===== src/Process/Again.antt =====
-- A second wait of the same process.
use fat.Prelude.{ℕ, ◌≡◌, true, ◌++◌, Option, none, some, List, [], ◌∷◌}
use fat.Process.{System, Waited, child, blocked, wait_end, do_wait, wait_signal, is_stopped}
use fat.Sched.Queue.{has}
use fat.Process.Wait.{gets}

-- The state after a wait, if it got a child.
abbrev after : Waited → System → System
after (child c status s) d = s
after _ d = d

abbrev got : Waited → Option (ℕ × ℕ)
got (child c status s) = some (c, status)
got _ = none

-- A later state in which `p` runs, and neither its children, the status of `c` nor which of the children up
-- to `c` are stopped has changed. Other processes may have ended.
pub record Woken (p c : ℕ) (ahead : List ℕ) (s s' : System) : Type 0 where
  pub runs : s'.kernel.current ≡ p
  pub family : s'.children p ≡ s.children p
  pub status : s'.exit_status c ≡ s.exit_status c
  pub stops :
      (q : ℕ)
      → has q (ahead ++ c ∷ []) ≡ true
      → is_stopped (s'.kernel.procs q).state ≡ is_stopped (s.kernel.procs q).state

-- The wait of `s` blocks, and the one that goes on in `s'` gets the child.
pub record Repeated (idle p c status : ℕ) (s s' : System) : Type 0 where
  pub blocks : do_wait idle s ≡ blocked (wait_signal idle s)
  pub again : wait_end s' ≡ gets p c status s'
