-- ===== src/Process/Wait.antt =====
-- The end of a process and the wait of its parent.
use fat.Prelude.{ℕ, ◌≡◌, ◌≢◌, ◌⊎◌, false, Option, none, some, List, [], ◌∷◌, arith, ap, ◌∙◌}
use fat.Sched.{receiving, Proc, Kernel, schedule, put_prev, switch_to}
use fat.Sched.Pick.{Finds, first_runnable-Finds}
use fat.Process.{
  System, ipc_signal, put, Waited, child, first_stopped, reap, wait_end, do_wait, take_child,
  is_stopped,
}

-- Who is stopped does not change by `schedule`.
put_prev-stopped :
    (k : Kernel) (p : ℕ) → is_stopped ((put_prev k).procs p).state ≡ is_stopped (k.procs p).state
unfolding put_prev is_stopped
put_prev-stopped k p = ground arith

switch_to-stopped :
    (idle : ℕ) (k : Kernel) (r : Option ℕ) (p : ℕ)
    → Finds k.procs k.proc_head r
    → is_stopped ((switch_to idle r k).procs p).state ≡ is_stopped (k.procs p).state
unfolding switch_to is_stopped
switch_to-stopped idle k none p f = ground arith
switch_to-stopped idle k (some q) p (xs, ys, e, n, s) = ground arith

pub schedule-stopped :
    (idle : ℕ) (k : Kernel) (p : ℕ)
    → is_stopped ((schedule idle k).procs p).state ≡ is_stopped (k.procs p).state
unfolding schedule
schedule-stopped idle k p =
    let k' = put_prev k in
    switch_to-stopped idle k' _ p (first_runnable-Finds k'.procs k'.proc_head)
    ∙ put_prev-stopped k p

-- No process of the list is stopped.
abbrev NoneStopped : (ℕ → Proc) → List ℕ → Type 0
NoneStopped procs [] = Unit {0}
NoneStopped procs (p ∷ l) = (is_stopped (procs p).state ≡ false) × NoneStopped procs l

-- A later state in which `p` runs, its children are the same and no other process has stopped.
pub record Later (p c : ℕ) (s s' : System) : Type 0 where
  pub runs : s'.kernel.current ≡ p
  pub family : s'.children p ≡ s.children p
  pub status : s'.exit_status c ≡ s.exit_status c
  pub signal : s'.signal p ≡ s.signal p
  pub stops : (q : ℕ) → is_stopped (s'.kernel.procs q).state ≡ is_stopped (s.kernel.procs q).state

-- The parent gets the child and its status.
abbrev pub gets : ℕ → ℕ → ℕ → System → Waited
gets p c status s = child c status (reap c (record s { signal = put p 0 s.signal }))

-- What the end of `c` brings its parent: `before` is the state it ends in, `s` the one after it.
pub record Ended (idle p c status : ℕ) (before s s' : System) : Type 0 where
  pub awake : ((before.kernel.procs p).wait ≢ ipc_signal) ⊎ ((s.kernel.procs p).state ≢ receiving)
  pub resumed : wait_end s' ≡ gets p c status s'
  pub waits_later : do_wait idle s' ≡ gets p c status s'

pub wait_end_found :
    (c status : ℕ) (s : System)
    → first_stopped s.kernel.procs (s.children s.kernel.current) ≡ some c
    → s.exit_status c ≡ status
    → wait_end s ≡ gets s.kernel.current c status s
unfolding wait_end take_child
wait_end_found c status s f e =
    let s' : System = record s { signal = put s.kernel.current 0 s.signal } in
    ap (λ o. take_child o s') f ∙ ap (λ x. child c x (reap c s')) e
