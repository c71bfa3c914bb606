-- ===== src/Sched/Pick.antt =====
-- `schedule` of src/core/sched.c: who runs next.
use fat.Prelude.{
  ℕ, ◌≡◌, ◌≢◌, arith, true, false, Option, none, some, List, [], ◌∷◌, ◌++◌, Perm, Bool-cases, inl,
  inr, ◌⊎◌, subst, sym, ap, refl,
}
use fat.Sched.{
  State, runnable, running, Proc, Kernel, remove, is_runnable, first_runnable, put_prev, switch_to,
  schedule,
}
use fat.Sched.Queue.{has, rotate-perm}

-- No process of the list can run.
abbrev NoneRunnable : (ℕ → Proc) → List ℕ → Type 0
NoneRunnable procs [] = Unit {0}
NoneRunnable procs (p ∷ l) = ((procs p).state ≢ runnable) × NoneRunnable procs l

-- What `first_runnable` finds: the first runnable process, if there is one.
abbrev pub Finds : (ℕ → Proc) → List ℕ → Option ℕ → Type 0
Finds procs l none = NoneRunnable procs l
Finds procs l (some p) =
    (xs : List ℕ) × (ys : List ℕ) × (l ≡ xs ++ p ∷ ys)
    × NoneRunnable procs xs
    × ((procs p).state ≡ runnable)

is_runnable_iff : (s : State) → is_runnable s ≡ false → s ≢ runnable
unfolding is_runnable
is_runnable_iff s h e = ground arith

is_runnable-eq : (s : State) → is_runnable s ≡ true → s ≡ runnable
unfolding is_runnable
is_runnable-eq s h = ground arith

pub first_runnable-Finds : (procs : ℕ → Proc) (l : List ℕ) → Finds procs l (first_runnable procs l)
unfolding first_runnable
first_runnable-Finds procs [] = tt
first_runnable-Finds procs (p ∷ l) = elim (Bool-cases (is_runnable (procs p).state)) [
  | inl e ↦ rw e ([], l, refl, tt, is_runnable-eq _ e)
  | inr e ↦ rw e (extend _ (first_runnable-Finds procs l) (is_runnable_iff _ e))
]
  where
    extend : (r : Option ℕ) → Finds procs l r → (procs p).state ≢ runnable → Finds procs (p ∷ l) r
    extend none f h = (h, f)
    extend (some q) (xs, ys, e, n, s) h = (p ∷ xs, ys, ap (λ l. p ∷ l) e, (h, n), s)

-- At most the current process is in the state RUNNING.
abbrev IsAlone : Kernel → Type 0
IsAlone k = (p : ℕ) → (k.procs p).state ≡ running → p ≡ k.current

put_prev-state : (k : Kernel) → IsAlone k → (p : ℕ) → ((put_prev k).procs p).state ≢ running
unfolding put_prev
put_prev-state k a p e = ground (arith, a p)

pub queue_moves :
    (k : Kernel)
    → (k.procs k.current).is_idle ≡ false
    → (put_prev k).proc_head ≡ remove k.current k.proc_head ++ k.current ∷ []
unfolding put_prev
queue_moves k h = ground arith

queue_stays :
    (k : Kernel) → (k.procs k.current).is_idle ≡ true → (put_prev k).proc_head ≡ k.proc_head
unfolding put_prev
queue_stays k h = ground arith

-- `k'` has the process that `schedule` chose from the queue with `prev` at its end, or the idle one.
abbrev Chosen : ℕ → Kernel → Kernel → Type 0
Chosen idle k k' =
    ((p : ℕ) × Finds (put_prev k).procs k'.proc_head (some p)
      × (k'.current ≡ p)
      × ((k'.procs p).state ≡ running))
    ⊎ (NoneRunnable (put_prev k).procs k'.proc_head × (k'.current ≡ idle))

pub record Scheduled (idle : ℕ) (k k' : Kernel) : Type 0 where
  pub alone : IsAlone k'
  pub chosen : Chosen idle k k'
  pub turn : (k'.procs k'.current).counter ≡ 1
  pub queue :
      (k.procs k.current).is_idle ≡ false
      → k'.proc_head ≡ remove k.current k.proc_head ++ k.current ∷ []
  pub kept :
      (k.procs k.current).is_idle ≡ false
      → has k.current k.proc_head ≡ true
      → Perm k'.proc_head k.proc_head
  pub idle_queue : (k.procs k.current).is_idle ≡ true → k'.proc_head ≡ k.proc_head

switch_to-Scheduled :
    (idle : ℕ) (k : Kernel)
    → IsAlone k
    → (r : Option ℕ) → Finds (put_prev k).procs (put_prev k).proc_head r
    → Scheduled idle k (switch_to idle r (put_prev k))
unfolding switch_to
switch_to-Scheduled idle k a none f = record {
  alone = λ p e. absurd (put_prev-state k a p (ground arith));
  chosen = inr (f, refl);
  turn = ground arith;
  queue = queue_moves k;
  kept = λ i h.
      subst (λ l. Perm l k.proc_head) (sym (queue_moves k i)) (rotate-perm k.current k.proc_head h);
  idle_queue = queue_stays k;
}
switch_to-Scheduled idle k a (some p) f = record {
  alone = λ q e. ground (arith, put_prev-state k a q);
  chosen = inl (p, f, refl, ground arith);
  turn = ground arith;
  queue = queue_moves k;
  kept = λ i h.
      subst (λ l. Perm l k.proc_head) (sym (queue_moves k i)) (rotate-perm k.current k.proc_head h);
  idle_queue = queue_stays k;
}

-- If at most the current process was RUNNING, this holds after `schedule` for the new one. A real
-- process that is preempted goes to the end of the queue, which keeps its processes; the idle one
-- leaves the queue as it is. The CPU goes to the first runnable process of that queue, or, if there
-- is none, to the idle one, with a counter of 1.
pub schedule-Scheduled : (idle : ℕ) (k : Kernel) → IsAlone k → Scheduled idle k (schedule idle k)
unfolding schedule
schedule-Scheduled idle k a =
    let k' = put_prev k in
    switch_to-Scheduled idle k a _ (first_runnable-Finds k'.procs k'.proc_head)
