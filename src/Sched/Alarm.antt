-- ===== src/Sched/Alarm.antt =====
-- `update_alarm` of src/core/sched.c, and the sleepers that it wakes.
use fat.Prelude.{
  ℕ, ◌≡◌, ◌≢◌, arith, true, Option, none, some, List, [], ◌∷◌, ◌==◌, Bool-cases, inl, inr, ap,
}
use fat.Sched.{
  running, Proc, Kernel, put_prev, switch_to, schedule, tick_alarm, update_alarms, update_alarm,
}
use fat.Sched.Queue.{has}
use fat.Sched.Pick.{Finds, first_runnable-Finds}

-- The timer's work: a tick, or a call of `schedule`.
pub data Event : Type 0 where
  tick reschedule : Event

pub run : ℕ → List Event → Kernel → Kernel
run idle [] k = k
run idle (tick ∷ es) k = run idle es (update_alarm k)
run idle (reschedule ∷ es) k = run idle es (schedule idle k)

-- The process is marked as running, and is not.
pub record IsStuck (p : ℕ) (k : Kernel) : Type 0 where
  pub marked : (k.procs p).state ≡ running
  pub off : k.current ≢ p

chosen-ne :
    (procs : ℕ → Proc) (p : ℕ) (l : List ℕ) (r : Option ℕ)
    → (procs p).state ≡ running
    → Finds procs l r
    → r ≢ some p
chosen-ne procs p l none h f e = cc e
chosen-ne procs p l (some q) h (xs, ys, _, _, s) e = ground arith

switch_to-IsStuck :
    (idle p : ℕ) (k : Kernel) (r : Option ℕ)
    → idle ≢ p
    → r ≢ some p
    → (k.procs p).state ≡ running
    → IsStuck p (switch_to idle r k)
unfolding switch_to
switch_to-IsStuck idle p k none i h s = record { marked = ground arith; off = i }
switch_to-IsStuck idle p k (some q) i h s = record {
  marked = ground arith;
  off = λ e. h (ap some e);
}

put_prev-running : (p : ℕ) (k : Kernel) → IsStuck p k → ((put_prev k).procs p).state ≡ running
unfolding put_prev
put_prev-running p k s = ground arith

schedule-IsStuck : (idle p : ℕ) (k : Kernel) → idle ≢ p → IsStuck p k → IsStuck p (schedule idle k)
unfolding schedule
schedule-IsStuck idle p k i s =
    let k' = put_prev k in
    let h = put_prev-running p k s in
    switch_to-IsStuck idle p k' _ i
      (chosen-ne k'.procs p k'.proc_head _ h (first_runnable-Finds k'.procs k'.proc_head)) h

tick_alarm-running : (p : Proc) → p.state ≡ running → (tick_alarm p).state ≡ running
unfolding tick_alarm
tick_alarm-running p h = ground arith

update_alarms-IsStuck :
    (p : ℕ) (l : List ℕ) (k : Kernel) → IsStuck p k → IsStuck p (update_alarms l k)
unfolding update_alarms
update_alarms-IsStuck p [] k s = s
update_alarms-IsStuck p (q ∷ l) k s =
    update_alarms-IsStuck p l _
      (record { marked = ground (arith, tick_alarm-running (k.procs p) s.marked); off = s.off })

run-IsStuck :
    (idle p : ℕ) (es : List Event) (k : Kernel) → idle ≢ p → IsStuck p k → IsStuck p (run idle es k)
unfolding run update_alarm
run-IsStuck idle p [] k i s = s
run-IsStuck idle p (tick ∷ es) k i s =
    run-IsStuck idle p es _ i (update_alarms-IsStuck p k.proc_head k s)
run-IsStuck idle p (reschedule ∷ es) k i s =
    run-IsStuck idle p es _ i (schedule-IsStuck idle p k i s)

last_tick : (p : Proc) → p.alarm ≡ 1 → (tick_alarm p).state ≡ running
unfolding tick_alarm
last_tick p h = ground arith

update_alarms_wake :
    (p : ℕ) (l : List ℕ) (k : Kernel)
    → has p l ≡ true
    → (k.procs p).alarm ≡ 1
    → k.current ≢ p
    → IsStuck p (update_alarms l k)
unfolding update_alarms
update_alarms_wake p [] k h a c = absurd (cc h)
update_alarms_wake p (q ∷ l) k h a c = elim (Bool-cases (q == p)) [
  | inl e ↦
      update_alarms-IsStuck p l _
        (record { marked = ground (arith, last_tick (k.procs p) a); off = c })
  | inr e ↦ update_alarms_wake p l _ (ground arith) (ground arith) c
]

-- A sleeping process never runs again. Take a process of the queue, other than the idle one, that
-- is off the CPU and whose alarm runs out at the next tick: after that tick and any sequence of
-- ticks and calls of `schedule` it is marked PROC_RUNNING and another process has the CPU.
sleeper_forever :
    (idle p : ℕ) (es : List Event) (k : Kernel)
    → idle ≢ p
    → has p k.proc_head ≡ true
    → (k.procs p).alarm ≡ 1
    → k.current ≢ p
    → IsStuck p (run idle (tick ∷ es) k)
unfolding run update_alarm
sleeper_forever idle p es k i h a c =
    run-IsStuck idle p es _ i (update_alarms_wake p k.proc_head k h a c)
