-- ===== src/Sched.antt =====
-- src/core/sched.c: the process table, the scheduler, the alarms and sleep. A `proc_t *` is named by
-- its pid, `proc_head` is the sequence of the pids on it, and `current` is part of the state: a
-- switch of context changes it. One CPU; `proc_head_lock` makes each call one step.
pub mod Queue
pub mod Pick
pub mod Fair
pub mod Alarm
pub mod Hash
pub mod Frame
mod Examples
use fat.Prelude.{
  ℕ, zero, suc, ◌+◌, ◌-◌, ◌*◌, ◌/◌, ◌%◌, ◌^◌, Bool, true, false, Option, none, some, List, [], ◌∷◌,
  ◌++◌, ◌==◌, if◌then◌else◌,
}

-- `PROC_RUNNABLE` and so on.
pub data State : Type 0 where
  runnable running sending receiving stopped : State

-- A message: who sent it, its `MSG_` number, and its union as one number.
pub record Message : Type 0 where
  pub src : ℕ
  pub type : ℕ
  pub body : ℕ

-- The fields of `proc_t` that scheduling and messages use. `flags` is its bits `PF_IDLE` and
-- `NEED_SCHEDULE`.
pub record Proc : Type 0 where
  pub state : State
  pub is_idle : Bool
  pub need_schedule : Bool
  pub counter : ℕ
  pub alarm : ℕ
  pub wait : ℕ
  pub wait_proc : List ℕ
  pub has_intr : Bool
  pub msg : Message

pub record Kernel : Type 0 where
  pub procs : ℕ → Proc
  pub proc_head : List ℕ
  pub hash_map : ℕ → List ℕ
  pub current : ℕ

-- A write to the fields of one process.
abbrev pub modify : ℕ → (Proc → Proc) → Kernel → Kernel
modify p f k = record k { procs = λ q. if q == p then f (k.procs q) else k.procs q }

abbrev pub proc_hash_map_size : ℕ
proc_hash_map_size = 256

unfoldable pub find_pid : ℕ → List ℕ → Option ℕ
find_pid pid [] = none
find_pid pid (pos ∷ l) = if pos == pid then some pos else find_pid pid l

unfoldable pub map_proc : ℕ → Kernel → Option ℕ
unfolding find_pid
map_proc pid k = find_pid pid (k.hash_map (pid % proc_hash_map_size))

-- `list_del` of the entry.
unfoldable pub remove : ℕ → List ℕ → List ℕ
remove p [] = []
remove p (q ∷ l) = if q == p then l else q ∷ remove p l

set_bucket : ℕ → (List ℕ → List ℕ) → Kernel → Kernel
set_bucket pid f k = record k {
  hash_map = λ i. if i == pid % proc_hash_map_size then f (k.hash_map i) else k.hash_map i;
}

-- `assert(proc->pid != 0)` stops the kernel: `none`.
pub hash_proc : ℕ → Kernel → Option Kernel
unfolding set_bucket
hash_proc pid k = if pid == 0 then none else some (set_bucket pid (λ l. l ++ pid ∷ []) k)

pub unmap_proc : ℕ → Kernel → Kernel
unfolding set_bucket
unmap_proc pid k = elim (map_proc pid k) [ none ↦ k | some p ↦ set_bucket pid (remove p) k ]

unfoldable pub is_runnable : State → Bool
is_runnable runnable = true
is_runnable _ = false

-- `if (prev->state == PROC_RUNNING) prev->state = PROC_RUNNABLE`
abbrev preempt : State → State
preempt running = runnable
preempt s = s

-- The first runnable process of the queue.
unfoldable pub first_runnable : (ℕ → Proc) → List ℕ → Option ℕ
unfolding is_runnable
first_runnable procs [] = none
first_runnable procs (p ∷ l) =
    if is_runnable (procs p).state then some p else first_runnable procs l

-- `prev` loses its turn.
unfoldable pub put_prev : Kernel → Kernel
put_prev k =
    let prev = k.current in
    let k' = modify prev (λ p. record p { need_schedule = false; state = preempt p.state }) k in
    if (k.procs prev).is_idle
    then k'
    else record k' { proc_head = remove prev k'.proc_head ++ prev ∷ [] }

-- `next` gets it; `idle` is the idle process of the CPU.
unfoldable pub switch_to : ℕ → Option ℕ → Kernel → Kernel
switch_to idle none k = modify idle (λ p. record p { counter = 1 }) (record k { current = idle })
switch_to idle (some next) k =
    modify next (λ p. record p { state = running; counter = 1 }) (record k { current = next })

unfoldable pub schedule : ℕ → Kernel → Kernel
schedule idle k = let k' = put_prev k in switch_to idle (first_runnable k'.procs k'.proc_head) k'

-- The alarm of one process, a tick later.
pub tick_alarm : Proc → Proc
tick_alarm p =
    if p.alarm == 0
    then p
    else if p.alarm - 1 == 0
    then record p { alarm = 0; state = running }
    else record p { alarm = p.alarm - 1 }

update_alarms : List ℕ → Kernel → Kernel
unfolding tick_alarm
update_alarms [] k = k
update_alarms (p ∷ l) k = update_alarms l (modify p tick_alarm k)

pub update_alarm : Kernel → Kernel
unfolding update_alarms
update_alarm k = update_alarms k.proc_head k

abbrev hz : ℕ
hz = 100

fall_asleep : ℕ → ℕ → Kernel → Kernel
fall_asleep idle alarm k =
    schedule idle (modify k.current (λ p. record p { alarm = alarm; state = sending }) k)

-- Sleep for `t` seconds (type 0) or milliseconds (type 1); `none` is the error, which does nothing.
sys_sleep : ℕ → ℕ → ℕ → Kernel → Option Kernel
unfolding fall_asleep
sys_sleep idle type t k =
    if type == 0
    then some (fall_asleep idle (t * hz % 2 ^ 64) k)
    else if type == 1
    then some (fall_asleep idle (t / (1000 / hz)) k)
    else none

unfoldable pub sys_pause : ℕ → Kernel → Kernel
sys_pause idle k = schedule idle (modify k.current (λ p. record p { state = sending }) k)
