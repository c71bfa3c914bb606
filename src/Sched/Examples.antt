-- ===== src/Sched/Examples.antt =====
-- Runs of src/core/sched.c with three processes, and its theorems there.
use fat.Prelude.{ℕ, ◌≤◌, ◌≡◌, arith, false, [], ◌∷◌, ◌==◌, if◌then◌else◌, refl}
use fat.Sched.{
  State, runnable, running, sending, Proc, Kernel, first_runnable, is_runnable, remove, put_prev,
  switch_to, schedule,
}
use fat.Sched.Pick.{Scheduled, schedule-Scheduled}
use fat.Sched.Fair.{schedules, schedules_fair}

abbrev proc : State → ℕ → Proc
proc s alarm = record {
  state = s;
  is_idle = false;
  need_schedule = false;
  counter = 0;
  alarm = alarm;
  wait = 0;
  wait_proc = [];
  has_intr = false;
  msg = record { src = 0; type = 0; body = 0 };
}

-- Process 7 runs, 8 sleeps for one more tick, 9 and 265 can run; 9 and 265 share a bucket.
abbrev three : Kernel
three = record {
  procs =
      λ p. if p == 7 then proc running 0 else if p == 8 then proc sending 1 else proc runnable 0;
  proc_head = 7 ∷ 8 ∷ 9 ∷ 265 ∷ [];
  hash_map = λ i. if i == 9 then 9 ∷ [] else [];
  current = 7;
}

runs_next : (schedule 0 three).current ≡ 9
unfolding schedule put_prev first_runnable remove is_runnable switch_to
runs_next = refl

moves_back : (schedule 0 three).proc_head ≡ 8 ∷ 9 ∷ 265 ∷ 7 ∷ []
unfolding schedule put_prev first_runnable remove is_runnable switch_to
moves_back = refl

schedule-Scheduled_example : Scheduled 0 three (schedule 0 three)
schedule-Scheduled_example = schedule-Scheduled 0 three (λ p e. ground arith)

schedules_fair_example : (m : ℕ) × (m ≤ 3) × ((schedules 0 m three).current ≡ 265)
schedules_fair_example = schedules_fair 0 3 265 (7 ∷ 8 ∷ 9 ∷ []) [] three (omega arith) (record {
  queue = refl;
  ahead = refl;
  apart = refl;
  ready = refl;
  no_idle = λ q h. ground arith;
})
