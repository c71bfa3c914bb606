-- ===== src/Sched/Frame.antt =====
-- Messages, their queues and blocked senders across `schedule` of src/core/sched.c.
use fat.Prelude.{ℕ, ◌≡◌, Option, none, some, arith, refl, ◌∙◌}
use fat.Sched.{sending, receiving, Kernel, put_prev, switch_to, schedule}
use fat.Sched.Pick.{Finds, first_runnable-Finds}

-- `k'` is `k` as far as messages go, and no process started or stopped sending.
pub record SameMail (k k' : Kernel) : Type 0 where
  pub msg : (p : ℕ) → (k'.procs p).msg ≡ (k.procs p).msg
  pub wait_proc : (p : ℕ) → (k'.procs p).wait_proc ≡ (k.procs p).wait_proc
  pub wait : (p : ℕ) → (k'.procs p).wait ≡ (k.procs p).wait
  pub has_intr : (p : ℕ) → (k'.procs p).has_intr ≡ (k.procs p).has_intr
  pub still_sending : (p : ℕ) → (k.procs p).state ≡ sending → (k'.procs p).state ≡ sending
  pub receiving_before : (p : ℕ) → (k'.procs p).state ≡ receiving → (k.procs p).state ≡ receiving

put_prev-SameMail : (k : Kernel) → SameMail k (put_prev k)
unfolding put_prev
put_prev-SameMail k = record {
  msg = λ p. ground arith;
  wait_proc = λ p. ground arith;
  wait = λ p. ground arith;
  has_intr = λ p. ground arith;
  still_sending = λ p h. ground arith;
  receiving_before = λ p h. ground arith;
}

switch_to-SameMail :
    (idle : ℕ) (k : Kernel) (r : Option ℕ)
    → Finds k.procs k.proc_head r
    → SameMail k (switch_to idle r k)
unfolding switch_to
switch_to-SameMail idle k none f = record {
  msg = λ p. ground arith;
  wait_proc = λ p. ground arith;
  wait = λ p. ground arith;
  has_intr = λ p. ground arith;
  still_sending = λ p h. ground arith;
  receiving_before = λ p h. ground arith;
}
switch_to-SameMail idle k (some q) (xs, ys, e, n, s) = record {
  msg = λ p. ground arith;
  wait_proc = λ p. ground arith;
  wait = λ p. ground arith;
  has_intr = λ p. ground arith;
  still_sending = λ p h. ground arith;
  receiving_before = λ p h. ground arith;
}

pub schedule-SameMail : (idle : ℕ) (k : Kernel) → SameMail k (schedule idle k)
unfolding schedule
schedule-SameMail idle k =
    let k' = put_prev k in
    let a = put_prev-SameMail k in
    let b = switch_to-SameMail idle k' _ (first_runnable-Finds k'.procs k'.proc_head) in
    record {
      msg = λ p. b.msg p ∙ a.msg p;
      wait_proc = λ p. b.wait_proc p ∙ a.wait_proc p;
      wait = λ p. b.wait p ∙ a.wait p;
      has_intr = λ p. b.has_intr p ∙ a.has_intr p;
      still_sending = λ p h. b.still_sending p (a.still_sending p h);
      receiving_before = λ p h. a.receiving_before p (b.receiving_before p h);
    }

switch_to-hash_map :
    (idle : ℕ) (r : Option ℕ) (k : Kernel) → (switch_to idle r k).hash_map ≡ k.hash_map
unfolding switch_to
switch_to-hash_map idle none k = refl
switch_to-hash_map idle (some p) k = refl

put_prev-hash_map : (k : Kernel) → (put_prev k).hash_map ≡ k.hash_map
unfolding put_prev
put_prev-hash_map k = ground arith

pub schedule-hash_map : (idle : ℕ) (k : Kernel) → (schedule idle k).hash_map ≡ k.hash_map
unfolding schedule
schedule-hash_map idle k = switch_to-hash_map idle _ (put_prev k) ∙ put_prev-hash_map k
