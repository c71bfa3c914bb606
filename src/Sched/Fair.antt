-- ===== src/Sched/Fair.antt =====
-- How long a process waits for `schedule` of src/core/sched.c.
use fat.Prelude.{
  ℕ, zero, suc, ◌≤◌, ◌≡◌, arith, true, false, some, List, [], ◌∷◌, ◌++◌, ◌==◌, ==_iff, Bool-cases,
  inl, inr, ◌⊎◌, length, append_assoc, ap, refl, ◌∙◌,
}
use fat.Sched.{
  runnable, Proc, Kernel, remove, is_runnable, first_runnable, put_prev, switch_to, schedule,
}
use fat.Sched.Pick.{queue_moves}
use fat.Sched.Queue.{has, remove-ahead, has-remove, has-remove_shrinks}

-- `n` calls of `schedule`, one after the other.
pub schedules : ℕ → ℕ → Kernel → Kernel
schedules idle zero k = k
schedules idle (suc n) k = schedules idle n (schedule idle k)

-- `p` can run, and waits behind `xs`; the current process is one of `xs`, all of them real ones.
pub record IsWaiting (p : ℕ) (xs ys : List ℕ) (k : Kernel) : Type 0 where
  pub queue : k.proc_head ≡ xs ++ p ∷ ys
  pub ahead : has k.current xs ≡ true
  pub apart : has p xs ≡ false
  pub ready : (k.procs p).state ≡ runnable
  pub no_idle : (q : ℕ) → has q xs ≡ true → (k.procs q).is_idle ≡ false

-- A search that reaches a runnable process stops there or before.
found_by :
    (procs : ℕ → Proc) (p : ℕ) (xs ys : List ℕ)
    → (procs p).state ≡ runnable
    → (q : ℕ) × (first_runnable procs (xs ++ p ∷ ys) ≡ some q) × ((q ≡ p) ⊎ (has q xs ≡ true))
unfolding first_runnable is_runnable
found_by procs p [] ys h = (p, rw h refl, inl refl)
found_by procs p (x ∷ xs) ys h = elim (Bool-cases (is_runnable (procs x).state)) [
  | inl e ↦ (x, rw e refl, inr (ground arith))
  | inr e ↦ let (q, f, d) = found_by procs p xs ys h in (q, rw e f, ground arith)
]

module _ (idle p : ℕ) (xs ys : List ℕ) (k : Kernel) (w : IsWaiting p xs ys k) where
  abbrev rest : List ℕ
  rest = remove k.current xs

  behind : (put_prev k).proc_head ≡ rest ++ p ∷ (ys ++ k.current ∷ [])
  behind =
      queue_moves k (w.no_idle k.current w.ahead)
      ∙ ap (λ l. remove k.current l ++ k.current ∷ []) w.queue
      ∙ ap (λ l. l ++ k.current ∷ []) (remove-ahead k.current xs (p ∷ ys) w.ahead).0
      ∙ append_assoc rest (p ∷ ys) (k.current ∷ [])

  still_ready : ((put_prev k).procs p).state ≡ runnable
  unfolding put_prev
  still_ready = ground (arith, w.ready)

  idle_stays : (q : ℕ) → ((put_prev k).procs q).is_idle ≡ (k.procs q).is_idle
  unfolding put_prev
  idle_stays q = ground arith

  moved_up :
      (q : ℕ)
      → has q rest ≡ true
      → IsWaiting p rest (ys ++ k.current ∷ []) (switch_to idle (some q) (put_prev k))
  unfolding switch_to
  moved_up q h = record {
    queue = behind;
    ahead = h;
    apart = has-remove_shrinks k.current p xs w.apart;
    ready = other q h;
    no_idle = λ r hr. ground (arith, idle_stays r, w.no_idle r (has-remove k.current r xs hr));
  }
    where
      other :
          (q : ℕ)
          → has q rest ≡ true
          → ((switch_to idle (some q) (put_prev k)).procs p).state ≡ runnable
      other q h = elim (Bool-cases (p == q)) [
        | inl e ↦ absurd (cc ((==_iff p q).0 e, h, has-remove_shrinks k.current p xs w.apart))
        | inr e ↦ rw e still_ready
      ]

  -- One call of `schedule` gives `p` the CPU, or lets it move up.
  one_turn :
      ((schedule idle k).current ≡ p) ⊎ IsWaiting p rest (ys ++ k.current ∷ []) (schedule idle k)
  unfolding schedule switch_to
  one_turn =
      let (q, f, d) = found_by (put_prev k).procs p rest (ys ++ k.current ∷ []) still_ready in
      let r : schedule idle k ≡ switch_to idle (some q) (put_prev k) =
        ap (λ o. switch_to idle o (put_prev k))
          (ap (first_runnable (put_prev k).procs) behind ∙ f) in
      elim d [ inl e ↦ inl (ap (λ k. k.current) r ∙ e) | inr h ↦ inr (rw r (moved_up q h)) ]

-- A process that can run, and waits behind others in the queue, gets the CPU after at most as many
-- calls of `schedule` as there are processes ahead of it, the current one being among those.
pub schedules_fair :
    (idle n p : ℕ) (xs ys : List ℕ) (k : Kernel)
    → length xs ≤ n
    → IsWaiting p xs ys k
    → (m : ℕ) × (m ≤ n) × ((schedules idle m k).current ≡ p)
unfolding schedules
schedules_fair idle zero p [] ys k h w = absurd (cc w.ahead)
schedules_fair idle zero p (x ∷ xs) ys k h w = absurd (omega arith)
schedules_fair idle (suc n) p xs ys k h w = elim (one_turn idle p xs ys k w) [
  | inl e ↦ (1, omega arith, e)
  | inr v ↦
      let (m, le, e) =
        schedules_fair idle n p _ _ (schedule idle k)
          (omega (arith, (remove-ahead k.current xs ys w.ahead).1)) v in
      (suc m, omega arith, e)
]
