-- ===== src/Ipc/Wakeup.antt =====
-- The processes of src/core/ipc.c that wait for anybody.
use fat.Prelude.{
  ℕ, ◌≡◌, Bool, false, List, [], ◌∷◌, if◌then◌else◌, ◌==◌, arith, refl, sym, ◌∙◌, Bool-cases, inl,
  inr,
}
use fat.Sched.{State, runnable, receiving, Message, Kernel, remove, schedule}
use fat.Sched.Frame.{schedule-SameMail}
use fat.Ipc.{
  Recv, received, blocked, ipc_all, ipc_nowait, take_from, take_intr, unlink, wait_for, recv_all,
}

-- A process that is blocked in a receive from anybody has no interrupt and no sender.
abbrev pub IsIdleWait : Kernel → Type 0
IsIdleWait k =
    (d : ℕ)
    → (k.procs d).state ≡ receiving
    → (k.procs d).wait ≡ ipc_all
    → ((k.procs d).has_intr ≡ false) × ((k.procs d).wait_proc ≡ [])

schedule-IsIdleWait : (idle : ℕ) (k : Kernel) → IsIdleWait k → IsIdleWait (schedule idle k)
schedule-IsIdleWait idle k i d s w =
    let f = schedule-SameMail idle k in
    let (h, l) = i d (f.receiving_before d s) (sym (f.wait d) ∙ w) in
    (f.has_intr d ∙ h, f.wait_proc d ∙ l)

not_woken : (b : Bool) (s : State) → (if b then runnable else s) ≡ receiving → s ≡ receiving
not_woken b s e = ground arith

not_taken : (b : Bool) (w : ℕ) → (if b then ipc_nowait else w) ≡ ipc_all → w ≡ ipc_all
not_taken b w e = ground arith

-- What a receive leaves behind.
abbrev pub result : Recv → Kernel
result (received m k) = k
result (blocked k) = k

module _ (source : ℕ) (k : Kernel) where
  after-state :
      (d : ℕ)
      → ((result (take_from source k)).procs d).state
        ≡ (if d == source then runnable else (k.procs d).state)
  unfolding take_from unlink
  after-state d = ground arith

  after-wait :
      (d : ℕ)
      → ((result (take_from source k)).procs d).wait
        ≡ (if d == k.current then ipc_nowait else (k.procs d).wait)
  unfolding take_from unlink
  after-wait d = ground arith

  after-has_intr : (d : ℕ) → ((result (take_from source k)).procs d).has_intr ≡ (k.procs d).has_intr
  unfolding take_from unlink
  after-has_intr d = ground arith

  after-wait_proc :
      (d : ℕ)
      → ((result (take_from source k)).procs d).wait_proc ≡ remove source (k.procs d).wait_proc
  unfolding take_from unlink
  after-wait_proc d = ground arith

  take_from-IsIdleWait : IsIdleWait k → IsIdleWait (result (take_from source k))
  unfolding remove
  take_from-IsIdleWait i d s w =
      let (h, l) =
        i d (not_woken (d == source) _ (sym (after-state d) ∙ s))
          (not_taken (d == k.current) _ (sym (after-wait d) ∙ w)) in
      (after-has_intr d ∙ h, after-wait_proc d ∙ rw (l, remove) refl)

take_intr-IsIdleWait :
    (msg : Message) (k : Kernel) → IsIdleWait k → IsIdleWait (result (take_intr msg k))
unfolding take_intr
take_intr-IsIdleWait msg k i d s w = ground (arith, i d)

wait_for-IsIdleWait :
    (idle from : ℕ) (k : Kernel)
    → IsIdleWait k
    → (from ≡ ipc_all
        → ((k.procs k.current).has_intr ≡ false) × ((k.procs k.current).wait_proc ≡ []))
    → IsIdleWait (result (wait_for idle from k))
unfolding wait_for
wait_for-IsIdleWait idle from k i n = schedule-IsIdleWait idle _ (λ d s w. ground (arith, i d))

-- Whoever is blocked in a receive from anybody after `recv_all`, the caller included, has nothing to
-- receive, if that held before, on each branch of the receive.
recv_all-IsIdleWait :
    (idle : ℕ) (msg : Message) (k : Kernel)
    → IsIdleWait k
    → IsIdleWait (result (recv_all idle msg k))
unfolding recv_all
recv_all-IsIdleWait idle msg k i = elim (Bool-cases (k.procs k.current).has_intr) [
  | inl t ↦ rw t (take_intr-IsIdleWait msg k i)
  | inr f ↦ rw f (step _ refl f)
]
  where
    step :
        (l : List ℕ)
        → (k.procs k.current).wait_proc ≡ l
        → (k.procs k.current).has_intr ≡ false
        → IsIdleWait
            (result (elim l [ [] ↦ wait_for idle ipc_all k | source ∷ rest ↦ take_from source k ]))
    step [] e f = wait_for-IsIdleWait idle ipc_all k i (λ q. (f, e))
    step (source ∷ rest) e f = take_from-IsIdleWait source k i
