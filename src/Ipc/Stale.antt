-- ===== src/Ipc/Stale.antt =====
-- A receive in src/core/ipc.c from a process that sleeps.
use fat.Prelude.{ℕ, ◌≡◌, some, arith, refl, ap, sym, ◌∙◌, ==_iff}
use fat.Sched.{sending, runnable, Kernel, modify, map_proc, schedule, sys_pause}
use fat.Sched.Frame.{schedule-SameMail, schedule-hash_map}
use fat.Sched.Hash.{map_proc-same}
use fat.Ipc.{received, take_from, recv_from, is_sending}

recv_from-take :
    (idle from d : ℕ) (k : Kernel)
    → map_proc from k ≡ some from
    → (k.procs from).state ≡ sending
    → (k.procs from).wait ≡ d
    → k.current ≡ d
    → recv_from idle from k ≡ some (take_from from k)
unfolding recv_from is_sending
recv_from-take idle from d k m s w c =
    rw (m, recv_from) (rw s (rw (w ∙ sym c) (rw ((==_iff k.current k.current).1 refl) refl)))

take_from-gives :
    (from : ℕ) (k : Kernel)
    → (k' : Kernel) × (take_from from k ≡ received (k.procs from).msg k')
      × ((k'.procs from).state ≡ runnable)
unfolding take_from
take_from-gives from k = (_, refl, ground arith)

-- If the process `from` pauses after it once sent to the process `d`, and `d` then gets the CPU and
-- receives from it, `d` gets the old message again and `from` is woken, though it sent nothing.
paused-sends :
    (idle from d : ℕ) (k : Kernel)
    → k.current ≡ from
    → map_proc from k ≡ some from
    → (k.procs from).wait ≡ d
    → (sys_pause idle k).current ≡ d
    → (k' : Kernel) × (recv_from idle from (sys_pause idle k)
        ≡ some (received (k.procs from).msg k'))
      × ((k'.procs from).state ≡ runnable)
unfolding sys_pause
paused-sends idle from d k c m w n =
    let k1 = modify k.current (λ p. record p { state = sending }) k in
    let f = schedule-SameMail idle k1 in
    let k2 = schedule idle k1 in
    let (k', e, r) = take_from-gives from k2 in
    (
      k',
      recv_from-take idle from d k2 (map_proc-same from k k2 (schedule-hash_map idle k1) ∙ m)
            (f.still_sending from (ground arith)) (f.wait from ∙ ground arith) n
          ∙ ap some (e ∙ ap (λ x. received x k') (f.msg from ∙ ground arith)),
      r,
    )
