-- ===== src/Ipc/Mailbox/Receive.antt =====
-- `do_recv` of src/core/ipc.c on mailboxes.
use mathlib.Core.Path.{ap₂}
use fat.Prelude.{
  ℕ, ◌≡◌, ◌≢◌, true, false, List, [], ◌∷◌, map, ◌==◌, arith, refl, ap, sym, ◌∙◌, Bool-cases, inl,
  inr,
}
use fat.Sched.{runnable, sending, Message, Kernel, remove}
use fat.Sched.Queue.{has, has-remove, has-remove_shrinks, remove_absent, remove_head}
use fat.Ipc.{received, blocked, take_from, unlink, recv_all}
use fat.Ipc.Mailbox.{mailbox, Distinct, IsLinked}

Distinct-remove : (c : ℕ) (l : List ℕ) → Distinct l → Distinct (remove c l)
unfolding remove
Distinct-remove c [] d = tt
Distinct-remove c (q ∷ l) d = elim (Bool-cases (q == c)) [
  | inl e ↦ rw e d.1
  | inr e ↦ rw e (has-remove_shrinks c q l d.0, Distinct-remove c l d.1)
]

gone : (c : ℕ) (l : List ℕ) → Distinct l → has c (remove c l) ≡ false
unfolding remove
gone c [] d = refl
gone c (q ∷ l) d = ground (arith, gone c l d.1)

map-same : (f g : ℕ → Message) → ((q : ℕ) → g q ≡ f q) → (l : List ℕ) → map g l ≡ map f l
map-same f g same [] = refl
map-same f g same (q ∷ l) = ap₂ (λ m r. m ∷ r) (same q) (map-same f g same l)

-- What is left once the current process has taken the message of `source`.
after_take : ℕ → Kernel → Kernel
unfolding take_from
after_take source k = elim (take_from source k) [ received m k' ↦ k' | blocked k' ↦ k' ]

module _ (source : ℕ) (k : Kernel) where
  take_from-received : take_from source k ≡ received (k.procs source).msg (after_take source k)
  unfolding take_from after_take
  take_from-received = refl

  after-wait_proc :
      (d : ℕ) → ((after_take source k).procs d).wait_proc ≡ remove source (k.procs d).wait_proc
  unfolding after_take unlink
  after-wait_proc d = ground arith

  after-msg : (q : ℕ) → ((after_take source k).procs q).msg ≡ (k.procs q).msg
  unfolding after_take unlink
  after-msg q = ground arith

  after-others :
      (q : ℕ)
      → q ≢ source
      → q ≢ k.current
      → (((after_take source k).procs q).state ≡ (k.procs q).state)
        × (((after_take source k).procs q).wait ≡ (k.procs q).wait)
  unfolding after_take unlink
  after-others q n c = ground arith

  after-source : ((after_take source k).procs source).state ≡ runnable
  unfolding after_take unlink
  after-source = ground arith

  module _ (i : IsLinked k) (r : (k.procs k.current).state ≢ sending) where
    linked_after :
        (d q : ℕ)
        → has q (remove source (k.procs d).wait_proc) ≡ true
        → (((after_take source k).procs q).state ≡ sending)
          × (((after_take source k).procs q).wait ≡ d)
    linked_after d q h =
        let (s, w) = i.linked d q (has-remove source q (k.procs d).wait_proc h) in
        let (s', w') =
          after-others q (λ e. cc (e, h, gone source (k.procs d).wait_proc (i.once d)))
            (λ e. r (ap (λ p. (k.procs p).state) (sym e) ∙ s)) in
        (s' ∙ s, w' ∙ w)

    after-IsLinked : IsLinked (after_take source k)
    after-IsLinked = record {
      linked = λ d q h. linked_after d q (rw (after-wait_proc d) at h);
      once = λ d. rw (after-wait_proc d) (Distinct-remove source _ (i.once d));
    }

    module _ (rest : List ℕ) (front : (k.procs k.current).wait_proc ≡ source ∷ rest) where
      mailbox_after :
          (d : ℕ)
          → mailbox d (after_take source k)
            ≡ map (λ q. (k.procs q).msg) (remove source (k.procs d).wait_proc)
      mailbox_after d =
          map-same (λ q. (k.procs q).msg) _ after-msg _
          ∙ ap (map (λ q. (k.procs q).msg)) (after-wait_proc d)

      taken : mailbox k.current k ≡ (k.procs source).msg ∷ mailbox k.current (after_take source k)
      taken =
          ap (map (λ q. (k.procs q).msg)) front
          ∙ ap (λ r. (k.procs source).msg ∷ r)
              (sym (
                mailbox_after k.current
                ∙ ap (λ l. map (λ q. (k.procs q).msg) (remove source l)) front
                ∙ ap (map (λ q. (k.procs q).msg)) (remove_head source rest)))

      not_there : (d : ℕ) → d ≢ k.current → has source (k.procs d).wait_proc ≡ false
      not_there d n = elim (Bool-cases (has source (k.procs d).wait_proc)) [
        | inl h ↦ absurd (
            n (
              sym (i.linked d source h).1
              ∙ (i.linked k.current source (rw front (ground arith))).1))
        | inr h ↦ h
      ]

      untouched : (d : ℕ) → d ≢ k.current → mailbox d (after_take source k) ≡ mailbox d k
      untouched d n =
          mailbox_after d ∙ ap (map (λ q. (k.procs q).msg)) (remove_absent source _ (not_there d n))

-- What a receive from anybody has done when it returned the message `m`.
pub record Got (m : Message) (k k' : Kernel) : Type 0 where
  pub linked : IsLinked k'
  pub oldest : mailbox k.current k ≡ m ∷ mailbox k.current k'
  pub others : (d : ℕ) → d ≢ k.current → mailbox d k' ≡ mailbox d k
  pub sender : (source : ℕ) × (m ≡ (k.procs source).msg) × ((k'.procs source).state ≡ runnable)

recv_all-take :
    (idle source : ℕ) (rest : List ℕ) (buffer : Message) (k : Kernel)
    → (k.procs k.current).has_intr ≡ false
    → (k.procs k.current).wait_proc ≡ source ∷ rest
    → recv_all idle buffer k ≡ take_from source k
unfolding recv_all
recv_all-take idle source rest buffer k h e = ground arith

-- If a process that is not blocked in a send receives from anybody, with no interrupt pending and a
-- sender in its queue, it gets the oldest message of its mailbox and does not block. That message
-- leaves the mailbox, no other mailbox changes, its sender can run again, and the queues and the
-- states of the senders still agree.
pub recv_all-Got :
    (idle source : ℕ) (rest : List ℕ) (buffer : Message) (k : Kernel)
    → IsLinked k
    → (k.procs k.current).state ≢ sending
    → (k.procs k.current).has_intr ≡ false
    → (k.procs k.current).wait_proc ≡ source ∷ rest
    → (m : Message) × (k' : Kernel) × (recv_all idle buffer k ≡ received m k') × Got m k k'
recv_all-Got idle source rest buffer k i r h e = (
  (k.procs source).msg,
  after_take source k,
  recv_all-take idle source rest buffer k h e ∙ take_from-received source k,
  record {
    linked = after-IsLinked source k i r;
    oldest = taken source k i r rest e;
    others = untouched source k i r rest e;
    sender = (source, refl, after-source source k);
  },
)
