-- ===== src/Ipc/Mailbox/Send.antt =====
-- `do_send` of src/core/ipc.c on mailboxes.
use mathlib.Core.Path.{ap₂}
use mathlib.Core.List.{map-append}
use fat.Prelude.{
  ℕ, ℕ_discrete, ◌≡◌, ◌≢◌, true, false, some, List, [], ◌∷◌, ◌++◌, map, if◌then◌else◌, ◌==◌, arith,
  refl, ap, ◌∙◌, Bool-cases, inl, inr, ==_iff,
}
use fat.Sched.{sending, Message, Kernel, map_proc, schedule}
use fat.Sched.Queue.{has, has-append}
use fat.Sched.Frame.{schedule-SameMail}
use fat.Sched.Hash.{map_proc-eq}
use fat.Ipc.{do_send, post, wake, is_receiving, ipc_intr}
use fat.Ipc.Mailbox.{mailbox, Distinct, IsLinked}
use fat.Ipc.Mailbox.Frame.{same_mailbox, same_IsLinked}

map-same :
    (c : ℕ) (f g : ℕ → Message)
    → ((q : ℕ) → q ≢ c → g q ≡ f q)
    → (l : List ℕ) → has c l ≡ false
    → map g l ≡ map f l
map-same c f g same [] h = refl
map-same c f g same (q ∷ l) h =
    ap₂ (λ m r. m ∷ r) (same q (ground arith)) (map-same c f g same l (ground arith))

Distinct-append : (c : ℕ) (l : List ℕ) → has c l ≡ false → Distinct l → Distinct (l ++ c ∷ [])
Distinct-append c [] h d = (refl, tt)
Distinct-append c (q ∷ l) h d =
    (ground (arith, has-append q l (c ∷ [])), Distinct-append c l (ground arith) d.1)

module _ (dest : ℕ) (msg : Message) (k : Kernel) where
  post-wait_proc :
      (d : ℕ)
      → ((post dest dest msg k).procs d).wait_proc
        ≡ (if d == dest then (k.procs d).wait_proc ++ k.current ∷ [] else (k.procs d).wait_proc)
  unfolding post wake
  post-wait_proc d = ground arith

  post-msg :
      (q : ℕ)
      → ((post dest dest msg k).procs q).msg ≡ (if q == k.current then msg else (k.procs q).msg)
  unfolding post wake
  post-msg q = ground arith

  post-sender :
      (((post dest dest msg k).procs k.current).state ≡ sending)
      × (((post dest dest msg k).procs k.current).wait ≡ dest)
  unfolding post wake is_receiving
  post-sender = ground arith

  post-others :
      (q : ℕ)
      → q ≢ k.current
      → (k.procs q).state ≡ sending
      → (((post dest dest msg k).procs q).state ≡ sending)
        × (((post dest dest msg k).procs q).wait ≡ (k.procs q).wait)
  unfolding post wake is_receiving
  post-others q n s = ground arith

  module _ (i : IsLinked k) (r : (k.procs k.current).state ≢ sending) where
    not_queued : (d : ℕ) → has k.current (k.procs d).wait_proc ≡ false
    not_queued d = elim (Bool-cases (has k.current (k.procs d).wait_proc)) [
      | inl h ↦ absurd (r (i.linked d k.current h).0)
      | inr h ↦ h
    ]

    abbrev Linked : ℕ → ℕ → Type 0
    Linked d q =
        (((post dest dest msg k).procs q).state ≡ sending)
        × (((post dest dest msg k).procs q).wait ≡ d)

    still_queued : (d q : ℕ) → q ≢ k.current → has q (k.procs d).wait_proc ≡ true → Linked d q
    still_queued d q n h =
        let (s, w) = i.linked d q h in let (s', w') = post-others q n s in (s', w' ∙ w)

    queued_after :
        (d q : ℕ)
        → has q
            (if d == dest then (k.procs d).wait_proc ++ k.current ∷ [] else (k.procs d).wait_proc)
          ≡ true
        → Linked d q
    queued_after d q h = elim (ℕ_discrete q k.current) [
      | no n ↦
          still_queued d q n (ground (arith, has-append q (k.procs d).wait_proc (k.current ∷ [])))
      | yes e ↦ elim (Bool-cases (d == dest)) [
        | inl f ↦ rw (e, (==_iff d dest).0 f) post-sender
        | inr f ↦ absurd (cc (rw (f, e) at h, not_queued d))
      ]
    ]

    post-IsLinked : IsLinked (post dest dest msg k)
    post-IsLinked = record {
      linked = λ d q h. queued_after d q (rw (post-wait_proc d) at h);
      once = λ d. rw (post-wait_proc d) (elim (Bool-cases (d == dest)) [
        | inl f ↦ rw f (Distinct-append k.current _ (not_queued d) (i.once d))
        | inr f ↦ rw f (i.once d)
      ]);
    }

    map-post :
        (l : List ℕ)
        → has k.current l ≡ false
        → map (λ q. ((post dest dest msg k).procs q).msg) l ≡ map (λ q. (k.procs q).msg) l
    map-post =
        map-same k.current (λ q. (k.procs q).msg) (λ q. ((post dest dest msg k).procs q).msg)
          (λ q n. ground (arith, post-msg q))

    post-mailbox :
        (d : ℕ)
        → mailbox d (post dest dest msg k)
          ≡ (if d == dest then mailbox d k ++ msg ∷ [] else mailbox d k)
    post-mailbox d =
        ap (map (λ q. ((post dest dest msg k).procs q).msg)) (post-wait_proc d)
        ∙ elim (Bool-cases (d == dest)) [
          | inl f ↦ rw f (
              map-append _ (k.procs d).wait_proc (k.current ∷ [])
              ∙ ap₂ (λ a b. a ++ b) (map-post _ (not_queued d))
                  (ground (arith, post-msg k.current)))
          | inr f ↦ rw f (map-post _ (not_queued d))
        ]

-- What a send to the process `dest` has done.
pub record Sent (dest : ℕ) (msg : Message) (k k' : Kernel) : Type 0 where
  pub linked : IsLinked k'
  pub mail : (d : ℕ) → mailbox d k' ≡ (if d == dest then mailbox d k ++ msg ∷ [] else mailbox d k)
  pub blocked : ((k'.procs k.current).state ≡ sending) × ((k'.procs k.current).wait ≡ dest)

-- A process that is not itself blocked in a send, and sends to a pid that is in the table something
-- other than an interrupt, appends its message to the mailbox of that process. No other mailbox
-- changes, the sender is blocked in the send, and the queues and the states of the senders still
-- agree.
pub do_send-Sent :
    (idle to dest : ℕ) (msg : Message) (k : Kernel)
    → IsLinked k
    → (k.procs k.current).state ≢ sending
    → map_proc to k ≡ some dest
    → (msg.src == ipc_intr) ≡ false
    → (k' : Kernel) × (do_send idle to msg k ≡ some k') × Sent dest msg k k'
unfolding do_send
do_send-Sent idle to dest msg k i r m e =
    let t : dest ≡ to = map_proc-eq to dest k m in
    let s = schedule-SameMail idle (post dest dest msg k) in
    let (st, w) = post-sender dest msg k in
    (
      schedule idle (post dest dest msg k),
      rw (m, do_send) (rw e (rw t refl)),
      record {
        linked = same_IsLinked s (post-IsLinked dest msg k i r);
        mail = λ d. same_mailbox s d ∙ post-mailbox dest msg k i r d;
        blocked = (s.still_sending k.current st, s.wait k.current ∙ w);
      },
    )
