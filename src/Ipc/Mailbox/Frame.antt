-- ===== src/Ipc/Mailbox/Frame.antt =====
-- Mailboxes across a change of context.
use fat.Prelude.{ℕ, ◌≡◌, List, [], ◌∷◌, map, refl, ap, sym, ◌∙◌}
use fat.Sched.{Kernel}
use fat.Sched.Frame.{SameMail}
use fat.Ipc.Mailbox.{mailbox, IsLinked}

module _ {k k' : Kernel} (s : SameMail k k') where
  map-msg : (l : List ℕ) → map (λ q. (k'.procs q).msg) l ≡ map (λ q. (k.procs q).msg) l
  map-msg [] = refl
  map-msg (q ∷ l) = rw (s.msg q) (ap (λ r. (k.procs q).msg ∷ r) (map-msg l))

  pub same_mailbox : (d : ℕ) → mailbox d k' ≡ mailbox d k
  same_mailbox d = map-msg (k'.procs d).wait_proc ∙ ap (map (λ q. (k.procs q).msg)) (s.wait_proc d)

  pub same_IsLinked : IsLinked k → IsLinked k'
  same_IsLinked i = record {
    linked = λ d q h.
        let (st, w) = i.linked d q (rw (sym (s.wait_proc d)) h) in
        (s.still_sending q st, s.wait q ∙ w);
    once = λ d. rw (s.wait_proc d) (i.once d);
  }
