-- ===== src/Sched/Hash.antt =====
-- The table of processes by pid: `hash_proc`, `map_proc` and `unmap_proc` of src/core/sched.c.
use fat.Prelude.{
  ℕ, ◌%◌, ◌≡◌, ◌≢◌, arith, false, none, some, List, [], ◌∷◌, ◌++◌, ◌==◌, ==_iff, if◌then◌else◌,
  Bool-cases, Option-cases, inl, inr, refl, ap, subst, ◌∙◌,
}
use fat.Sched.{
  Kernel, find_pid, map_proc, remove, set_bucket, hash_proc, unmap_proc, proc_hash_map_size,
}
use fat.Sched.Queue.{has, has-append}

-- A pid is in its own bucket at most once.
abbrev Once : ℕ → List ℕ → Type 0
Once pid [] = Unit {0}
Once pid (p ∷ l) = if p == pid then has pid l ≡ false else Once pid l

find_pid-has : (pid : ℕ) (l : List ℕ) → find_pid pid l ≡ (if has pid l then some pid else none)
unfolding find_pid
find_pid-has pid [] = refl
find_pid-has pid (p ∷ l) = ground (arith, find_pid-has pid l)

has-remove_other : (p q : ℕ) (l : List ℕ) → p ≢ q → has q (remove p l) ≡ has q l
unfolding remove
has-remove_other p q [] h = refl
has-remove_other p q (x ∷ l) h = ground (arith, has-remove_other p q l)

has-remove_single : (p : ℕ) (l : List ℕ) → Once p l → has p (remove p l) ≡ false
unfolding remove
has-remove_single p [] h = refl
has-remove_single p (x ∷ l) h = ground (arith, has-remove_single p l)

-- `map_proc` finds a process exactly if its pid is in its bucket.
map_proc-has :
    (pid : ℕ) (k : Kernel)
    → map_proc pid k ≡ (if has pid (k.hash_map (pid % proc_hash_map_size)) then some pid else none)
unfolding map_proc
map_proc-has pid k = find_pid-has pid (k.hash_map (pid % proc_hash_map_size))

bucket_append :
    (pid q : ℕ) (k : Kernel)
    → map_proc q (set_bucket pid (λ l. l ++ pid ∷ []) k)
      ≡ (if pid == q then some q else map_proc q k)
unfolding set_bucket
bucket_append pid q k = ground (
  arith,
  map_proc-has q (set_bucket pid (λ l. l ++ pid ∷ []) k),
  map_proc-has q k,
  has-append q (k.hash_map (q % proc_hash_map_size)) (pid ∷ []),
)

bucket_remove :
    (pid q : ℕ) (k : Kernel)
    → Once pid (k.hash_map (pid % proc_hash_map_size))
    → map_proc q (set_bucket pid (remove pid) k) ≡ (if pid == q then none else map_proc q k)
unfolding set_bucket
bucket_remove pid q k o = ground (
  arith,
  map_proc-has q (set_bucket pid (remove pid) k),
  map_proc-has q k,
  has-remove_single pid (k.hash_map (pid % proc_hash_map_size)) o,
  has-remove_other pid q (k.hash_map (q % proc_hash_map_size)),
)

-- `hash_proc` of a pid other than 0 does not stop the kernel. After it `map_proc` finds that
-- process, and answers for every other pid as before.
map_proc-hash_proc :
    (pid : ℕ) (k : Kernel)
    → pid ≢ 0
    → (k' : Kernel) × (hash_proc pid k ≡ some k')
      × ((q : ℕ) → map_proc q k' ≡ (if pid == q then some q else map_proc q k))
unfolding hash_proc
map_proc-hash_proc pid k h =
    (set_bucket pid (λ l. l ++ pid ∷ []) k, ground arith, λ q. bucket_append pid q k)

-- After `unmap_proc` of a pid that is in its bucket at most once, `map_proc` does not find that
-- process, and answers for every other pid as before.
map_proc-unmap_proc :
    (pid q : ℕ) (k : Kernel)
    → Once pid (k.hash_map (pid % proc_hash_map_size))
    → map_proc q (unmap_proc pid k) ≡ (if pid == q then none else map_proc q k)
unfolding unmap_proc
map_proc-unmap_proc pid q k o =
    elim (Bool-cases (has pid (k.hash_map (pid % proc_hash_map_size)))) [
      | inl e ↦
          let found : map_proc pid k ≡ some pid = map_proc-has pid k ∙ rw e refl in
          rw (found, unmap_proc) (bucket_remove pid q k o)
      | inr e ↦
          let missing : map_proc pid k ≡ none = map_proc-has pid k ∙ rw e refl in
          rw (missing, unmap_proc) (not_there missing)
    ]
  where
    not_there : map_proc pid k ≡ none → map_proc q k ≡ (if pid == q then none else map_proc q k)
    not_there m = elim (Bool-cases (pid == q)) [
      | inl f ↦ rw f (subst (λ r. map_proc r k ≡ none) ((==_iff pid q).0 f) m)
      | inr f ↦ rw f refl
    ]

find_pid-eq : (pid p : ℕ) (l : List ℕ) → find_pid pid l ≡ some p → p ≡ pid
unfolding find_pid
find_pid-eq pid p [] h = absurd (cc h)
find_pid-eq pid p (q ∷ l) h = ground (arith, find_pid-eq pid p l)

-- The process that `map_proc` finds has the pid.
pub map_proc-eq : (pid p : ℕ) (k : Kernel) → map_proc pid k ≡ some p → p ≡ pid
unfolding map_proc
map_proc-eq pid p k = find_pid-eq pid p _

pub map_proc-same :
    (pid : ℕ) (k k' : Kernel) → k'.hash_map ≡ k.hash_map → map_proc pid k' ≡ map_proc pid k
unfolding map_proc
map_proc-same pid k k' e = ap (λ h. find_pid pid (h (pid % proc_hash_map_size))) e

-- `unmap_proc` changes nothing but the table.
pub unmap_proc-current : (pid : ℕ) (k : Kernel) → (unmap_proc pid k).current ≡ k.current
unfolding unmap_proc set_bucket
unmap_proc-current pid k = ground arith

pub unmap_proc-procs : (pid : ℕ) (k : Kernel) → (unmap_proc pid k).procs ≡ k.procs
unfolding unmap_proc set_bucket
unmap_proc-procs pid k = elim (Option-cases (map_proc pid k)) [
  | inl e ↦ rw (e, unmap_proc) refl
  | inr (p, e) ↦ rw (e, unmap_proc) refl
]
