-- ===== src/Sched/Queue.antt =====
-- The queue `proc_head` under `list_del` and `list_add_tail`.
use mathlib.Core.List.{perm_append_singleton}
use mathlib.Core.List.Perm
use fat.Prelude.{
  ℕ, ◌+◌, ◌≡◌, arith, Bool, true, false, ◌||◌, List, [], ◌∷◌, ◌++◌, Perm, ◌==◌, ==_iff, Bool-cases,
  inl, inr, length, ap, refl,
}
use fat.Sched.{remove}

abbrev pub has : ℕ → List ℕ → Bool
has p [] = false
has p (q ∷ l) = (q == p) || has p l

-- Taking an entry off and putting it at the end keeps the entries.
remove-perm : (p : ℕ) (l : List ℕ) → has p l ≡ true → Perm l (p ∷ remove p l)
unfolding remove
remove-perm p [] h = absurd (cc h)
remove-perm p (q ∷ l) h = elim (Bool-cases (q == p)) [
  | inl e ↦ rw e (Perm.cons' ((==_iff q p).0 e) Perm.rfl)
  | inr e ↦
      rw e (Perm.trans (Perm.cons q (remove-perm p l (ground arith))) (Perm.swap p q (remove p l)))
]

pub rotate-perm : (p : ℕ) (l : List ℕ) → has p l ≡ true → Perm (remove p l ++ p ∷ []) l
rotate-perm p l h =
    Perm.trans (perm_append_singleton p (remove p l)) (Perm.symm (remove-perm p l h))

-- A process ahead of `p` leaves its place: `p` moves up by one.
pub remove-ahead :
    (q : ℕ) (xs ys : List ℕ)
    → has q xs ≡ true
    → (remove q (xs ++ ys) ≡ remove q xs ++ ys) × (length (remove q xs) + 1 ≡ length xs)
unfolding remove
remove-ahead q [] ys h = absurd (cc h)
remove-ahead q (x ∷ xs) ys h = elim (Bool-cases (x == q)) [
  | inl e ↦ rw e (refl, omega arith)
  | inr e ↦
      let r = remove-ahead q xs ys (ground arith) in rw e (ap (λ l. x ∷ l) r.0, omega (arith, r.1))
]

pub has-append : (q : ℕ) (xs ys : List ℕ) → has q (xs ++ ys) ≡ (has q xs || has q ys)
has-append q [] ys = refl
has-append q (x ∷ xs) ys = ground (arith, has-append q xs ys)

pub has-remove : (p q : ℕ) (l : List ℕ) → has q (remove p l) ≡ true → has q l ≡ true
unfolding remove
has-remove p q [] h = h
has-remove p q (x ∷ l) h = ground (arith, has-remove p q l)

pub has-remove_shrinks : (p q : ℕ) (l : List ℕ) → has q l ≡ false → has q (remove p l) ≡ false
unfolding remove
has-remove_shrinks p q [] h = h
has-remove_shrinks p q (x ∷ l) h = ground (arith, has-remove_shrinks p q l)

pub remove_absent : (p : ℕ) (l : List ℕ) → has p l ≡ false → remove p l ≡ l
unfolding remove
remove_absent p [] h = refl
remove_absent p (x ∷ l) h = ground (arith, remove_absent p l)

pub remove_head : (p : ℕ) (l : List ℕ) → remove p (p ∷ l) ≡ l
unfolding remove
remove_head p l = ground arith
