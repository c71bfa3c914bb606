-- ===== src/Page/Step.antt =====
-- What the step of one level of `map_page` does: an entry is followed or made.
use mathlib.Core.Option.{none-ne-some, some-injective}
use fat.Prelude.{
  ℕ, ◌≤◌, ◌<◌, ◌≡◌, ◌≢◌, inl, inr, true, false, none, some, List, [], ◌∷◌, ◌++◌, ◌==◌, arith, refl,
  sym, ap, ◌∙◌, Bool-cases, ==_iff, length, length-append, subst,
}
use fat.Page.{Memory, target, write, get_zeroed_page, walk}
use fat.Page.Tree.{
  IsIndex, IsTree, find, IsPath, find_step, find-append, find-Placed, target-entry_of, entry_of_ne,
}
use fat.Page.Walks.{grown, extended, grown-Placed, find-grown, new_page, grown-word_self}

-- An entry is followed, or gets the first page that the allocator has.
pub data Followed (table ind : ℕ) (m : Memory) : ℕ → Memory → Type 0 where
  old : m.word table ind ≢ 0 → Followed table ind m (target (m.word table ind)) m
  new :
      (page : ℕ) (rest : List ℕ)
      → m.word table ind ≡ 0
      → m.pages ≡ page ∷ rest
      → Followed table ind m page (grown table ind page rest m)

walk-made :
    (table ind : ℕ) (m : Memory) (pages : List ℕ) (r : ℕ × Memory)
    → m.word table ind ≡ 0
    → m.pages ≡ pages
    → walk table ind m ≡ some r
    → Followed table ind m r.0 r.1
unfolding walk get_zeroed_page write
walk-made table ind m [] r z s e =
    let tested : (m.word table ind == 0) ≡ true = rw z refl in
    let shut : walk table ind m ≡ none = rw tested (rw s refl) in
    absurd (none-ne-some r (sym shut ∙ e))
walk-made table ind m (page ∷ rest) r z s e =
    let tested : (m.word table ind == 0) ≡ true = rw z refl in
    let made : walk table ind m ≡ some (page, grown table ind page rest m) =
      rw tested (rw s refl) in
    subst (λ x. Followed table ind m x.0 x.1)
      (some-injective (page, grown table ind page rest m) r (sym made ∙ e)) (new page rest z s)

pub walk-Followed :
    (table ind : ℕ) (m : Memory) (r : ℕ × Memory)
    → walk table ind m ≡ some r
    → Followed table ind m r.0 r.1
unfolding walk
walk-Followed table ind m r e = elim (Bool-cases (m.word table ind == 0)) [
  | inl z ↦ walk-made table ind m m.pages r ((==_iff (m.word table ind) 0).0 z) refl e
  | inr n ↦
      let open_entry : walk table ind m ≡ some (target (m.word table ind), m) = rw n refl in
      subst (λ x. Followed table ind m x.0 x.1)
        (some-injective (target (m.word table ind), m) r (sym open_entry ∙ e))
        (old (λ h. absurd (ground (arith, n, h))))
]

longer : (js : List ℕ) (ind : ℕ) → js ≢ js ++ ind ∷ []
longer js ind e = absurd (omega (arith, ap length e, length-append js (ind ∷ [])))

pub record Stepped (pml4 : ℕ) (path : List ℕ) (page : ℕ) (m m' : Memory) : Type 0 where
  pub tree : IsTree pml4 m'
  pub reached : find m' path pml4 ≡ some page
  pub kept : (js : List ℕ) → IsPath [] js → js ≢ path → find m' js pml4 ≡ find m js pml4

pub Stepped-Followed :
    (pml4 table ind : ℕ) (js : List ℕ) (m : Memory) (page : ℕ) (m' : Memory)
    → IsTree pml4 m
    → IsPath [] js
    → IsIndex js ind
    → find m js pml4 ≡ some table
    → Followed table ind m page m'
    → Stepped pml4 (js ++ ind ∷ []) page m m'
Stepped-Followed pml4 table ind js m _ _ t ip o f (old n) = record {
  tree = t;
  reached = find-append m js ind pml4 table f ∙ find_step m ind [] table n;
  kept = λ ks kp ne. refl;
}
Stepped-Followed pml4 table ind js m _ _ (place, t) ip o f (new page rest z s) =
    let at : place table ≡ some js = find-Placed js [] pml4 table t t.root ip f in
    let keep = find-grown place pml4 table ind page rest js m t at s z in
    record {
      tree = (
        extended page (js ++ ind ∷ []) place,
        grown-Placed place pml4 table ind page rest js m t at s,
      );
      reached =
          find-append (grown table ind page rest m) js ind pml4 table
            (keep js [] pml4 t.root ip (λ e. longer js ind e) ∙ f)
          ∙ find_step (grown table ind page rest m) ind [] table
              (λ h. entry_of_ne page (sym (grown-word_self table ind page rest m) ∙ h))
          ∙ ap (λ x. some (target x)) (grown-word_self table ind page rest m)
          ∙ ap some (target-entry_of page (new_page place pml4 table ind page rest js m t at s).1);
      kept = λ ks kp ne. keep ks [] pml4 t.root kp ne;
    }

made_supplied :
    (table ind n : ℕ) (m : Memory) (pages : List ℕ)
    → m.pages ≡ pages
    → m.word table ind ≡ 0
    → n < length pages
    → (r : ℕ × Memory) × (walk table ind m ≡ some r) × (n ≤ length r.1.pages)
unfolding walk get_zeroed_page write
made_supplied table ind n m [] s z l = absurd (omega (arith, l))
made_supplied table ind n m (page ∷ rest) s z l =
    let tested : (m.word table ind == 0) ≡ true = rw z refl in
    ((page, grown table ind page rest m), rw tested (rw s refl), omega (arith, l))

pub walk_supplied :
    (table ind n : ℕ) (m : Memory)
    → n < length m.pages
    → (r : ℕ × Memory) × (walk table ind m ≡ some r) × (n ≤ length r.1.pages)
unfolding walk
walk_supplied table ind n m l = elim (Bool-cases (m.word table ind == 0)) [
  | inl z ↦ made_supplied table ind n m m.pages refl ((==_iff (m.word table ind) 0).0 z) l
  | inr h ↦ ((target (m.word table ind), m), rw h refl, omega (arith, l))
]

pub walk_open :
    (table ind : ℕ) (m : Memory)
    → m.word table ind ≢ 0
    → walk table ind m ≡ some (target (m.word table ind), m)
unfolding walk
walk_open table ind m n = let e : (m.word table ind == 0) ≡ false = ground (arith, n) in rw e refl
