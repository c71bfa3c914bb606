-- ===== src/Links/Ring.antt =====
-- What a well-formed list is, and how a link is opened and closed.
use fat.Prelude.{ℕ, ◌≡◌, ◌≢◌, List, [], ◌∷◌, ◌++◌, arith, sym, ap, ◌∙◌}
use fat.Links.{ListHead, set_next, set_prev, insert_between, join}

abbrev pub Apart : ℕ → List ℕ → Type 0
Apart x [] = Unit {0}
Apart x (y ∷ ys) = (x ≢ y) × Apart x ys

abbrev pub Distinct : List ℕ → Type 0
Distinct [] = Unit {0}
Distinct (x ∷ xs) = Apart x xs × Distinct xs

-- The links from `p` through the nodes to `q`, both ways.
abbrev pub Chain : ListHead → ℕ → List ℕ → ℕ → Type 0
Chain h p [] q = (h.next p ≡ q) × (h.prev q ≡ p)
Chain h p (x ∷ xs) q = (h.next p ≡ x) × (h.prev x ≡ p) × Chain h x xs q

-- The list at `head` holds the nodes.
pub record IsRing (head : ℕ) (xs : List ℕ) (h : ListHead) : Type 0 where
  pub links : Chain h head xs head
  pub apart : Apart head xs
  pub distinct : Distinct xs

abbrev pub first_or : List ℕ → ℕ → ℕ
first_or [] q = q
first_or (x ∷ xs) q = x

abbrev pub last_or : ℕ → List ℕ → ℕ
last_or p [] = p
last_or p (x ∷ xs) = last_or x xs

last_or_ne : (y p : ℕ) (xs : List ℕ) → y ≢ p → Apart y xs → y ≢ last_or p xs
last_or_ne y p [] n a = n
last_or_ne y p (x ∷ xs) n a = last_or_ne y x xs a.0 a.1

first_or_ne : (y q : ℕ) (xs : List ℕ) → y ≢ q → Apart y xs → y ≢ first_or xs q
first_or_ne y q [] n a = n
first_or_ne y q (x ∷ xs) n a = a.0

pub Apart-append : (y : ℕ) (xs ys : List ℕ) → Apart y (xs ++ ys) → Apart y xs × Apart y ys
Apart-append y [] ys a = (tt, a)
Apart-append y (x ∷ xs) ys a = ((a.0, (Apart-append y xs ys a.1).0), (Apart-append y xs ys a.1).1)

-- Stores that agree on the links of a chain.
pub Chain-same :
    (h h' : ListHead) (p q : ℕ) (xs : List ℕ) (a b c d : ℕ)
    → ((x : ℕ) → x ≢ a → x ≢ b → h'.next x ≡ h.next x)
    → ((x : ℕ) → x ≢ c → x ≢ d → h'.prev x ≡ h.prev x)
    → p ≢ a
    → p ≢ b
    → q ≢ c
    → q ≢ d
    → Apart a xs
    → Apart b xs
    → Apart c xs
    → Apart d xs
    → Chain h p xs q
    → Chain h' p xs q
Chain-same h h' p q [] a b c d f g pa pb qc qd aa ab ac ad l = (f p pa pb ∙ l.0, g q qc qd ∙ l.1)
Chain-same h h' p q (x ∷ xs) a b c d f g pa pb qc qd aa ab ac ad l = (
  f p pa pb ∙ l.0,
  g x (λ e. ac.0 (sym e)) (λ e. ad.0 (sym e)) ∙ l.1,
  Chain-same h h' x q xs a b c d f g (λ e. aa.0 (sym e)) (λ e. ab.0 (sym e)) qc qd aa.1 ab.1 ac.1
      ad.1 l.2,
)

module _ (new prev next : ℕ) (h : ListHead) where
  insert-next_prev : (insert_between new prev next h).next prev ≡ new
  unfolding insert_between set_next set_prev
  insert-next_prev = ground arith

  insert-next_new : new ≢ prev → (insert_between new prev next h).next new ≡ next
  unfolding insert_between set_next set_prev
  insert-next_new n = ground (arith, n)

  insert-prev_next : (insert_between new prev next h).prev next ≡ new
  unfolding insert_between set_next set_prev
  insert-prev_next = ground arith

  insert-prev_new : new ≢ next → (insert_between new prev next h).prev new ≡ prev
  unfolding insert_between set_next set_prev
  insert-prev_new n = ground (arith, n)

  pub insert-next_other :
      (x : ℕ) → x ≢ prev → x ≢ new → (insert_between new prev next h).next x ≡ h.next x
  unfolding insert_between set_next set_prev
  insert-next_other x n o = ground (arith, n, o)

  pub insert-prev_other :
      (x : ℕ) → x ≢ next → x ≢ new → (insert_between new prev next h).prev x ≡ h.prev x
  unfolding insert_between set_next set_prev
  insert-prev_other x n o = ground (arith, n, o)

-- A node goes between two neighbours of a chain.
pub insert-Chain :
    (new p q : ℕ) (xs ys : List ℕ) (h : ListHead)
    → Distinct (xs ++ ys)
    → Apart p (xs ++ ys)
    → Apart q (xs ++ ys)
    → Apart new (xs ++ ys)
    → new ≢ p
    → new ≢ q
    → Chain h p (xs ++ ys) q
    → Chain (insert_between new (last_or p xs) (first_or ys q) h) p (xs ++ new ∷ ys) q
insert-Chain new p q [] [] h d ap aq an np nq l = (
  insert-next_prev new p q h,
  insert-prev_new new p q h nq,
  (insert-next_new new p q h np, insert-prev_next new p q h),
)
insert-Chain new p q [] (y ∷ ys) h d ap aq an np nq l = (
  insert-next_prev new p y h,
  insert-prev_new new p y h an.0,
  (
    insert-next_new new p y h np,
    insert-prev_next new p y h,
    Chain-same h (insert_between new p y h) y q ys p new y new (insert-next_other new p y h)
        (insert-prev_other new p y h) (λ e. ap.0 (sym e)) (λ e. an.0 (sym e)) aq.0 (λ e. nq (sym e))
        ap.1 an.1 d.0 an.1 l.2,
  ),
)
insert-Chain new p q (x ∷ xs) ys h d ap aq an np nq l =
    let a = last_or x xs in
    let b = first_or ys q in
    (
      insert-next_other new a b h p (last_or_ne p x xs ap.0 (Apart-append p xs ys ap.1).0)
            (λ e. np (sym e))
          ∙ l.0,
      insert-prev_other new a b h x
            (first_or_ne x q ys (λ e. aq.0 (sym e)) (Apart-append x xs ys d.0).1)
            (λ e. an.0 (sym e))
          ∙ l.1,
      insert-Chain new x q xs ys h d.1 d.0 aq.1 an.1 an.0 nq l.2,
    )

module _ (prev next : ℕ) (h : ListHead) where
  join-next_prev : (join prev next h).next prev ≡ next
  unfolding join set_next set_prev
  join-next_prev = ground arith

  join-prev_next : (join prev next h).prev next ≡ prev
  unfolding join set_next set_prev
  join-prev_next = ground arith

  pub join-next_other : (x : ℕ) → x ≢ prev → (join prev next h).next x ≡ h.next x
  unfolding join set_next set_prev
  join-next_other x n = ground (arith, n)

  pub join-prev_other : (x : ℕ) → x ≢ next → (join prev next h).prev x ≡ h.prev x
  unfolding join set_next set_prev
  join-prev_other x n = ground (arith, n)

-- The neighbours of a node of a chain become neighbours.
pub join-Chain :
    (e p q : ℕ) (xs ys : List ℕ) (h : ListHead)
    → Distinct (xs ++ e ∷ ys)
    → Apart p (xs ++ e ∷ ys)
    → Apart q (xs ++ e ∷ ys)
    → Chain h p (xs ++ e ∷ ys) q
    → Chain (join (last_or p xs) (first_or ys q) h) p (xs ++ ys) q
join-Chain e p q [] [] h d ap aq l = (join-next_prev p q h, join-prev_next p q h)
join-Chain e p q [] (y ∷ ys) h d ap aq l = (
  join-next_prev p y h,
  join-prev_next p y h,
  Chain-same h (join p y h) y q ys p p y y (λ x n o. join-next_other p y h x n)
      (λ x n o. join-prev_other p y h x n) (λ z. ap.1.0 (sym z)) (λ z. ap.1.0 (sym z)) aq.1.0 aq.1.0
      ap.1.1 ap.1.1 d.1.0 d.1.0 l.2.2,
)
join-Chain e p q (x ∷ xs) ys h d ap aq l =
    let a = last_or x xs in
    let b = first_or ys q in
    (
      join-next_other a b h p (last_or_ne p x xs ap.0 (Apart-append p xs (e ∷ ys) ap.1).0) ∙ l.0,
      join-prev_other a b h x
            (first_or_ne x q ys (λ z. aq.0 (sym z)) (Apart-append x xs (e ∷ ys) d.0).1.1)
          ∙ l.1,
      join-Chain e x q xs ys h d.1 d.0 aq.1 l.2,
    )

-- The neighbours of a node.
pub Chain-prev :
    (e p q : ℕ) (xs ys : List ℕ) (h : ListHead)
    → Chain h p (xs ++ e ∷ ys) q
    → h.prev e ≡ last_or p xs
Chain-prev e p q [] ys h l = l.1
Chain-prev e p q (x ∷ xs) ys h l = Chain-prev e x q xs ys h l.2

pub Chain-first : (p q : ℕ) (ys : List ℕ) (h : ListHead) → Chain h p ys q → h.next p ≡ first_or ys q
Chain-first p q [] h l = l.0
Chain-first p q (y ∷ ys) h l = l.0

pub Chain-next :
    (e p q : ℕ) (xs ys : List ℕ) (h : ListHead)
    → Chain h p (xs ++ e ∷ ys) q
    → h.next e ≡ first_or ys q
Chain-next e p q [] ys h l = Chain-first e q ys h l.2
Chain-next e p q (x ∷ xs) ys h l = Chain-next e x q xs ys h l.2

pub Chain-last : (p q : ℕ) (xs : List ℕ) (h : ListHead) → Chain h p xs q → h.prev q ≡ last_or p xs
Chain-last p q [] h l = l.1
Chain-last p q (x ∷ xs) h l = Chain-last x q xs h l.2
