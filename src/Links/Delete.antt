-- ===== src/Links/Delete.antt =====
-- `list_del`, `list_is_null` and `list_for_each`, against sequences.
use fat.Prelude.{
  ℕ, suc, zero, ◌≡◌, ◌≢◌, ◌≤◌, true, false, some, List, [], ◌∷◌, ◌++◌, ◌==◌, ◌||◌, if◌then◌else◌,
  arith, refl, sym, ap, ◌∙◌, length, subst,
}
use fat.Links.{ListHead, set_next, set_prev, join, del_entry, list_del, for_each}
use fat.Links.Ring.{
  Apart, Distinct, Chain, IsRing, first_or, last_or, Apart-append, join-Chain, Chain-prev,
  Chain-next, join-next_other, join-prev_other,
}
use fat.Links.Laws.{AllApart, Holds, AllApart-first, AllApart-last, IsRing-same}

Distinct-middle :
    (xs ys : List ℕ) (e : ℕ) → Distinct (xs ++ e ∷ ys) → Distinct (xs ++ ys) × Apart e (xs ++ ys)
Distinct-middle [] ys e d = (d.1, d.0)
Distinct-middle (x ∷ xs) ys e d =
    let (inner, off) = Distinct-middle xs ys e d.1 in
    let (before, after) = Apart-append x xs (e ∷ ys) d.0 in
    ((Apart-both x xs ys before after.1, inner), (λ z. after.0 (sym z), off))
  where
    Apart-both : (x : ℕ) (xs ys : List ℕ) → Apart x xs → Apart x ys → Apart x (xs ++ ys)
    Apart-both x [] ys a b = b
    Apart-both x (y ∷ xs) ys a b = (a.0, Apart-both x xs ys a.1 b)

Apart-middle : (y e : ℕ) (xs ys : List ℕ) → Apart y (xs ++ e ∷ ys) → Apart y (xs ++ ys) × (y ≢ e)
Apart-middle y e [] ys a = (a.1, a.0)
Apart-middle y e (x ∷ xs) ys a = let (b, n) = Apart-middle y e xs ys a.1 in ((a.0, b), n)

AllApart-middle :
    (xs ys l : List ℕ) (e : ℕ)
    → AllApart (xs ++ e ∷ ys) l
    → AllApart xs l × Apart e l × AllApart ys l
AllApart-middle [] ys l e a = (tt, a.0, a.1)
AllApart-middle (x ∷ xs) ys l e a =
    let (b, c, d) = AllApart-middle xs ys l e a.1 in ((a.0, b), c, d)

-- The links of the entry itself.
abbrev cleared : ℕ → ListHead → ListHead
cleared e h = record {
  prev = λ a. if a == e then 0 else h.prev a;
  next = λ a. if a == e then 0 else h.next a;
}

cleared-IsRing :
    (e g : ℕ) (ws : List ℕ) (h : ListHead)
    → Apart e (g ∷ ws)
    → IsRing g ws h
    → IsRing g ws (cleared e h)
cleared-IsRing e g ws h a r =
    IsRing-same h (cleared e h) g ws e e e e (λ x n o. ground (arith, n))
      (λ x n o. ground (arith, n)) a a a a r

first_or_pos : (q : ℕ) (xs : List ℕ) → 0 ≢ q → Apart 0 xs → 0 ≢ first_or xs q
first_or_pos q [] n a = n
first_or_pos q (x ∷ xs) n a = a.0

last_or_pos : (p : ℕ) (xs : List ℕ) → 0 ≢ p → Apart 0 xs → 0 ≢ last_or p xs
last_or_pos p [] n a = n
last_or_pos p (x ∷ xs) n a = last_or_pos x xs a.0 a.1

list_del-join :
    (e a b : ℕ) (h : ListHead)
    → h.prev e ≡ a
    → h.next e ≡ b
    → 0 ≢ a
    → 0 ≢ b
    → list_del e h ≡ cleared e (join a b h)
unfolding list_del del_entry set_next set_prev
list_del-join e a b h p n za zb =
    let valid : (a == 0 || b == 0) ≡ false = ground (arith, za, zb) in rw (p, n) (rw valid refl)

-- `list_del` takes a node off its list; the rest of the list stays in its order, and no other list changes
-- that holds no node of this one. No node is at address 0.
pub list_del-Holds :
    (e head : ℕ) (xs ys : List ℕ) (h : ListHead)
    → IsRing head (xs ++ e ∷ ys) h
    → Apart 0 (head ∷ xs ++ e ∷ ys)
    → Holds head (xs ++ e ∷ ys) (xs ++ ys) h (list_del e h)
list_del-Holds e head xs ys h r z =
    let a = last_or head xs in
    let b = first_or ys head in
    let (zx, zy) = Apart-append 0 xs (e ∷ ys) z.1 in
    let step =
      list_del-join e a b h (Chain-prev e head head xs ys h r.links)
        (Chain-next e head head xs ys h r.links) (last_or_pos head xs z.0 zx)
        (first_or_pos head ys z.0 zy.1) in
    let (inner, off) = Distinct-middle xs ys e r.distinct in
    let (away, ne) = Apart-middle head e xs ys r.apart in
    let joined : IsRing head (xs ++ ys) (join a b h) = record {
      links = join-Chain e head head xs ys h r.distinct r.apart r.apart r.links;
      apart = away;
      distinct = inner;
    } in
    subst (Holds head (xs ++ e ∷ ys) (xs ++ ys) h) (sym step) (record {
      ring = cleared-IsRing e head (xs ++ ys) (join a b h) (λ n. ne (sym n), off) joined;
      others = λ g ws o p.
          let (px, pe, py) = AllApart-middle xs ys (g ∷ ws) e p.1 in
          let pa = AllApart-last head xs (g ∷ ws) p.0 px in
          let pb = AllApart-first head ys (g ∷ ws) p.0 py in
          cleared-IsRing e g ws (join a b h) pe (
            IsRing-same h (join a b h) g ws a a b b (λ x n o. join-next_other a b h x n)
              (λ x n o. join-prev_other a b h x n) pa pa pb pb o);
    })

for_each-Chain :
    (turns p head : ℕ) (xs : List ℕ) (h : ListHead)
    → length xs ≤ turns
    → Apart head xs
    → Chain h p xs head
    → for_each turns head (h.next p) h ≡ some xs
unfolding for_each
for_each-Chain zero p head [] h l a c =
    let t : (h.next p == head) ≡ true = ground (arith, c.0) in rw t refl
for_each-Chain zero p head (x ∷ xs) h l a c = absurd (omega (arith, l))
for_each-Chain (suc turns) p head [] h l a c =
    let t : (h.next p == head) ≡ true = ground (arith, c.0) in rw t refl
for_each-Chain (suc turns) p head (x ∷ xs) h l a c =
    let t : (h.next p == head) ≡ false = ground (arith, c.0, a.0) in
    let rest : for_each turns head (h.next (h.next p)) h ≡ some xs =
      ap (λ y. for_each turns head (h.next y) h) c.0
      ∙ for_each-Chain turns x head xs h (omega (arith, l)) a.1 c.2 in
    rw t (rw rest (ap (λ y. some (y ∷ xs)) c.0))

-- `list_for_each` ends, and visits the nodes of a list in their order: a turn for each is enough.
pub for_each-IsRing :
    (turns head : ℕ) (xs : List ℕ) (h : ListHead)
    → IsRing head xs h
    → length xs ≤ turns
    → for_each turns head (h.next head) h ≡ some xs
for_each-IsRing turns head xs h r l = for_each-Chain turns head head xs h l r.apart r.links
