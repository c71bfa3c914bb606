-- ===== src/Links/Laws.antt =====
-- The operations on a circular list, against sequences.
use fat.Prelude.{ℕ, ◌≡◌, ◌≢◌, List, [], ◌∷◌, ◌++◌, arith, sym, ap, append-nil, subst}
use fat.Links.{
  ListHead, set_next, set_prev, list_head_init, insert_between, list_add, list_add_tail,
}
use fat.Links.Ring.{
  Apart, Distinct, Chain, IsRing, first_or, last_or, Chain-same, insert-Chain, Chain-first,
  Chain-last, insert-next_other, insert-prev_other,
}

-- Each node of the first list is apart from the second.
abbrev pub AllApart : List ℕ → List ℕ → Type 0
AllApart [] l = Unit {0}
AllApart (x ∷ xs) l = Apart x l × AllApart xs l

-- The list at `head` holds the nodes, and every other list that was there still holds its own.
pub record Holds (head : ℕ) (changed nodes : List ℕ) (h h' : ListHead) : Type 0 where
  pub ring : IsRing head nodes h'
  pub others :
      (g : ℕ) (ws : List ℕ) → IsRing g ws h → AllApart (head ∷ changed) (g ∷ ws) → IsRing g ws h'

pub AllApart-first :
    (head : ℕ) (xs l : List ℕ) → Apart head l → AllApart xs l → Apart (first_or xs head) l
AllApart-first head [] l a b = a
AllApart-first head (x ∷ xs) l a b = b.0

pub AllApart-last : (p : ℕ) (xs l : List ℕ) → Apart p l → AllApart xs l → Apart (last_or p xs) l
AllApart-last p [] l a b = a
AllApart-last p (x ∷ xs) l a b = AllApart-last x xs l b.0 b.1

pub AllApart-append : (xs ys l : List ℕ) → AllApart (xs ++ ys) l → AllApart xs l × AllApart ys l
AllApart-append [] ys l a = (tt, a)
AllApart-append (x ∷ xs) ys l a =
    ((a.0, (AllApart-append xs ys l a.1).0), (AllApart-append xs ys l a.1).1)

-- A list none of whose nodes is written.
pub IsRing-same :
    (h h' : ListHead) (g : ℕ) (ws : List ℕ) (a b c d : ℕ)
    → ((x : ℕ) → x ≢ a → x ≢ b → h'.next x ≡ h.next x)
    → ((x : ℕ) → x ≢ c → x ≢ d → h'.prev x ≡ h.prev x)
    → Apart a (g ∷ ws)
    → Apart b (g ∷ ws)
    → Apart c (g ∷ ws)
    → Apart d (g ∷ ws)
    → IsRing g ws h
    → IsRing g ws h'
IsRing-same h h' g ws a b c d f k pa pb pc pd r = record {
  links =
      Chain-same h h' g g ws a b c d f k (λ e. pa.0 (sym e)) (λ e. pb.0 (sym e)) (λ e. pc.0 (sym e))
        (λ e. pd.0 (sym e)) pa.1 pb.1 pc.1 pd.1 r.links;
  apart = r.apart;
  distinct = r.distinct;
}

insert-others :
    (new prev next g : ℕ) (ws : List ℕ) (h : ListHead)
    → Apart new (g ∷ ws)
    → Apart prev (g ∷ ws)
    → Apart next (g ∷ ws)
    → IsRing g ws h
    → IsRing g ws (insert_between new prev next h)
insert-others new prev next g ws h an ap ax r =
    IsRing-same h (insert_between new prev next h) g ws prev new next new
      (insert-next_other new prev next h) (insert-prev_other new prev next h) ap an ax an r

-- `list_head_init` makes an empty list.
list_head_init-IsRing : (head : ℕ) (h : ListHead) → IsRing head [] (list_head_init head h)
unfolding list_head_init set_next set_prev
list_head_init-IsRing head h = record {
  links = (ground arith, ground arith);
  apart = tt;
  distinct = tt;
}

-- `list_add` puts a node that the list does not hold at its front; no other list changes that holds neither
-- the node nor nodes of the list.
list_add-Holds :
    (new head : ℕ) (xs : List ℕ) (h : ListHead)
    → IsRing head xs h
    → new ≢ head
    → Apart new xs
    → Holds head (new ∷ xs) (new ∷ xs) h (list_add new head h)
unfolding list_add
list_add-Holds new head xs h r n a =
    let at : h.next head ≡ first_or xs head = Chain-first head head xs h r.links in
    let added : Holds head (new ∷ xs) (new ∷ xs) h (insert_between new head (first_or xs head) h) =
      record {
        ring = record {
          links = insert-Chain new head head [] xs h r.distinct r.apart r.apart a n n r.links;
          apart = (λ e. n (sym e), r.apart);
          distinct = (a, r.distinct);
        };
        others = λ g ws o p.
            insert-others new head (first_or xs head) g ws h p.1.0 p.0
              (AllApart-first head xs (g ∷ ws) p.0 p.1.1) o;
      } in
    subst (λ x. Holds head (new ∷ xs) (new ∷ xs) h (insert_between new head x h)) (sym at) added

Apart-snoc : (y new : ℕ) (xs : List ℕ) → Apart y xs → y ≢ new → Apart y (xs ++ new ∷ [])
Apart-snoc y new [] a n = (n, tt)
Apart-snoc y new (x ∷ xs) a n = (a.0, Apart-snoc y new xs a.1 n)

Distinct-snoc : (new : ℕ) (xs : List ℕ) → Distinct xs → Apart new xs → Distinct (xs ++ new ∷ [])
Distinct-snoc new [] d a = (tt, tt)
Distinct-snoc new (x ∷ xs) d a =
    (Apart-snoc x new xs d.0 (λ e. a.0 (sym e)), Distinct-snoc new xs d.1 a.1)

-- `list_add_tail` puts a node that the list does not hold at its end; no other list changes that holds
-- neither the node nor nodes of the list.
pub list_add_tail-Holds :
    (new head : ℕ) (xs : List ℕ) (h : ListHead)
    → IsRing head xs h
    → new ≢ head
    → Apart new xs
    → Holds head (new ∷ xs) (xs ++ new ∷ []) h (list_add_tail new head h)
unfolding list_add_tail
list_add_tail-Holds new head xs h r n a =
    let at : h.prev head ≡ last_or head xs = Chain-last head head xs h r.links in
    let whole : xs ++ [] ≡ xs = append-nil xs in
    let links =
      insert-Chain new head head xs [] h (subst Distinct (sym whole) r.distinct)
        (subst (Apart head) (sym whole) r.apart) (subst (Apart head) (sym whole) r.apart)
        (subst (Apart new) (sym whole) a) n n
        (subst (λ l. Chain h head l head) (sym whole) r.links) in
    let added : Holds head (new ∷ xs) (xs ++ new ∷ []) h
        (insert_between new (last_or head xs) head h) =
      record {
        ring = record {
          links = links;
          apart = Apart-snoc head new xs r.apart (λ e. n (sym e));
          distinct = Distinct-snoc new xs r.distinct a;
        };
        others = λ g ws o p.
            insert-others new (last_or head xs) head g ws h p.1.0
              (AllApart-last head xs (g ∷ ws) p.0 p.1.1) p.0 o;
      } in
    subst (λ x. Holds head (new ∷ xs) (xs ++ new ∷ []) h (insert_between new x head h)) (sym at)
      added
