-- ===== src/Links/Examples.antt =====
-- A list of two nodes, and a list beside it.
use fat.Prelude.{◌≡◌, some, [], ◌∷◌, ◌==◌, if◌then◌else◌, arith, refl}
use fat.Links.{list_add_tail, ListHead, list_del, for_each}
use fat.Links.Ring.{IsRing}
use fat.Links.Laws.{list_add_tail-Holds, Holds}
use fat.Links.Delete.{list_del-Holds, for_each-IsRing}

-- The list at 16 holds 32 and 48; 64 points to itself.
abbrev two_nodes : ListHead
two_nodes = record {
  prev = λ a. if a == 16 then 48 else if a == 32 then 16 else if a == 48 then 32 else a;
  next = λ a. if a == 16 then 32 else if a == 32 then 48 else if a == 48 then 16 else a;
}

two_nodes-IsRing : IsRing 16 (32 ∷ 48 ∷ []) two_nodes
two_nodes-IsRing = record {
  links = (refl, refl, (refl, refl, (refl, refl)));
  apart = (λ e. absurd (omega (arith, e)), (λ e. absurd (omega (arith, e)), tt));
  distinct = ((λ e. absurd (omega (arith, e)), tt), (tt, tt));
}

list_add_tail-Holds_example :
    Holds 16 (80 ∷ 32 ∷ 48 ∷ []) (32 ∷ 48 ∷ 80 ∷ []) two_nodes (list_add_tail 80 16 two_nodes)
list_add_tail-Holds_example =
    list_add_tail-Holds 80 16 (32 ∷ 48 ∷ []) two_nodes two_nodes-IsRing
      (λ e. absurd (omega (arith, e)))
      (λ e. absurd (omega (arith, e)), (λ e. absurd (omega (arith, e)), tt))

list_del-Holds_example : Holds 16 (32 ∷ 48 ∷ []) (48 ∷ []) two_nodes (list_del 32 two_nodes)
list_del-Holds_example = list_del-Holds 32 16 [] (48 ∷ []) two_nodes two_nodes-IsRing (
  λ e. absurd (omega (arith, e)),
  (λ e. absurd (omega (arith, e)), (λ e. absurd (omega (arith, e)), tt)),
)

for_each-IsRing_example : for_each 2 16 32 two_nodes ≡ some (32 ∷ 48 ∷ [])
for_each-IsRing_example =
    for_each-IsRing 2 16 (32 ∷ 48 ∷ []) two_nodes two_nodes-IsRing (omega arith)
