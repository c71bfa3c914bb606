-- ===== src/Links.antt =====
-- src/include/kernel/list.h, which src/include/libc/sys/list.h repeats: the circular lists that all parts
-- use. A node is named by its address, and the store is two functions to the fields of a node; NULL is 0.
pub mod Ring
pub mod Laws
pub mod Delete
mod Examples
use fat.Prelude.{
  ℕ, zero, suc, Bool, true, false, Option, none, some, List, [], ◌∷◌, ◌==◌, ◌&&◌, ◌||◌, not,
  if◌then◌else◌,
}

pub record ListHead : Type 0 where
  pub prev : ℕ → ℕ
  pub next : ℕ → ℕ

unfoldable pub set_next : ℕ → ℕ → ListHead → ListHead
set_next node to h = record h { next = λ a. if a == node then to else h.next a }

unfoldable pub set_prev : ℕ → ℕ → ListHead → ListHead
set_prev node to h = record h { prev = λ a. if a == node then to else h.prev a }

unfoldable pub list_head_init : ℕ → ListHead → ListHead
unfolding set_next set_prev
list_head_init head h = set_prev head head (set_next head head h)

unfoldable pub list_is_null : ℕ → ListHead → Bool
list_is_null head h = h.next head == head || h.prev head == head

-- `__list_add`
unfoldable pub insert_between : ℕ → ℕ → ℕ → ListHead → ListHead
unfolding set_next set_prev
insert_between new prev next h =
    set_prev next new (set_next prev new (set_prev new prev (set_next new next h)))

unfoldable pub list_add : ℕ → ℕ → ListHead → ListHead
unfolding insert_between
list_add new head h = insert_between new head (h.next head) h

unfoldable pub list_add_tail : ℕ → ℕ → ListHead → ListHead
unfolding insert_between
list_add_tail new head h = insert_between new (h.prev head) head h

-- `__list_del`
unfoldable pub join : ℕ → ℕ → ListHead → ListHead
unfolding set_next set_prev
join prev next h = set_prev next prev (set_next prev next h)

-- `__list__del_entry` does nothing for an entry with a NULL.
unfoldable pub del_entry : ℕ → ListHead → ListHead
unfolding join
del_entry entry h =
    if h.prev entry == 0 || h.next entry == 0 then h else join (h.prev entry) (h.next entry) h

unfoldable pub list_del : ℕ → ListHead → ListHead
unfolding del_entry set_next set_prev
list_del entry h = set_prev entry 0 (set_next entry 0 (del_entry entry h))

-- The nodes that `list_for_each` visits from `pos` on, with a bound on its turns; `none` is a bound that is
-- too small.
unfoldable pub for_each : ℕ → ℕ → ℕ → ListHead → Option (List ℕ)
for_each zero head pos h = if pos == head then some [] else none
for_each (suc turns) head pos h =
    let rest = for_each turns head (h.next pos) h in
    if pos == head then some [] else elim rest [ none ↦ none | some l ↦ some (pos ∷ l) ]
