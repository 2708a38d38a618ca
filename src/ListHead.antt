-- ===== src/ListHead.antt =====
-- kernel/include/list.h: circular doubly linked lists whose nodes lie inside other structures. An
-- address is a number, and the links of all nodes are two memories; the list functions are the
-- stores of the source in their order.
mod Examples
mod Member
pub mod Ring
use sky_os.Base.{ℕ, ◌+◌, ◌-◌, ◌^◌, ◌≡◌, Bool, ◌&&◌, ◌==◌, write, u64}

-- The field `next` and the field `prev` of the node at each address.
pub record Links : Type 0 where
  pub next : ℕ → ℕ
  pub prev : ℕ → ℕ

abbrev pub set_next : ℕ → ℕ → Links → Links
set_next n v l = record l { next = write l.next n v }

abbrev pub set_prev : ℕ → ℕ → Links → Links
set_prev n v l = record l { prev = write l.prev n v }

unfoldable pub init_list_head : ℕ → Links → Links
init_list_head list l = set_prev list list (set_next list list l)

unfoldable pub list_add : (new head : ℕ) → Links → Links
list_add new head l =
    let l1 = set_next new (l.next head) l in
    let l2 = set_prev new head l1 in let l3 = set_prev (l2.next head) new l2 in set_next head new l3

unfoldable pub list_append : (new head : ℕ) → Links → Links
unfolding list_add
list_append new head l = list_add new (l.prev head) l

unfoldable pub list_del : ℕ → Links → Links
list_del node l =
    let l1 = set_next (l.prev node) (l.next node) l in set_prev (l1.next node) (l1.prev node) l1

unfoldable pub list_empty : ℕ → Links → Bool
list_empty head l = (l.prev head == head) && (l.next head == head)

-- `to_struct`, with `offsetof(type, member)` as a parameter: addresses are 64-bit words.
unfoldable pub to_struct : (ptr offset : ℕ) → ℕ
to_struct ptr offset = u64 (ptr + 2 ^ 64 - offset)
