-- ===== src/Slab/Links.antt =====
-- The circular lists of src/mm/allocator.c. Nodes are addresses, and `next` and `prev` are the two
-- fields of the `struct list` at each address; a list is kept by the node that heads it.
pub mod Rings
pub mod Owned
use ios.Prelude.{ℕ, Option, none, some, ◌==◌, if◌then◌else◌}
use ios.Mem.{Mem, store}

pub record Links : Type 0 where
  pub next : ℕ → ℕ
  pub prev : ℕ → ℕ

abbrev pub set_next : ℕ → ℕ → Links → Links
set_next node to l = record l { next = store l.next node to }

abbrev pub set_prev : ℕ → ℕ → Links → Links
set_prev node to l = record l { prev = store l.prev node to }

unfoldable pub list_init : ℕ → Links → Links
list_init list l = set_prev list list (set_next list list l)

unfoldable pub list_last : ℕ → Links → Option ℕ
list_last list l = if l.prev list == list then none else some (l.prev list)

unfoldable pub list_next : ℕ → Links → Option ℕ
list_next list l = if l.next list == list then none else some (l.next list)

-- The four assignments, in their order.
unfoldable pub list_insert : ℕ → ℕ → Links → Links
list_insert new link l =
    let l1 = set_prev new (l.prev link) l in
    let l2 = set_next new link l1 in
    let l3 = set_next (l2.prev new) new l2 in set_prev (l3.next new) new l3

unfoldable pub list_append : ℕ → ℕ → Links → Links
list_append new into l = list_insert new into l

unfoldable pub list_remove : ℕ → Links → Links
list_remove list l =
    let l1 = set_next (l.prev list) (l.next list) l in
    let l2 = set_prev (l1.next list) (l1.prev list) l1 in
    let l3 = set_next list list l2 in set_prev list list l3
