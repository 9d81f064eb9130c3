-- ===== src/Ring.antt =====
-- The circular doubly linked lists of src/unvme_core.h: the macros LIST_ADD and LIST_DEL over a
-- store of `next` and `prev` pointers. NULL is 0.
pub mod Shape
pub mod Add
pub mod Del
pub mod Rotate
mod Tests
use sxaurora_unvme.Base.{ℕ, ◌==◌, if◌then◌else◌}

-- The `next` and `prev` fields of all nodes, by address.
pub record Links : Type 0 where
  pub next : ℕ → ℕ
  pub prev : ℕ → ℕ

abbrev pub write : (ℕ → ℕ) → ℕ → ℕ → ℕ → ℕ
write f p v q = if q == p then v else f q

abbrev pub set_next : Links → ℕ → ℕ → Links
set_next l p v = record l { next = write l.next p v }

abbrev pub set_prev : Links → ℕ → ℕ → Links
set_prev l p v = record l { prev = write l.prev p v }

-- The four assignments of LIST_ADD on a list that is not empty.
unfoldable pub link_before : Links → ℕ → ℕ → Links
link_before l head node =
    let l1 = set_next l node head in
    let l2 = set_prev l1 node (l1.prev head) in
    let l3 = set_next l2 (l2.prev head) node in set_prev l3 head node

-- LIST_ADD(head, node): the links and the new head.
unfoldable pub list_add : Links → ℕ → ℕ → record { links : Links; head : ℕ }
unfolding link_before
list_add l head node =
    if head == 0
    then record { links = set_next (set_prev l node node) node node; head = node }
    else record { links = link_before l head node; head = head }

-- The two assignments of LIST_DEL on a list with another node.
unfoldable pub unlink : Links → ℕ → Links
unlink l node =
    let l1 = set_prev l (l.next node) (l.prev node) in set_next l1 (l1.prev node) (l1.next node)

-- LIST_DEL(head, node): the links and the new head.
unfoldable pub list_del : Links → ℕ → ℕ → record { links : Links; head : ℕ }
unfolding unlink
list_del l head node =
    if l.next node == node
    then record { links = l; head = 0 }
    else let l' = unlink l node in
      record { links = l'; head = if head == node then l'.next node else head }
