-- ===== src/Core/Clean.antt =====
-- unvme_queue_cleanup, in src/unvme_core.c.
use sxaurora_unvme.Base.{
  ℕ, zero, suc, ◌+◌, List, [], ◌∷◌, ◌++◌, Option, none, some, ◌==◌, if◌then◌else◌,
}
use sxaurora_unvme.Ring.{Links, list_del}
use sxaurora_unvme.Core.State.{Queue}

-- What a loop leaves: the links, and the descriptors that it has freed, in order.
pub record Cleaned : Type 0 where
  pub links : Links
  pub freed : List ℕ

abbrev freeing : ℕ → Option Cleaned → Option Cleaned
freeing p none = none
freeing p (some c) = some (record c { freed = p ∷ c.freed })

-- `while ((desc = head) != NULL) { LIST_DEL(head, desc); free(desc); }`; `none` past the fuel
unfoldable pub free_ring : (fuel : ℕ) → Links → (head : ℕ) → Option Cleaned
unfolding list_del
free_ring zero l head = none
free_ring (suc f) l head =
    let d = list_del l head head in
    let rest = free_ring f d.links d.head in
    if head == 0 then some (record { links = l; freed = [] }) else freeing head rest

-- unvme_queue_cleanup(q): the descriptors that it frees; the id mask and the DMA buffers, which it
-- frees too, are no part of the model. `free_count` bounds the free descriptors.
unfoldable pub queue_cleanup : (free_count : ℕ) → Queue → Option (List ℕ)
unfolding free_ring
queue_cleanup free_count q = elim (free_ring (q.desccount + 1) q.links q.desclist) [
  | none ↦ none
  | some c ↦ elim (free_ring (free_count + 1) c.links q.descfree) [
    | none ↦ none
    | some d ↦ some (c.freed ++ d.freed)
  ]
]
