-- ===== src/Buddy/Ends.antt =====
-- buddy_malloc of src/aurora_pci.c while the lock is free: it ends, and the lock is free again if it
-- gives a block.
use sxaurora_unvme.Base.{ℕ, ◌*◌, ◌≡◌, List, [], ◌∷◌, false, none, some, refl, sym, subst, ap, ◌∙◌}
use sxaurora_unvme.Core.Prps.{Region}
use sxaurora_unvme.Buddy.{Heap, Got, got, behind, refill, halve, buddy_malloc}
use sxaurora_unvme.Buddy.Memory.{Dma, alloced, mem_alloc, mem_free, get_index_from_size}
use sxaurora_unvme.Buddy.Behind.{Lent, buddy_malloc-Lent}
use sxaurora_unvme.Buddy.Loan.{mem_alloc-Parts, mem_free-index}

-- It gives a block and the lock is free, or the global list is empty.
pub data Fine (global : List ℕ) : Got → Type 0 where
  gave : (p : ℕ) (h : Heap) → h.locked ≡ false → Fine global (got (some p) h)
  empty : (h : Heap) → global ≡ [] → Fine global (got none h)

refill-Fine : (global : List ℕ) → Fine global (refill global false)
unfolding refill
refill-Fine [] = empty _ refl
refill-Fine (p ∷ ps) = gave p _ refl

halve-Fine : (size : ℕ) (global : List ℕ) (g : Got) → Fine global g → Fine global (halve size g)
unfolding halve
halve-Fine size global _ (gave p h free) = gave p _ free
halve-Fine size global _ (empty h none_left) = empty _ none_left

pub buddy_malloc-Fine :
    (size : ℕ) (l : List ℕ) (ls : List (List ℕ)) (global : List ℕ)
    → Fine global (buddy_malloc size (l ∷ ls) global false)
unfolding buddy_malloc
buddy_malloc-Fine size (p ∷ ps) ls global = gave p _ refl
buddy_malloc-Fine size [] [] global = refill-Fine global
buddy_malloc-Fine size [] (l ∷ ls) global =
    halve-Fine size global _ (buddy_malloc-Fine (2 * size) l ls global)

Fine-locked : (global : List ℕ) (p : ℕ) (h : Heap) → Fine global (got (some p) h) → h.locked ≡ false
Fine-locked global p h (gave _ _ free) = free

-- After an allocation that gives a buffer the lock is free.
pub mem_alloc-locked :
    (r : Region) (h : Heap) (size : ℕ) (d : Dma) (h' : Heap)
    → h.locked ≡ false
    → mem_alloc r h size ≡ alloced d h'
    → h'.locked ≡ false
mem_alloc-locked r h size d h' free e =
    let k = mem_alloc-Parts r h size d h' e in
    let n =
      subst (λ g. Lent (behind k.i h.lists) g) k.gave_it
        (buddy_malloc-Lent d.size (behind k.i h.lists) h.global h.locked) in
    let (l, rest, cons) = n.0 in
    let same : buddy_malloc d.size (l ∷ rest) h.global false ≡ got (some d.buf) k.left =
      ap (λ ls. buddy_malloc d.size ls h.global false) (sym cons)
      ∙ ap (λ b. buddy_malloc d.size (behind k.i h.lists) h.global b) (sym free)
      ∙ k.gave_it in
    let left =
      Fine-locked h.global d.buf k.left
        (subst (Fine h.global) same (buddy_malloc-Fine d.size l rest h.global)) in
    ap (λ (u : Heap). u.locked) k.heap ∙ left

pub mem_free-locked :
    (r : Region) (h : Heap) (d : Dma) (i : ℕ)
    → get_index_from_size d.size ≡ some i
    → (mem_free r h d).locked ≡ h.locked
mem_free-locked r h d i e = ap (λ (u : Heap). u.locked) (mem_free-index r h d i e)
