-- ===== src/Core/Keep/Freed.antt =====
-- unvme_queue_cleanup, in src/unvme_core.c: every descriptor is freed once.
use sxaurora_unvme.Base.{
  ℕ, zero, suc, ◌+◌, ◌<◌, ◌≡◌, true, false, List, [], ◌∷◌, ◌++◌, some, ◌==◌, arith, refl, length,
  subst,
}
use sxaurora_unvme.Ring.{Links, list_del}
use sxaurora_unvme.Ring.Shape.{has, erase, IsRing}
use sxaurora_unvme.Ring.Del.{list_del-IsRing, list_del-frame}
use sxaurora_unvme.Core.State.{Queue}
use sxaurora_unvme.Core.Clean.{Cleaned, free_ring, queue_cleanup}
use sxaurora_unvme.Core.Invariant.{IsQueue}

erase-head : (p : ℕ) (xs : List ℕ) → erase p (p ∷ xs) ≡ xs
erase-head p xs = ground arith

-- The loop frees the nodes of the ring, in order, and leaves alone a ring apart from it.
free_ring-all :
    (f : ℕ) (l : Links) (head : ℕ) (xs : List ℕ) (other : ℕ) (ys : List ℕ)
    → length xs < f
    → IsRing l head xs
    → IsRing l other ys
    → ((x : ℕ) → has x ys ≡ true → has x xs ≡ false)
    → (c : Cleaned) × (free_ring f l head ≡ some c) × (c.freed ≡ xs) × IsRing c.links other ys
unfolding free_ring
free_ring-all zero l head xs other ys few ring ring' apart = absurd (omega arith)
free_ring-all (suc f) l head [] other ys few ring ring' apart =
    rw ring (record { links = l; freed = [] }, refl, refl, ring')
free_ring-all (suc f) l head (p ∷ xs) other ys few ring ring' apart =
    let here : IsRing l p (p ∷ xs) = subst (λ a. IsRing l a (p ∷ xs)) ring.0 ring in
    let live : (p == 0) ≡ false = ground (arith, ring.1) in
    let d = list_del l p p in
    let next =
      subst (λ zs. IsRing d.links d.head zs) (erase-head p xs)
        (list_del-IsRing l p p (p ∷ xs) here (ground arith)) in
    let still = list_del-frame l p p (p ∷ xs) other ys (ground arith) apart here ring' in
    let (c, e, all, r) =
      free_ring-all f d.links d.head xs other ys (omega arith) next still
        (λ x h. ground (arith, apart x h)) in
    (record c { freed = p ∷ c.freed }, rw (ring.0, free_ring, live, e) refl, rw all refl, r)

-- unvme_queue_cleanup of a valid queue ends, and frees each descriptor once: those in use in order,
-- then those that are free in order.
pub queue_cleanup-all :
    (q : Queue) (xs ys : List ℕ) → IsQueue q xs ys → queue_cleanup (length ys) q ≡ some (xs ++ ys)
unfolding queue_cleanup
queue_cleanup-all q xs ys inv =
    let k = inv.linked in
    let (c, e, all, r) =
      free_ring-all (q.desccount + 1) q.links q.desclist xs q.descfree ys (omega (arith, k.number))
        k.used k.free k.apart in
    let (d, e', all', r') =
      free_ring-all (length ys + 1) c.links q.descfree ys 0 [] (omega arith) r refl
        (λ x h. ground arith) in
    rw (queue_cleanup, e, e', all, all') refl
