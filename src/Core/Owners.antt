-- ===== src/Core/Owners.antt =====
-- Who owns a command id.
use sxaurora_unvme.Base.{ℕ, ◌≡◌, true, false, length, List, [], ◌∷◌, arith, ◌≢◌}
use sxaurora_unvme.Ring.{Links}
use sxaurora_unvme.Ring.Shape.{has, IsRing, Distinct}
use sxaurora_unvme.CidMask.{mask_test}
use sxaurora_unvme.CidMask.Count.{count-some, count-pos}
use sxaurora_unvme.Core.State.{Queue}
use sxaurora_unvme.Core.Total.{total-pos, total-ge}
use sxaurora_unvme.Core.Invariant.{owns, IsShared, IsQueue, IsPending}

pub IsRing-Distinct : (l : Links) (head : ℕ) (xs : List ℕ) → IsRing l head xs → Distinct xs
IsRing-Distinct l head [] ring = tt
IsRing-Distinct l head (p ∷ xs) ring = ring.2

-- No node of a ring is NULL.
pub not_null :
    (l : Links) (head : ℕ) (xs : List ℕ) (p : ℕ) → IsRing l head xs → has p xs ≡ true → p ≢ 0
not_null l head [] p ring on = ground arith
not_null l head (x ∷ xs) p ring on = ground (arith, ring.1)

-- The pending head, and the ring in use.
pub pending-has :
    (pend : ℕ) (xs : List ℕ) (y : ℕ) → IsPending pend xs → has y xs ≡ true → has pend xs ≡ true
pending-has pend [] y p on = ground arith
pending-has pend (x ∷ xs) y p on = p

pub none_in_use : (pend : ℕ) (xs : List ℕ) → IsPending pend xs → has pend xs ≡ false → length xs ≡ 0
none_in_use pend [] p gone = omega arith
none_in_use pend (x ∷ xs) p gone = ground arith

pub has-IsPending : (pend : ℕ) (xs : List ℕ) → has pend xs ≡ true → IsPending pend xs
has-IsPending pend [] h = ground arith
has-IsPending pend (x ∷ xs) h = h

module _ {q : Queue} {xs : List ℕ} (shared : IsShared q xs) (i : ℕ) where
  -- An id in use has an owner.
  pub owner :
      mask_test q.cidmask i ≡ true
      → (p : ℕ) × (has p xs ≡ true) × (mask_test (q.desc p).cidmask i ≡ true)
  owner used =
      let (p, on, pos) = total-pos (owns q i) xs (ground (arith, shared.owned i)) in
      (p, on, ground arith)

  -- An id that a descriptor owns is in use.
  pub owned-used :
      (p : ℕ)
      → has p xs ≡ true
      → mask_test (q.desc p).cidmask i ≡ true
      → mask_test q.cidmask i ≡ true
  owned-used p on own = ground (arith, shared.owned i, total-ge (owns q i) p xs on)

-- If ids are in use, some descriptor has some pending.
pub busy :
    {q : Queue} {xs ys : List ℕ}
    → IsQueue q xs ys
    → q.cidcount ≢ 0
    → (p : ℕ) × (has p xs ≡ true) × ((q.desc p).cidcount ≢ 0)
busy {q} inv some_used =
    let (i, small, used) = count-some q.size q.cidmask (omega (arith, inv.shared.counted)) in
    let (p, on, own) = owner inv.shared i used in
    (p, on, omega (arith, (inv.descs p on).each, count-pos q.size i (q.desc p).cidmask small own))
