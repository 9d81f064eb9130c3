-- ===== src/Core/Invariant.antt =====
-- What holds of a queue between calls: `xs` are the descriptors in use and `ys` the free ones, each
-- in the order of its ring.
use sxaurora_unvme.Base.{ℕ, ◌*◌, ◌/◌, ◌^◌, ◌<◌, ◌≤◌, ◌≡◌, Bool, true, false, List, [], ◌∷◌, length}
use sxaurora_unvme.Ring.Shape.{has, IsRing}
use sxaurora_unvme.CidMask.{mask_test}
use sxaurora_unvme.CidMask.Count.{count}
use sxaurora_unvme.Core.State.{Queue, Descriptor}
use sxaurora_unvme.Core.Total.{total}

abbrev pub one_if : Bool → ℕ
one_if true = 1
one_if false = 0

-- 1 if the descriptor at `p` has command id `i` pending, and else 0
abbrev pub owns : Queue → ℕ → ℕ → ℕ
owns q i p = one_if (mask_test (q.desc p).cidmask i)

-- The pending head is a descriptor in use. If there is none, it is not used: a new queue leaves it at
-- a free descriptor.
abbrev pub IsPending : ℕ → List ℕ → Type 0
IsPending pend [] = Unit {0}
IsPending pend (x ∷ xs) = has pend (x ∷ xs) ≡ true

-- One descriptor: the width of its mask; its count is that of its mask; no id is out of range.
pub record IsDesc (q : Queue) (d : Descriptor) : Type 0 where
  pub width : length d.cidmask ≡ q.masksize / 8
  pub each : d.cidcount ≡ count q.size d.cidmask
  pub low : (i : ℕ) → mask_test d.cidmask i ≡ true → i < q.size

-- The ids of the queue: its count is that of its mask, and each id in use belongs to one descriptor.
pub record IsShared (q : Queue) (xs : List ℕ) : Type 0 where
  pub width : length q.cidmask ≡ q.masksize / 8
  pub fits : q.size ≤ 64 * (q.masksize / 8)
  pub bound : (1 < q.size) × (q.size ≤ 2 ^ 16)
  pub next : q.cid < q.size
  pub room : q.cidcount < q.size
  pub counted : q.cidcount ≡ count q.size q.cidmask
  pub owned : (i : ℕ) → total (owns q i) xs ≡ one_if (mask_test q.cidmask i)
  pub low : (i : ℕ) → mask_test q.cidmask i ≡ true → i < q.size

-- The two rings.
pub record IsLinked (q : Queue) (xs ys : List ℕ) : Type 0 where
  pub used : IsRing q.links q.desclist xs
  pub free : IsRing q.links q.descfree ys
  pub apart : (x : ℕ) → has x ys ≡ true → has x xs ≡ false
  pub number : q.desccount ≡ length xs
  pub pending : IsPending q.descpend xs

pub record IsQueue (q : Queue) (xs ys : List ℕ) : Type 0 where
  pub linked : IsLinked q xs ys
  pub shared : IsShared q xs
  pub descs : (x : ℕ) → has x xs ≡ true → IsDesc q (q.desc x)
  pub spare : (x : ℕ) → has x ys ≡ true → length (q.desc x).cidmask ≡ q.masksize / 8
