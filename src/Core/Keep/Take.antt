-- ===== src/Core/Keep/Take.antt =====
-- Taking a free command id for a descriptor in use.
use sxaurora_unvme.Base.{
  ℕ, ◌+◌, ◌<◌, ◌≡◌, true, false, ◌||◌, List, arith, ◌==◌, refl, Bool-cases, inl, inr, ==→eq, eq→==,
  ◌∙◌,
}
use sxaurora_unvme.Ring.Shape.{has}
use sxaurora_unvme.CidMask.{mask_test, mask_set, mask_test-set, length-mask_set}
use sxaurora_unvme.CidMask.Count.{count-set}
use sxaurora_unvme.CidMask.Search.{next_cid-lt}
use sxaurora_unvme.Core.State.{Queue}
use sxaurora_unvme.Core.Total.{total, total-update}
use sxaurora_unvme.Core.Submit.{take_cid}
use sxaurora_unvme.Core.Invariant.{one_if, owns, IsDesc, IsShared, IsQueue}
use sxaurora_unvme.Core.Owners.{owned-used, IsRing-Distinct}

module _ {q : Queue} {xs ys : List ℕ} (inv : IsQueue q xs ys) (p i : ℕ) (on : has p xs ≡ true)
    (small : i < q.size) (free : mask_test q.cidmask i ≡ false)
    (room : q.cidcount + 1 < q.size) where
  open inv use {linked, shared, descs, spare}

  mine : IsDesc q (q.desc p)
  mine = descs p on

  not_mine : mask_test (q.desc p).cidmask i ≡ false
  not_mine = ground (arith, owned-used shared i p on)

  -- The bits of the two masks after the step.
  pub queue_bits :
      (j : ℕ) → mask_test (mask_set q.cidmask i) j ≡ ((i == j) || mask_test q.cidmask j)
  queue_bits j = mask_test-set q.cidmask i j (omega (arith, shared.width, shared.fits))

  desc_bits :
      (j : ℕ)
      → mask_test (mask_set (q.desc p).cidmask i) j ≡ ((i == j) || mask_test (q.desc p).cidmask j)
  desc_bits j = mask_test-set (q.desc p).cidmask i j (omega (arith, mine.width, shared.fits))

  take-mine : IsDesc (take_cid q p i) ((take_cid q p i).desc p)
  unfolding take_cid
  take-mine =
      let same : (p == p) ≡ true = eq→== p p refl in
      rw same (record {
        width = length-mask_set (q.desc p).cidmask i ∙ mine.width;
        each = omega (
          arith,
          mine.each,
          count-set q.size i (q.desc p).cidmask small (omega (arith, mine.width, shared.fits))
              not_mine,
        );
        low = λ j h. ground (arith, desc_bits j, mine.low j);
      })

  take-IsDesc : (x : ℕ) → has x xs ≡ true → IsDesc (take_cid q p i) ((take_cid q p i).desc x)
  unfolding take_cid
  take-IsDesc x h = elim (Bool-cases (x == p)) [
    | inl e ↦ rw (==→eq x p e) take-mine
    | inr e ↦ let d = descs x h in rw e (record { width = d.width; each = d.each; low = d.low })
  ]

  take-owned :
      (j : ℕ) → total (owns (take_cid q p i) j) xs ≡ one_if (mask_test (take_cid q p i).cidmask j)
  unfolding take_cid
  take-owned j = ground (
    arith,
    total-update (owns q j) (owns (take_cid q p i) j) p xs (λ x ne. ground arith)
        (IsRing-Distinct _ _ xs linked.used) on,
    shared.owned j,
    queue_bits j,
    desc_bits j,
    not_mine,
  )

  take-IsShared : IsShared (take_cid q p i) xs
  unfolding take_cid
  take-IsShared = record {
    width = length-mask_set q.cidmask i ∙ shared.width;
    fits = shared.fits;
    bound = shared.bound;
    next = next_cid-lt q.size i (omega arith);
    room = room;
    counted = omega (
      arith,
      shared.counted,
      count-set q.size i q.cidmask small (omega (arith, shared.width, shared.fits)) free,
    );
    owned = take-owned;
    low = λ j h. ground (arith, queue_bits j, shared.low j);
  }

  -- The id is then in use by the descriptor, and all else is as it was.
  pub take_cid-IsQueue : IsQueue (take_cid q p i) xs ys
  unfolding take_cid
  take_cid-IsQueue = record {
    linked = record {
      used = linked.used;
      free = linked.free;
      apart = linked.apart;
      number = linked.number;
      pending = linked.pending;
    };
    shared = take-IsShared;
    descs = take-IsDesc;
    spare = λ x h. ground (arith, linked.apart x h, spare x h);
  }
