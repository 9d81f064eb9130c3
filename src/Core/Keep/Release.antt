-- ===== src/Core/Keep/Release.antt =====
-- Releasing a completed command id.
use sxaurora_unvme.Base.{
  ℕ, ◌<◌, ◌≡◌, true, ◌&&◌, not, List, arith, ◌==◌, refl, Bool-cases, inl, inr, ==→eq, eq→==, ◌∙◌,
}
use sxaurora_unvme.Ring.Shape.{has}
use sxaurora_unvme.CidMask.{mask_test, mask_clear, mask_test-clear, length-mask_clear}
use sxaurora_unvme.CidMask.Count.{count-clear}
use sxaurora_unvme.Core.State.{Queue}
use sxaurora_unvme.Core.Total.{total, total-update}
use sxaurora_unvme.Core.Complete.{release_cid}
use sxaurora_unvme.Core.Invariant.{one_if, owns, IsDesc, IsShared, IsQueue, IsPending}
use sxaurora_unvme.Core.Owners.{owned-used, IsRing-Distinct}

module _ {q : Queue} {xs ys : List ℕ} (inv : IsQueue q xs ys) (p i stat : ℕ) (on : has p xs ≡ true)
    (own : mask_test (q.desc p).cidmask i ≡ true) where
  open inv use {linked, shared, descs, spare}

  mine : IsDesc q (q.desc p)
  mine = descs p on

  small : i < q.size
  small = mine.low i own

  used : mask_test q.cidmask i ≡ true
  used = owned-used shared i p on own

  queue_bits :
      (j : ℕ) → mask_test (mask_clear q.cidmask i) j ≡ (not (i == j) && mask_test q.cidmask j)
  queue_bits j = mask_test-clear q.cidmask i j (omega (arith, small, shared.width, shared.fits))

  desc_bits :
      (j : ℕ)
      → mask_test (mask_clear (q.desc p).cidmask i) j
        ≡ (not (i == j) && mask_test (q.desc p).cidmask j)
  desc_bits j =
      mask_test-clear (q.desc p).cidmask i j (omega (arith, small, mine.width, shared.fits))

  release-mine : IsDesc (release_cid q p i stat) ((release_cid q p i stat).desc p)
  unfolding release_cid
  release-mine =
      let same : (p == p) ≡ true = eq→== p p refl in
      rw same (record {
        width = length-mask_clear (q.desc p).cidmask i ∙ mine.width;
        each = omega (
          arith,
          mine.each,
          count-clear q.size i (q.desc p).cidmask small (omega (arith, mine.width, shared.fits))
              own,
        );
        low = λ j h. ground (arith, desc_bits j, mine.low j);
      })

  release-IsDesc :
      (x : ℕ) → has x xs ≡ true → IsDesc (release_cid q p i stat) ((release_cid q p i stat).desc x)
  unfolding release_cid
  release-IsDesc x h = elim (Bool-cases (x == p)) [
    | inl e ↦ rw (==→eq x p e) release-mine
    | inr e ↦ let d = descs x h in rw e (record { width = d.width; each = d.each; low = d.low })
  ]

  release-owned :
      (j : ℕ)
      → total (owns (release_cid q p i stat) j) xs
        ≡ one_if (mask_test (release_cid q p i stat).cidmask j)
  unfolding release_cid
  release-owned j = ground (
    arith,
    total-update (owns q j) (owns (release_cid q p i stat) j) p xs (λ x ne. ground arith)
        (IsRing-Distinct _ _ xs linked.used) on,
    shared.owned j,
    queue_bits j,
    desc_bits j,
    own,
    used,
  )

  pub release-IsShared : IsShared (release_cid q p i stat) xs
  unfolding release_cid
  release-IsShared = record {
    width = length-mask_clear q.cidmask i ∙ shared.width;
    fits = shared.fits;
    bound = shared.bound;
    next = small;
    room = omega (arith, shared.room);
    counted = omega (
      arith,
      shared.counted,
      count-clear q.size i q.cidmask small (omega (arith, shared.width, shared.fits)) used,
    );
    owned = release-owned;
    low = λ j h. ground (arith, queue_bits j, shared.low j);
  }

  -- The id is then free, and all else is as it was; the pending head may be any descriptor in use.
  pub release_cid-IsQueue :
      (pend : ℕ)
      → IsPending pend xs
      → IsQueue (record (release_cid q p i stat) { descpend = pend }) xs ys
  unfolding release_cid
  release_cid-IsQueue pend h = record {
    linked = record {
      used = linked.used;
      free = linked.free;
      apart = linked.apart;
      number = linked.number;
      pending = h;
    };
    shared = record {
      width = release-IsShared.width;
      fits = shared.fits;
      bound = shared.bound;
      next = release-IsShared.next;
      room = release-IsShared.room;
      counted = release-IsShared.counted;
      owned = release-IsShared.owned;
      low = release-IsShared.low;
    };
    descs =
        λ x g. let d = release-IsDesc x g in record { width = d.width; each = d.each; low = d.low };
    spare = λ x g. ground (arith, linked.apart x g, spare x g);
  }
