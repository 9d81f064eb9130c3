-- ===== src/Core/Keep/Put.antt =====
-- unvme_desc_put: a descriptor with no ids goes back to the free ring.
use sxaurora_unvme.Base.{
  ℕ, suc, ◌≡◌, ◌≢◌, true, false, List, [], ◌∷◌, ◌++◌, if◌then◌else◌, length, arith, ◌==◌, refl,
}
use sxaurora_unvme.Ring.{list_del, Links}
use sxaurora_unvme.Ring.Shape.{has, erase, IsRing, has-append}
use sxaurora_unvme.Ring.Add.{list_add-IsRing, list_add-frame}
use sxaurora_unvme.Ring.Del.{
  list_del-IsRing, list_del-frame, has-erase, has-erase-le, not-has-erase, length-erase,
}
use sxaurora_unvme.Ring.Rotate.{rotate, Rotated}
use sxaurora_unvme.CidMask.{mask_test}
use sxaurora_unvme.CidMask.Count.{count-pos}
use sxaurora_unvme.Core.State.{Queue, Io, ok, with_queue}
use sxaurora_unvme.Core.Total.{total-erase}
use sxaurora_unvme.Core.Desc.{put_queue, desc_put}
use sxaurora_unvme.Core.Invariant.{owns, IsLinked, IsQueue, IsPending}
use sxaurora_unvme.Core.Owners.{IsRing-Distinct, not_null, pending-has, has-IsPending}

-- The pending head after `p` leaves the ring.
pend_after : Links → (p pend : ℕ) → ℕ
pend_after l p pend = if p == pend then (if p == l.next p then 0 else l.next p) else pend

empty-of-length : (xs : List ℕ) → length xs ≡ 0 → xs ≡ []
empty-of-length [] h = refl
empty-of-length (x ∷ xs) h = absurd (omega arith)

has-one : (a p : ℕ) (xs : List ℕ) → length xs ≡ 1 → has p xs ≡ true → has a xs ≡ true → a ≡ p
has-one a p [] e h k = ground arith
has-one a p (x ∷ []) e h k = ground arith
has-one a p (x ∷ y ∷ xs) e h k = absurd (omega arith)

pend_after-IsPending :
    (l : Links) (head : ℕ) (xs zs : List ℕ) (p pend : ℕ)
    → IsRing l head xs
    → has p xs ≡ true
    → IsPending pend xs
    → Rotated l p xs zs
    → IsPending (pend_after l p pend) (erase p xs)
unfolding pend_after
pend_after-IsPending l head xs [] p pend ring on h r =
    let gone : erase p xs ≡ [] =
      empty-of-length (erase p xs) (omega (arith, length-erase p xs on, r.size)) in
    let only = has-one pend p xs r.size on (pending-has pend xs p h on) in
    rw gone (ground (arith, r.chain.0))
pend_after-IsPending l head xs (z ∷ zs) p pend ring on h r = has-IsPending _ (erase p xs) (
    ground (
      arith,
      r.chain.0,
      r.once,
      has-erase (l.next p) p xs,
      has-erase pend p xs,
      IsRing-Distinct l head xs ring,
      r.same z,
      pending-has pend xs p h on,
    ))

module _ (q : Queue) (xs ys : List ℕ) (inv : IsQueue q xs ys) (p : ℕ) (on : has p xs ≡ true)
    (idle : (q.desc p).cidcount ≡ 0) where
  open inv use {linked, shared, descs, spare}

  no_bits : (i : ℕ) → mask_test (q.desc p).cidmask i ≡ false
  no_bits i =
      let d = descs p on in ground (arith, d.low i, d.each, count-pos q.size i (q.desc p).cidmask)

  out : has p ys ≡ false
  out = ground (arith, linked.apart p)

  gone : has p (erase p xs) ≡ false
  gone = not-has-erase p xs (IsRing-Distinct _ _ xs linked.used)

  not_zero : p ≢ 0
  not_zero = not_null q.links q.desclist xs p linked.used on

  put-IsLinked : IsLinked (put_queue q p) (erase p xs) (ys ++ p ∷ [])
  unfolding put_queue
  put-IsLinked =
      let l = list_del q.links q.desclist p in
      let used = list_del-IsRing q.links q.desclist p xs linked.used on in
      let free =
        list_del-frame q.links q.desclist p xs q.descfree ys on linked.apart linked.used
          linked.free in
      record {
        used =
            list_add-frame l.links q.descfree p ys l.head (erase p xs) gone
              (λ x h. ground (arith, has-erase-le x p xs, linked.apart x)) free used;
        free = list_add-IsRing l.links q.descfree p ys free not_zero out;
        apart = λ x h.
            ground (arith, has-append x ys (p ∷ []), linked.apart x, has-erase-le x p xs, gone);
        number = omega (arith, linked.number, length-erase p xs on);
        pending =
            let (zs, r) = rotate q.links q.desclist xs p linked.used on in
            unfold pend_after in
            pend_after-IsPending q.links q.desclist xs zs p q.descpend linked.used on linked.pending
              r;
      }

  -- The descriptor is then free, last of its ring, and all else is as it was.
  pub put_queue-IsQueue : IsQueue (put_queue q p) (erase p xs) (ys ++ p ∷ [])
  unfolding put_queue
  put_queue-IsQueue = record {
    linked = put-IsLinked;
    shared = record {
      width = shared.width;
      fits = shared.fits;
      bound = shared.bound;
      next = shared.next;
      room = shared.room;
      counted = shared.counted;
      owned = λ i. ground (arith, total-erase (owns q i) p xs on, shared.owned i, no_bits i);
      low = shared.low;
    };
    descs = λ x h.
        let d = descs x (has-erase-le x p xs h) in
        record { width = d.width; each = d.each; low = d.low };
    spare = λ x h. ground (arith, has-append x ys (p ∷ []), spare x, (descs p on).width);
  }

-- The state `t` is `s` with the descriptor `p` moved to the free ring.
pub record Returned (s t : Io) (p : ℕ) (xs ys : List ℕ) : Type 0 where
  pub valid : IsQueue t.queue (erase p xs) (ys ++ p ∷ [])
  pub bits : t.queue.cidmask ≡ s.queue.cidmask
  pub count : t.queue.cidcount ≡ s.queue.cidcount
  pub fewer : suc t.queue.desccount ≡ s.queue.desccount
  pub nvmeq : t.queue.nvmeq ≡ s.queue.nvmeq
  pub polls : t.polls ≡ s.polls
  pub rings : t.rings ≡ s.rings

-- unvme_desc_put of a descriptor in use that has no id pending: it moves to the end of the free
-- ring, the pending head stays a descriptor in use, and the invariant is kept.
pub desc_put-Returned :
    (s : Io) (xs ys : List ℕ) (p : ℕ)
    → IsQueue s.queue xs ys
    → has p xs ≡ true
    → (s.queue.desc p).cidcount ≡ 0
    → (t : Io) × (desc_put p s ≡ ok tt t) × Returned s t p xs ys
unfolding desc_put
desc_put-Returned s xs ys p inv on idle = (
  with_queue s (put_queue s.queue p),
  refl,
  record {
    valid = put_queue-IsQueue s.queue xs ys inv p on idle;
    bits = unfold put_queue in refl;
    count = unfold put_queue in refl;
    fewer = unfold put_queue in omega (arith, inv.linked.number, length-erase p xs on);
    nvmeq = unfold put_queue in refl;
    polls = refl;
    rings = refl;
  },
)
