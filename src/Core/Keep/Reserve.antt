-- ===== src/Core/Keep/Reserve.antt =====
-- The ids of unvme_get_cid, in src/unvme_core.c.
use sxaurora_unvme.Base.{
  ℕ, suc, ◌+◌, ◌<◌, ◌≡◌, true, false, ◌||◌, List, arith, ◌==◌, refl, some, ne→==-false,
}
use sxaurora_unvme.Ring.Shape.{has}
use sxaurora_unvme.CidMask.{mask_test, next_cid, find_cid}
use sxaurora_unvme.CidMask.Search.{find_cid-total}
use sxaurora_unvme.Core.State.{Io, ok, with_queue}
use sxaurora_unvme.Core.Prps.{Namespace, prps_at}
use sxaurora_unvme.Core.Submit.{take_cid, reserve, make_room, get_cid}
use sxaurora_unvme.Core.Invariant.{IsQueue}
use sxaurora_unvme.Core.Keep.Take.{take_cid-IsQueue, queue_bits}

-- The state `t` is `s` with the id `cid`, which was free, in use by the descriptor `p`.
pub record Reserved (s t : Io) (p cid : ℕ) (xs ys : List ℕ) : Type 0 where
  pub valid : IsQueue t.queue xs ys
  pub small : cid < s.queue.size
  pub found : find_cid s.queue.size s.queue.size s.queue.cidmask s.queue.cid ≡ some cid
  pub after : t.queue.cid ≡ next_cid s.queue.size cid
  pub free : mask_test s.queue.cidmask cid ≡ false
  pub bits : (j : ℕ) → mask_test t.queue.cidmask j ≡ ((cid == j) || mask_test s.queue.cidmask j)
  pub more : t.queue.cidcount ≡ suc s.queue.cidcount
  pub counted : (t.queue.desc p).cidcount ≡ suc (s.queue.desc p).cidcount
  pub nvmeq : t.queue.nvmeq ≡ s.queue.nvmeq
  pub polls : t.polls ≡ s.polls
  pub rings : t.rings ≡ s.rings
  pub clock : t.rdtsec ≡ s.rdtsec
  pub size : t.queue.size ≡ s.queue.size
  pub opc : (t.queue.desc p).opc ≡ (s.queue.desc p).opc
  pub sentinel : (t.queue.desc p).sentinel ≡ (s.queue.desc p).sentinel
  pub prps :
      (ns : Namespace) (addr bufsz : ℕ)
      → prps_at ns t.queue cid addr bufsz ≡ prps_at ns s.queue cid addr bufsz

module _ (s : Io) (xs ys : List ℕ) (p : ℕ) (inv : IsQueue s.queue xs ys) (on : has p xs ≡ true)
    (room : s.queue.cidcount + 1 < s.queue.size) where
  take-Reserved :
      (cid : ℕ)
      → cid < s.queue.size
      → mask_test s.queue.cidmask cid ≡ false
      → find_cid s.queue.size s.queue.size s.queue.cidmask s.queue.cid ≡ some cid
      → Reserved s (with_queue s (take_cid s.queue p cid)) p cid xs ys
  unfolding take_cid
  take-Reserved cid small free found = record {
    found = found;
    after = refl;
    valid = take_cid-IsQueue inv p cid on small free room;
    small = small;
    free = free;
    bits = queue_bits inv p cid on small free room;
    more = omega arith;
    counted = ground arith;
    nvmeq = refl;
    polls = refl;
    rings = refl;
    clock = refl;
    size = refl;
    opc = ground arith;
    sentinel = ground arith;
    prps = λ ns addr bufsz. unfold prps_at in refl;
  }

  pub reserve-Reserved : (cid : ℕ) × (t : Io) × (reserve p s ≡ ok cid t) × Reserved s t p cid xs ys
  unfolding reserve
  reserve-Reserved =
      let k = inv.shared in
      let (cid, found, small, free) =
        find_cid-total s.queue.size s.queue.cid s.queue.cidmask k.bound.1 k.next
          (omega (arith, k.counted)) in
      (
        cid,
        with_queue s (take_cid s.queue p cid),
        rw (reserve, found) refl,
        take-Reserved cid small free found,
      )

  -- From a valid queue, while two or more ids are left, unvme_get_cid returns without waiting. The id that it returns is
  -- in range and was free; it is then in use by the descriptor, no other id has changed, and the
  -- invariant is kept.
  pub get_cid-Reserved : (cid : ℕ) × (t : Io) × (get_cid p s ≡ ok cid t) × Reserved s t p cid xs ys
  unfolding get_cid make_room
  get_cid-Reserved =
      rw (ne→==-false (s.queue.cidcount + 1) s.queue.size (omega arith)) reserve-Reserved
