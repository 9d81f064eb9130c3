-- ===== src/Core/Keep/Get.antt =====
-- unvme_desc_get: a descriptor from the free ring, or a new one.
use sxaurora_unvme.Base.{
  ℕ, ◌+◌, ◌/◌, ◌%◌, ◌^◌, ◌≡◌, ◌≢◌, true, false, List, [], ◌∷◌, ◌++◌, length, arith, ◌==◌, refl, ◌∙◌,
  ne→==-false, eq→==, subst, replicate, ap,
}
use sxaurora_unvme.Ring.{list_del}
use sxaurora_unvme.Ring.Shape.{has, erase, IsRing}
use sxaurora_unvme.Ring.Del.{list_del-IsRing, list_del-frame}
use sxaurora_unvme.CidMask.{mask_test-zero}
use sxaurora_unvme.Core.State.{Queue, Descriptor, Io, ok, set_desc}
use sxaurora_unvme.Core.Total.{total-same}
use sxaurora_unvme.Core.Desc.{recycle, zalloc_desc, enlist, take_free, desc_get}
use sxaurora_unvme.Core.Invariant.{owns, IsDesc, IsShared, IsLinked, IsQueue}
use sxaurora_unvme.Core.Keep.Lists.{clear_words-all, empty-IsDesc, enlist-IsQueue}

-- What follows a change of one descriptor that is not in use, and perhaps of the free ring.
IsShared-elsewhere :
    (q : Queue) (xs : List ℕ) (p : ℕ) (d : Descriptor)
    → has p xs ≡ false
    → IsShared q xs
    → IsShared (set_desc q p d) xs
IsShared-elsewhere q xs p d out shared = record {
  width = shared.width;
  fits = shared.fits;
  bound = shared.bound;
  next = shared.next;
  room = shared.room;
  counted = shared.counted;
  owned = λ i.
      total-same (owns q i) (owns (set_desc q p d) i) xs (λ x h. ground arith) ∙ shared.owned i;
  low = shared.low;
}

descs_elsewhere :
    (q : Queue) (xs : List ℕ) (p : ℕ) (d : Descriptor)
    → has p xs ≡ false
    → ((x : ℕ) → has x xs ≡ true → IsDesc q (q.desc x))
    → (x : ℕ) → has x xs ≡ true
    → IsDesc (set_desc q p d) ((set_desc q p d).desc x)
descs_elsewhere q xs p d out descs x h =
    let e : (x == p) ≡ false = ground arith in
    let k = descs x h in rw e (record { width = k.width; each = k.each; low = k.low })

spare_elsewhere :
    (q : Queue) (ys : List ℕ) (p : ℕ) (d : Descriptor)
    → has p ys ≡ false
    → ((x : ℕ) → has x ys ≡ true → length (q.desc x).cidmask ≡ q.masksize / 8)
    → (x : ℕ) → has x ys ≡ true
    → length ((set_desc q p d).desc x).cidmask ≡ q.masksize / 8
spare_elsewhere q ys p d out spare x h = let e : (x == p) ≡ false = ground arith in rw e (spare x h)

erase-first : (y : ℕ) (ys : List ℕ) → erase y (y ∷ ys) ≡ ys
erase-first y ys = ground arith

-- With a free descriptor `y`, the first of its ring.
module _ (q : Queue) (xs : List ℕ) (y : ℕ) (ys : List ℕ) (inv : IsQueue q xs (y ∷ ys)) where
  open inv use {linked, shared, descs, spare}

  first : q.descfree ≡ y
  first = linked.free.0

  out : has y xs ≡ false
  out = linked.apart y (ground arith)

  out' : has y ys ≡ false
  out' = linked.free.2.0

  ring : IsRing q.links y (y ∷ ys)
  ring = subst (λ a. IsRing q.links a (y ∷ ys)) first linked.free

  take-IsLinked : IsLinked (take_free q) xs ys
  unfolding take_free
  take-IsLinked = rw first (record {
    used =
        list_del-frame q.links y y (y ∷ ys) q.desclist xs (ground arith)
          (λ x h. ground (arith, linked.apart x)) ring linked.used;
    free =
        subst (λ zs. IsRing (list_del q.links y y).links (list_del q.links y y).head zs)
          (erase-first y ys) (list_del-IsRing q.links y y (y ∷ ys) ring (ground arith));
    apart = λ x h. linked.apart x (ground arith);
    number = linked.number;
    pending = linked.pending;
  })

  mask_zero : (take_free q).desc y ≡ recycle q.masksize (q.desc y)
  unfolding take_free
  mask_zero = ground (arith, first)

  cleared : ((take_free q).desc y).cidmask ≡ replicate (q.masksize / 8) 0
  unfolding recycle
  cleared =
      let w = spare y (ground arith) in
      ap (λ (d : Descriptor). d.cidmask) mask_zero ∙ rw (← w) (clear_words-all (q.desc y).cidmask)

  no_ids : ((take_free q).desc y).cidcount ≡ 0
  unfolding recycle
  no_ids = ap (λ (d : Descriptor). d.cidcount) mask_zero

  take-IsShared : IsShared (take_free q) xs
  unfolding take_free
  take-IsShared =
      let k =
        IsShared-elsewhere q xs q.descfree (recycle q.masksize (q.desc q.descfree))
          (ground (arith, first, out)) shared in
      record {
        width = shared.width;
        fits = shared.fits;
        bound = shared.bound;
        next = shared.next;
        room = shared.room;
        counted = shared.counted;
        owned = k.owned;
        low = shared.low;
      }

  take-descs : (x : ℕ) → has x xs ≡ true → IsDesc (take_free q) ((take_free q).desc x)
  unfolding take_free
  take-descs x h =
      let k =
        descs_elsewhere q xs q.descfree (recycle q.masksize (q.desc q.descfree))
          (ground (arith, first, out)) descs x h in
      record { width = k.width; each = k.each; low = k.low }

  take-spare :
      (x : ℕ) → has x ys ≡ true → length ((take_free q).desc x).cidmask ≡ (take_free q).masksize / 8
  unfolding take_free
  take-spare =
      spare_elsewhere q ys q.descfree (recycle q.masksize (q.desc q.descfree))
        (ground (arith, first, out')) (λ x h. spare x (ground arith))

  take_masksize : (take_free q).masksize ≡ q.masksize
  unfolding take_free
  take_masksize = refl

  pub get_free-IsQueue : IsQueue (enlist (take_free q) y) (xs ++ y ∷ []) ys
  get_free-IsQueue =
      enlist-IsQueue (take_free q) xs ys y take-IsLinked take-IsShared take-descs take-spare
        (ground (arith, linked.free.1)) out out'
        (empty-IsDesc _ _ (rw take_masksize cleared) no_ids)
        (λ i. rw cleared (mask_test-zero (q.masksize / 8) i))

-- With no free descriptor, and a new one at `p`.
module _ (q : Queue) (xs : List ℕ) (inv : IsQueue q xs []) (p id : ℕ) (ne : p ≢ 0)
    (out : has p xs ≡ false) where
  open inv use {linked, shared, descs, spare}

  new_desc : (set_desc q p (zalloc_desc q.masksize id)).desc p ≡ zalloc_desc q.masksize id
  new_desc = ground arith

  pub get_new-IsQueue :
      IsQueue (enlist (set_desc q p (zalloc_desc q.masksize id)) p) (xs ++ p ∷ []) []
  unfolding zalloc_desc
  get_new-IsQueue =
      let q' = set_desc q p (zalloc_desc q.masksize id) in
      let mask : (q'.desc p).cidmask ≡ replicate (q.masksize / 8) 0 =
        ap (λ (d : Descriptor). d.cidmask) new_desc in
      enlist-IsQueue q' xs [] p
        (record {
          used = linked.used;
          free = linked.free;
          apart = linked.apart;
          number = linked.number;
          pending = linked.pending;
        })
        (IsShared-elsewhere q xs p _ out shared) (descs_elsewhere q xs p _ out descs)
        (λ x h. ground arith) ne out refl
        (empty-IsDesc _ _ mask (ap (λ (d : Descriptor). d.cidcount) new_desc))
        (λ i. rw mask (mask_test-zero (q.masksize / 8) i))

-- The descriptor that unvme_desc_get returns, and the ones that stay free.
abbrev pub chosen : ℕ → List ℕ → ℕ
chosen fresh [] = fresh
chosen fresh (y ∷ ys) = y

abbrev pub rest_of : List ℕ → List ℕ
rest_of [] = []
rest_of (y ∷ ys) = ys

-- What unvme_desc_get leaves: the descriptor is in use, last of its ring, with no ids; the ids of
-- the queue, its size, the polls and the doorbell writes are as they were.
pub record Gotten (s t : Io) (p : ℕ) (xs ys : List ℕ) : Type 0 where
  pub valid : IsQueue t.queue (xs ++ p ∷ []) (rest_of ys)
  pub none_pending : (t.queue.desc p).cidcount ≡ 0
  pub bits : t.queue.cidmask ≡ s.queue.cidmask
  pub count : t.queue.cidcount ≡ s.queue.cidcount
  pub next : t.queue.cid ≡ s.queue.cid
  pub size : t.queue.size ≡ s.queue.size
  pub nvmeq : t.queue.nvmeq ≡ s.queue.nvmeq
  pub polls : t.polls ≡ s.polls
  pub rings : t.rings ≡ s.rings
  pub clock : t.rdtsec ≡ s.rdtsec

-- The state that unvme_desc_get leaves.
got_state : Io → ℕ → List ℕ → Io
got_state s fresh [] =
    let id = (s.last_id + 1) % 2 ^ 32 in
    record s {
      queue = enlist (set_desc s.queue fresh (zalloc_desc s.queue.masksize id)) fresh;
      last_id = id;
    }
got_state s fresh (y ∷ ys) = record s { queue = enlist (take_free s.queue) y }

got_state-Gotten :
    (s : Io) (xs ys : List ℕ) (fresh : ℕ)
    → IsQueue s.queue xs ys
    → fresh ≢ 0
    → has fresh xs ≡ false
    → Gotten s (got_state s fresh ys) (chosen fresh ys) xs ys
unfolding got_state enlist take_free
got_state-Gotten s xs [] fresh inv ne new = record {
  valid = get_new-IsQueue s.queue xs inv fresh _ ne new;
  none_pending =
      unfold zalloc_desc in
      ap (λ (d : Descriptor). d.cidcount) (new_desc s.queue xs inv fresh _ ne new);
  bits = refl;
  count = refl;
  next = refl;
  size = refl;
  nvmeq = refl;
  polls = refl;
  rings = refl;
  clock = refl;
}
got_state-Gotten s xs (y ∷ ys) fresh inv ne new = record {
  valid = get_free-IsQueue s.queue xs y ys inv;
  none_pending = no_ids s.queue xs y ys inv;
  bits = refl;
  count = refl;
  next = refl;
  size = refl;
  nvmeq = refl;
  polls = refl;
  rings = refl;
  clock = refl;
}

desc_get-state :
    (s : Io) (xs ys : List ℕ) (fresh : ℕ)
    → IsQueue s.queue xs ys
    → fresh ≢ 0
    → desc_get fresh s ≡ ok (chosen fresh ys) (got_state s fresh ys)
unfolding desc_get got_state
desc_get-state s xs [] fresh inv ne = rw (eq→== _ _ inv.linked.free, ne→==-false fresh 0 ne)
desc_get-state s xs (y ∷ ys) fresh inv ne =
    let first : s.queue.descfree ≡ y = inv.linked.free.0 in
    let live : (y == 0) ≡ false = ground (arith, inv.linked.free.1) in
    rw (ap (λ (a : ℕ). a == 0) first, live)
      (ap (λ (a : ℕ). ok a (record s { queue = enlist (take_free s.queue) a })) first)

-- unvme_desc_get succeeds where zalloc does, and keeps the invariant.
pub desc_get-Gotten :
    (s : Io) (xs ys : List ℕ) (fresh : ℕ)
    → IsQueue s.queue xs ys
    → fresh ≢ 0
    → has fresh xs ≡ false
    → (t : Io) × (desc_get fresh s ≡ ok (chosen fresh ys) t) × Gotten s t (chosen fresh ys) xs ys
desc_get-Gotten s xs ys fresh inv ne new = (
  got_state s fresh ys,
  desc_get-state s xs ys fresh inv ne,
  got_state-Gotten s xs ys fresh inv ne new,
)
