-- ===== src/Api/Transfer.antt =====
-- A read or write of src/unvme.c, from its first command to the poll of its descriptor.
use sxaurora_unvme.Base.{
  ℕ, ◌+◌, ◌*◌, ◌≡◌, ◌≢◌, ◌<◌, ◌≤◌, true, false, List, ◌∷◌, [], ◌++◌, ℤ, ◌==◌, arith, refl,
  Bool-cases, inl, inr, ne→==-false, ==→eq, ap, sym, ◌∙◌, length,
}
use sxaurora_unvme.Ring.Shape.{has, has-append, erase}
use sxaurora_unvme.CidMask.{Mask, mask_test}
use sxaurora_unvme.CidMask.Count
use sxaurora_unvme.Core.State.{
  Queue, Io, Run, ok, fatal, fault, undefined, endless, with_queue, set_desc, and_then, pure,
  Descriptor,
}
use sxaurora_unvme.Core.Complete.{Status}
use sxaurora_unvme.Core.Prps.{Region, Namespace}
use sxaurora_unvme.Core.Submit.{do_rw, is_zero, do_poll, unvme_timeout}
use sxaurora_unvme.Core.Invariant.{owns, one_if, IsQueue}
use sxaurora_unvme.Core.Total.{total-same}
use sxaurora_unvme.Core.Owners.{not_null}
use sxaurora_unvme.Core.Keep.Get.{chosen, rest_of, desc_get-Gotten}
use sxaurora_unvme.Core.Keep.Chunks.{Chunks, Inside, rw_loop-Chunks}
use sxaurora_unvme.Core.Keep.Drain.{
  Settled, aborting, faulting, hanging, freed, kept, overrun, do_poll-Settled,
}
use sxaurora_unvme.Api.{poll_iod, apoll, aread, awrite, read, write}

-- A descriptor may be given other data, if its ids are as they were.
module _ (q : Queue) (p : ℕ) (d : Descriptor) (mask : d.cidmask ≡ (q.desc p).cidmask)
    (count : d.cidcount ≡ (q.desc p).cidcount) where
  same_ids :
      (x : ℕ)
      → (((set_desc q p d).desc x).cidmask ≡ (q.desc x).cidmask)
        × (((set_desc q p d).desc x).cidcount ≡ (q.desc x).cidcount)
  same_ids x = elim (Bool-cases (x == p)) [
    | inl e ↦ rw (e, ==→eq x p e) (mask, count)
    | inr e ↦ rw e (refl, refl)
  ]

  label-IsQueue : (xs ys : List ℕ) → IsQueue q xs ys → IsQueue (set_desc q p d) xs ys
  label-IsQueue xs ys inv =
      let h = inv.shared in
      record {
        linked = record {
          used = inv.linked.used;
          free = inv.linked.free;
          apart = inv.linked.apart;
          number = inv.linked.number;
          pending = inv.linked.pending;
        };
        shared = record {
          width = h.width;
          fits = h.fits;
          bound = h.bound;
          next = h.next;
          room = h.room;
          counted = h.counted;
          owned = λ i.
              total-same (owns q i) (owns (set_desc q p d) i) xs
                (λ x on. ap (λ (m : Mask). one_if (mask_test m i)) (same_ids x).0)
              ∙ h.owned i;
          low = h.low;
        };
        descs = λ x on.
            let k = inv.descs x on in
            let (m, c) = same_ids x in
            record {
              width = ap length m ∙ k.width;
              each = c ∙ k.each ∙ ap (λ (w : Mask). Count.count q.size w) (sym m);
              low = λ i b. k.low i (ap (λ (w : Mask). mask_test w i) (sym m) ∙ b);
            };
        spare = λ x on. ap length (same_ids x).0 ∙ inv.spare x on;
      }

set_desc_self : (q : Queue) (p : ℕ) (d : Descriptor) → (set_desc q p d).desc p ≡ d
set_desc_self q p d = ground arith

-- The state `u` is `s` with the descriptor `p` made ready for a transfer of the operation `opc`.
pub record Began (s u : Io) (p opc : ℕ) : Type 0 where
  pub nvmeq : u.queue.nvmeq ≡ s.queue.nvmeq
  pub polls : u.polls ≡ s.polls
  pub rings : u.rings ≡ s.rings
  pub clock : u.rdtsec ≡ s.rdtsec
  pub bits : u.queue.cidmask ≡ s.queue.cidmask
  pub next : u.queue.cid ≡ s.queue.cid
  pub size : u.queue.size ≡ s.queue.size
  pub none_pending : (u.queue.desc p).cidcount ≡ 0
  pub sentinel : (u.queue.desc p).sentinel ≡ p
  pub operation : (u.queue.desc p).opc ≡ opc

-- How a read or write ends: if it returns, its descriptor is back on the free ring; or it is in use
-- with ids pending, and an error is returned.
pub data Finished (xs zs : List ℕ) (p : ℕ) : Run ℤ → Type 0 where
  aborts : Finished xs zs p fatal
  faults : Finished xs zs p fault
  outside : Finished xs zs p undefined
  hangs : Finished xs zs p endless
  back :
      (ret : ℤ) (t : Io)
      → IsQueue t.queue (erase p (xs ++ p ∷ [])) (zs ++ p ∷ [])
      → Finished xs zs p (ok ret t)
  pending :
      (ret : ℤ) (t : Io)
      → IsQueue t.queue (xs ++ p ∷ []) zs
      → is_zero ret ≡ false
      → (t.queue.desc p).cidcount ≢ 0
      → Finished xs zs p (ok ret t)

finish :
    (xs zs : List ℕ) (p : ℕ) (r : Run Status)
    → Settled (xs ++ p ∷ []) zs p r
    → Finished xs zs p (and_then r (λ st. pure st.err))
finish xs zs p _ aborting = aborts
finish xs zs p _ faulting = faults
finish xs zs p _ overrun = outside
finish xs zs p _ hanging = hangs
finish xs zs p _ (freed st t v) = back st.err t v
finish xs zs p _ (kept st t v bad live) = pending st.err t v bad live

module _ (r : Region) (ns : Namespace) (s : Io) (xs ys : List ℕ) (fresh qid buf slba nlb k : ℕ)
    (inv : IsQueue s.queue xs ys) (live : fresh ≢ 0) (new : has fresh xs ≡ false)
    (pos : 0 < ns.maxbpio) (here : Inside r ns buf nlb) (fit : nlb ≤ k * ns.maxbpio)
    (room : s.queue.cidcount + k < s.queue.size) where
  abbrev p : ℕ
  p = chosen fresh ys

  on : has p (xs ++ p ∷ []) ≡ true
  on = ground (arith, has-append p xs (p ∷ []))

  -- unvme_do_rw returns the descriptor, with the commands of the whole transfer sent.
  pub do_rw-Chunks :
      (opc : ℕ)
      → (u t : Io) × (do_rw r ns fresh qid opc buf slba nlb s ≡ ok p t)
        × Began s u p opc
        × IsQueue t.queue (xs ++ p ∷ []) (rest_of ys)
        × Chunks r ns p (xs ++ p ∷ []) (rest_of ys) u t buf slba nlb
  unfolding do_rw
  do_rw-Chunks opc =
      let (g, e, got) = desc_get-Gotten s xs ys fresh inv live new in
      let d : Descriptor = record (g.queue.desc p) {
        opc = opc;
        buf = buf;
        qid = qid;
        slba = slba;
        nlb = nlb;
        sentinel = p;
      } in
      let u = with_queue g (set_desc g.queue p d) in
      let v = label-IsQueue g.queue p d refl refl (xs ++ p ∷ []) (rest_of ys) got.valid in
      let (t, e', w, chunks) =
        rw_loop-Chunks (nlb + 1) k r ns u (xs ++ p ∷ []) (rest_of ys) p buf slba nlb v on pos here
          fit (omega (arith, got.count, got.size)) (omega arith) in
      let self = set_desc_self g.queue p d in
      let began : Began s u p opc = record {
        nvmeq = got.nvmeq;
        polls = got.polls;
        rings = got.rings;
        clock = got.clock;
        bits = got.bits;
        next = got.next;
        size = got.size;
        none_pending = ap (λ (x : Descriptor). x.cidcount) self ∙ got.none_pending;
        sentinel = ap (λ (x : Descriptor). x.sentinel) self;
        operation = ap (λ (x : Descriptor). x.opc) self;
      } in
      (u, t, rw (e, e') refl, began, w, chunks)

  rw-Finished :
      (opc : ℕ)
      → Finished xs (rest_of ys) p (and_then (do_rw r ns fresh qid opc buf slba nlb s) poll_iod)
  unfolding apoll
  rw-Finished opc =
      let (u, t, e, began, v, chunks) = do_rw-Chunks opc in
      let some_iod =
        ne→==-false p 0
          (not_null t.queue.links t.queue.desclist (xs ++ p ∷ []) p v.linked.used on) in
      rw (e, some_iod)
        (finish xs (rest_of ys) p (do_poll p unvme_timeout t)
          (do_poll-Settled t (xs ++ p ∷ []) (rest_of ys) p unvme_timeout v on))

  -- unvme_read and unvme_write from a valid queue, of a transfer in the I/O region that takes at
  -- most k commands while the queue has more than k ids left, however the device answers: if they
  -- return, the queue is valid, and the descriptor is back on the free ring, or it has ids
  -- pending and an error is returned. They need not return: the poll can abort, follow a NULL
  -- pending head, poll without end, or go past the masks of the queue, for a completion of an id
  -- that they have no bit for, and then nothing is said of what follows.
  pub transfer-Finished :
      Finished xs (rest_of ys) (chosen fresh ys) (read r ns fresh qid buf slba nlb s)
      × Finished xs (rest_of ys) (chosen fresh ys) (write r ns fresh qid buf slba nlb s)
  unfolding read write aread awrite
  transfer-Finished = (rw-Finished _, rw-Finished _)
