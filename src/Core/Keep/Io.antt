-- ===== src/Core/Keep/Io.antt =====
-- unvme_submit_io, in src/unvme_core.c: one chunk of an I/O.
use sxaurora_unvme.Base.{
  ℕ, suc, ◌+◌, ◌-◌, ◌*◌, ◌%◌, ◌^◌, ◌<◌, ◌≡◌, ◌≢◌, true, false, List, [], ◌∷◌, ◌++◌, arith, ◌==◌,
  ◌||◌, refl, if◌then◌else◌, ne→==-false, some, ap,
}
use sxaurora_unvme.Ring.Shape.{has}
use sxaurora_unvme.CidMask.{mask_test, next_cid, find_cid}
use sxaurora_unvme.Nvme.Types.{SqEntry, Ring, rw_cmd, NvmeQueue}
use sxaurora_unvme.Nvme.Queue.{nvme_submit_cmd}
use sxaurora_unvme.Nvme.Command.{nvme_cmd_rw, put_entry}
use sxaurora_unvme.Core.State.{Queue, Io, ok}
use sxaurora_unvme.Core.Prps.{Region, Namespace, resolve_addr, map_prps, prps_at, Prps}
use sxaurora_unvme.Core.Submit.{submit_io}
use sxaurora_unvme.Core.Invariant.{IsQueue}
use sxaurora_unvme.Core.Keep.Poll.{nvmeq-IsQueue}
use sxaurora_unvme.Core.Keep.Reserve.{Reserved, get_cid-Reserved}

-- The read or write command of a chunk.
abbrev pub io_entry : (opc cid nsid slba nlb prp1 prp2 : ℕ) → SqEntry
io_entry opc cid nsid slba nlb prp1 prp2 = record {
  common = record {
    opc = opc % 2 ^ 8;
    cid = cid % 2 ^ 16;
    nsid = nsid % 2 ^ 32;
    prp1 = prp1;
    prp2 = prp2;
  };
  body = rw_cmd slba ((nlb + 2 ^ 16 - 1) % 2 ^ 16);
}

-- The submission queue after one command.
pub record Pushed (m n : NvmeQueue) (e : SqEntry) : Type 0 where
  pub entry : n.sq m.sq_tail ≡ e
  pub others : (i : ℕ) → i ≢ m.sq_tail → n.sq i ≡ m.sq i
  pub tail : n.sq_tail ≡ (if m.sq_tail + 1 == m.size then 0 else m.sq_tail + 1)

-- The doorbell write for the new tail.
abbrev bell : NvmeQueue → Ring
bell n = record { doorbell = n.sq_doorbell; val = n.sq_tail }

-- What a submission leaves as it was: the completion queue, the clock and what is to come, and the
-- address by which the descriptor is known.
pub record Unseen (s t : Io) (p : ℕ) : Type 0 where
  pub size : t.queue.nvmeq.size ≡ s.queue.nvmeq.size
  pub head : t.queue.nvmeq.cq_head ≡ s.queue.nvmeq.cq_head
  pub phase : t.queue.nvmeq.cq_phase ≡ s.queue.nvmeq.cq_phase
  pub polls : t.polls ≡ s.polls
  pub clock : t.rdtsec ≡ s.rdtsec
  pub sentinel : (t.queue.desc p).sentinel ≡ (s.queue.desc p).sentinel

-- The state `t` is `s` with one command sent, under the id `cid`, for the descriptor `p`.
pub record Submitted (s t : Io) (ns : Namespace) (p cid addr slba nlb : ℕ) (xs ys : List ℕ)
    : Type 0 where
  pub valid : IsQueue t.queue xs ys
  pub free : mask_test s.queue.cidmask cid ≡ false
  pub used : mask_test t.queue.cidmask cid ≡ true
  pub bits : (j : ℕ) → mask_test t.queue.cidmask j ≡ ((cid == j) || mask_test s.queue.cidmask j)
  pub found : find_cid s.queue.size s.queue.size s.queue.cidmask s.queue.cid ≡ some cid
  pub after : t.queue.cid ≡ next_cid s.queue.size cid
  pub size : t.queue.size ≡ s.queue.size
  pub total : t.queue.cidcount ≡ suc s.queue.cidcount
  pub more : (t.queue.desc p).cidcount ≡ suc (s.queue.desc p).cidcount
  pub sent :
      let m = prps_at ns s.queue cid addr (nlb * 2 ^ ns.blockshift % 2 ^ 64) in
      Pushed s.queue.nvmeq t.queue.nvmeq
        (io_entry (s.queue.desc p).opc cid ns.id slba nlb m.prp1 m.prp2)
  pub list : t.queue.prpmem ≡ (prps_at ns s.queue cid addr (nlb * 2 ^ ns.blockshift % 2 ^ 64)).mem
  pub unseen : Unseen s t p
  pub bells : t.rings ≡ s.rings ++ bell t.queue.nvmeq ∷ []

-- The invariant does not speak of the PRP pages.
prpmem-IsQueue :
    (q : Queue) (xs ys : List ℕ) (m : ℕ → ℕ)
    → IsQueue q xs ys
    → IsQueue (record q { prpmem = m }) xs ys
prpmem-IsQueue q xs ys m inv =
    let k = inv.linked in
    let h = inv.shared in
    record {
      linked = record {
        used = k.used;
        free = k.free;
        apart = k.apart;
        number = k.number;
        pending = k.pending;
      };
      shared = record {
        width = h.width;
        fits = h.fits;
        bound = h.bound;
        next = h.next;
        room = h.room;
        counted = h.counted;
        owned = h.owned;
        low = h.low;
      };
      descs =
          λ x on. let d = inv.descs x on in record { width = d.width; each = d.each; low = d.low };
      spare = inv.spare;
    }

cmd_rw-Pushed :
    (m : NvmeQueue) (opc cid nsid slba nlb prp1 prp2 : ℕ)
    → Pushed m
        (nvme_cmd_rw m opc cid nsid slba nlb prp1 prp2).queue
        (io_entry opc cid nsid slba nlb prp1 prp2)
unfolding nvme_cmd_rw nvme_submit_cmd put_entry
cmd_rw-Pushed m opc cid nsid slba nlb prp1 prp2 = record {
  entry = ground arith;
  others = λ i ne. ground arith;
  tail = refl;
}

module _ (r : Region) (ns : Namespace) (s : Io) (xs ys : List ℕ) (p buf addr slba nlb : ℕ)
    (inv : IsQueue s.queue xs ys) (on : has p xs ≡ true)
    (room : s.queue.cidcount + 1 < s.queue.size) (here : resolve_addr r buf ≡ some addr)
    (mapped : addr ≢ 2 ^ 64 - 1) where
  -- The state after unvme_map_prps and nvme_cmd_rw.
  after_send : Io → ℕ → Io
  after_send u cid =
      let m = prps_at ns u.queue cid addr (nlb * 2 ^ ns.blockshift % 2 ^ 64) in
      let q = record u.queue { prpmem = m.mem } in
      let t = nvme_cmd_rw q.nvmeq (q.desc p).opc cid ns.id slba nlb m.prp1 m.prp2 in
      record u { queue = record q { nvmeq = t.queue }; rings = u.rings ++ t.rings }

  sent-Unseen : (u : Io) (cid : ℕ) → Reserved s u p cid xs ys → Unseen s (after_send u cid) p
  unfolding after_send nvme_cmd_rw nvme_submit_cmd put_entry
  sent-Unseen u cid k = record {
    size = ap (λ (n : NvmeQueue). n.size) k.nvmeq;
    head = ap (λ (n : NvmeQueue). n.cq_head) k.nvmeq;
    phase = ap (λ (n : NvmeQueue). n.cq_phase) k.nvmeq;
    polls = k.polls;
    clock = k.clock;
    sentinel = k.sentinel;
  }

  after_send-Submitted :
      (u : Io) (cid : ℕ)
      → Reserved s u p cid xs ys
      → Submitted s (after_send u cid) ns p cid addr slba nlb xs ys
  unfolding after_send
  after_send-Submitted u cid k = record {
    valid = nvmeq-IsQueue _ xs ys _ (prpmem-IsQueue u.queue xs ys _ k.valid);
    free = k.free;
    used = ground (arith, k.bits cid);
    bits = k.bits;
    found = k.found;
    after = k.after;
    size = k.size;
    total = k.more;
    more = k.counted;
    sent =
        rw (← k.prps ns addr (nlb * 2 ^ ns.blockshift % 2 ^ 64), ← k.opc, ← k.nvmeq)
          (cmd_rw-Pushed u.queue.nvmeq _ cid ns.id slba nlb _ _);
    list = ap (λ (m : Prps). m.mem) (k.prps ns addr _);
    unseen = sent-Unseen u cid k;
    bells = unfold nvme_cmd_rw nvme_submit_cmd put_entry in rw k.rings refl;
  }

  -- unvme_submit_io, while two or more ids are left and the buffer is in the I/O region, takes a free
  -- id for the descriptor, writes the command at the tail of the submission queue and nothing
  -- else there, rings the doorbell once with the new tail, and keeps the invariant.
  pub submit_io-Submitted :
      (cid : ℕ) × (t : Io) × (submit_io r ns p buf slba nlb s ≡ ok (some cid) t)
      × Submitted s t ns p cid addr slba nlb xs ys
  unfolding submit_io map_prps
  submit_io-Submitted =
      let (cid, u, e, k) = get_cid-Reserved s xs ys p inv on room in
      (
        cid,
        after_send u cid,
        rw (submit_io, e, map_prps, here, ne→==-false addr (2 ^ 64 - 1) mapped)
            (unfold after_send nvme_cmd_rw nvme_submit_cmd in refl),
        after_send-Submitted u cid k,
      )
