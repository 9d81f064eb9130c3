-- ===== src/Core/Keep/Poll.antt =====
-- unvme_check_completion and the loop of unvme_do_poll, in src/unvme_core.c.
use sxaurora_unvme.Base.{
  ◌*◌, ◌/◌, leb, dec_lt, ==→eq, subst, not, ◌&&◌, ℕ, suc, ◌≤◌, ◌≡◌, ◌⊎◌, inl, inr, true, false,
  List, arith, ◌==◌, refl, Bool-cases, ==-false→ne, Option, none, some, sym, ◌∙◌, negsuc, ap,
}
use sxaurora_unvme.CidMask.{Mask, mask_test}
use sxaurora_unvme.Nvme.Types.{NvmeQueue}
use sxaurora_unvme.Nvme.Queue.{Completion}
use sxaurora_unvme.Core.State.{Queue, Io, Run, ok, fatal, fault, undefined, endless}
use sxaurora_unvme.Core.Complete.{Status, past_masks, complete, poll_loop, check_completion}
use sxaurora_unvme.Core.Invariant.{IsQueue}
use sxaurora_unvme.Core.Keep.Complete.{status_of, complete-Released, complete-fatal}

-- How a wait for a completion ends, from `s`. It aborts, on a completion of an id that is not in use; it
-- follows the pending head, which is NULL; it goes past the masks, on a completion of an id that has no
-- bit in them; or it does not end. Or it times out, and the ids are as they were; or it has seen a
-- completion and released its id.
pub data Ended (s : Io) (xs ys : List ℕ) : Run Status → Type 0 where
  aborted : (c : Completion) → mask_test s.queue.cidmask c.cid ≡ false → Ended s xs ys fatal
  faulted : s.queue.descpend ≡ 0 → Ended s xs ys fault
  past : (c : Completion) → 64 * (s.queue.masksize / 8) ≤ c.cid → Ended s xs ys undefined
  stuck : Ended s xs ys endless
  timed_out :
      (t : Io)
      → IsQueue t.queue xs ys
      → t.queue.cidcount ≡ s.queue.cidcount
      → Ended s xs ys (ok (record { err = negsuc 0; cs = none }) t)
  completed :
      (c : Completion) (t : Io)
      → IsQueue t.queue xs ys
      → mask_test s.queue.cidmask c.cid ≡ true
      → suc t.queue.cidcount ≡ s.queue.cidcount
      → ((j : ℕ) → mask_test t.queue.cidmask j ≡ (not (c.cid == j) && mask_test s.queue.cidmask j))
      → Ended s xs ys (ok (status_of c) t)

complete-Ended :
    (s : Io) (xs ys : List ℕ)
    → IsQueue s.queue xs ys
    → (c : Completion) → Ended s xs ys (complete c s)
complete-Ended s xs ys inv c = elim (Bool-cases (mask_test s.queue.cidmask c.cid)) [
  | inl used ↦
      let (t, e, r) = complete-Released s xs ys inv c used in
      rw e (completed c t r.valid used r.fewer r.bits)
  | inr free ↦ elim (Bool-cases (s.queue.descpend == 0)) [
    | inl quiet ↦ unfold complete in rw quiet (faulted (==→eq _ 0 quiet))
    | inr live ↦ elim (dec_lt c.cid (64 * (s.queue.masksize / 8))) [
      | yes low ↦ rw (complete-fatal s xs ys inv c free low (==-false→ne _ _ live)) (aborted c free)
      | no high ↦
          let out : leb (s.queue.masksize / 8) (c.cid / 64) ≡ true = ground (arith, high) in
          unfold complete past_masks in rw (live, out) (past c (omega (arith, high)))
    ]
  ]
]

-- The invariant does not speak of the NVMe queue.
pub nvmeq-IsQueue :
    (q : Queue) (xs ys : List ℕ) (n : NvmeQueue)
    → IsQueue q xs ys
    → IsQueue (record q { nvmeq = n }) xs ys
nvmeq-IsQueue q xs ys n inv =
    let k = inv.linked in
    let h = inv.shared in
    record {
      linked = record {
        used = k.used;
        free = k.free;
        apart = k.apart;
        number = k.number;
        pending = k.pending;
      };
      shared = record {
        width = h.width;
        fits = h.fits;
        bound = h.bound;
        next = h.next;
        room = h.room;
        counted = h.counted;
        owned = h.owned;
        low = h.low;
      };
      descs =
          λ x on. let d = inv.descs x on in record { width = d.width; each = d.each; low = d.low };
      spare = inv.spare;
    }

-- Between calls the ids are those of the state the wait began in, whatever the NVMe queue has become.
from_here :
    (s s' : Io) (xs ys : List ℕ) (r : Run Status)
    → s'.queue.cidmask ≡ s.queue.cidmask
    → s'.queue.cidcount ≡ s.queue.cidcount
    → s'.queue.descpend ≡ s.queue.descpend
    → s'.queue.masksize ≡ s.queue.masksize
    → Ended s' xs ys r
    → Ended s xs ys r
from_here s s' xs ys _ m n p w (aborted c free) =
    aborted c (ap (λ (k : Mask). mask_test k c.cid) (sym m) ∙ free)
from_here s s' xs ys _ m n p w (faulted e) = faulted (sym p ∙ e)
from_here s s' xs ys _ m n p w (past c high) =
    past c (subst (λ (k : ℕ). 64 * (k / 8) ≤ c.cid) w high)
from_here s s' xs ys _ m n p w stuck = stuck
from_here s s' xs ys _ m n p w (timed_out t v e) = timed_out t v (e ∙ n)
from_here s s' xs ys _ m n p w (completed c t v u e b) =
    completed c t v (ap (λ (k : Mask). mask_test k c.cid) (sym m) ∙ u) (e ∙ n)
      (λ j. b j ∙ ap (λ (k : Mask). not (c.cid == j) && mask_test k j) m)

option-cases : {A : Type 0} → (o : Option A) → (o ≡ none) ⊎ ((a : A) × (o ≡ some a))
option-cases none = inl refl
option-cases (some a) = inr (a, refl)

pub check_completion-Ended :
    (s : Io) (xs ys : List ℕ) (timeout : ℕ)
    → IsQueue s.queue xs ys
    → Ended s xs ys (check_completion timeout s)
unfolding check_completion
check_completion-Ended s xs ys timeout inv =
    elim (option-cases (poll_loop s.polls s.queue.nvmeq timeout s.rdtsec 0 s.rings)) [
      | inl e ↦ rw (check_completion, e) stuck
      | inr (p, e) ↦
          let s' : Io = record s {
            queue = record s.queue { nvmeq = p.nvmeq };
            polls = p.polls;
            rings = p.rings;
          } in
          let inv' = nvmeq-IsQueue s.queue xs ys p.nvmeq inv in
          elim (option-cases p.found) [
            | inl f ↦ rw (check_completion, e, f) (timed_out s' inv' refl)
            | inr (c, f) ↦
                rw (check_completion, e, f)
                  (from_here s s' xs ys _ refl refl refl refl (complete-Ended s' xs ys inv' c))
          ]
    ]
