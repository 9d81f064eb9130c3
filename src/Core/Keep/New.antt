-- ===== src/Core/Keep/New.antt =====
-- unvme_queue_init, in src/unvme_core.c: a new queue is valid.
use sxaurora_unvme.Base.{
  ℕ, ◌/◌, ◌^◌, ◌<◌, ◌≤◌, ◌≡◌, ◌≢◌, false, List, [], ◌∷◌, ◌++◌, arith, refl, length-replicate, sym,
  ap, subst, ◌∙◌,
}
use sxaurora_unvme.Ring.Shape.{has}
use sxaurora_unvme.CidMask.{mask_test, mask_test-zero}
use sxaurora_unvme.CidMask.Count.{count-zero}
use sxaurora_unvme.Nvme.Types.{NvmeQueue}
use sxaurora_unvme.Core.State.{Queue, Io, ok, with_queue}
use sxaurora_unvme.Core.Total.{total}
use sxaurora_unvme.Core.Init.{mask_bytes, blank_queue, alloc_descs, free_all, queue_init}
use sxaurora_unvme.Core.Invariant.{IsQueue, one_if}
use sxaurora_unvme.Core.Keep.Get.{desc_get-Gotten}

-- Addresses that zalloc may return, one after the other, while `xs` are in use: not NULL, and none of
-- those in use.
abbrev pub Fresh : List ℕ → List ℕ → Type 0
Fresh xs [] = Unit {0}
Fresh xs (p ∷ ps) = (p ≢ 0) × (has p xs ≡ false) × Fresh (xs ++ p ∷ []) ps

snoc-append : (xs : List ℕ) (p : ℕ) (ps : List ℕ) → (xs ++ p ∷ []) ++ ps ≡ xs ++ p ∷ ps
snoc-append [] p ps = refl
snoc-append (x ∷ xs) p ps = ap (λ zs. x ∷ zs) (snoc-append xs p ps)

append-nil : (xs : List ℕ) → xs ++ [] ≡ xs
append-nil [] = refl
append-nil (x ∷ xs) = ap (λ zs. x ∷ zs) (append-nil xs)

alloc_descs-IsQueue :
    (fresh xs : List ℕ) (s : Io)
    → IsQueue s.queue xs []
    → Fresh xs fresh
    → (t : Io) × (alloc_descs fresh s ≡ ok tt t)
      × IsQueue t.queue (xs ++ fresh) []
      × (t.queue.cidmask ≡ s.queue.cidmask)
      × (t.queue.size ≡ s.queue.size)
      × (t.queue.cid ≡ s.queue.cid)
unfolding alloc_descs
alloc_descs-IsQueue [] xs s inv new =
    (s, refl, subst (λ zs. IsQueue s.queue zs []) (sym (append-nil xs)) inv, refl, refl, refl)
alloc_descs-IsQueue (p ∷ ps) xs s inv new =
    let (u, e, k) = desc_get-Gotten s xs [] p inv new.0 new.1 in
    let (t, e', v, same, size, next) = alloc_descs-IsQueue ps (xs ++ p ∷ []) u k.valid new.2 in
    (
      t,
      rw (alloc_descs, e) e',
      subst (λ zs. IsQueue t.queue zs []) (snoc-append xs p ps) v,
      same ∙ k.bits,
      size ∙ k.size,
      next ∙ k.next,
    )

free_all-IsQueue :
    (q : Queue) (xs : List ℕ)
    → IsQueue q xs []
    → ((i : ℕ) → mask_test q.cidmask i ≡ false)
    → IsQueue (free_all q) [] xs
unfolding free_all total
free_all-IsQueue q xs inv clear =
    let h = inv.shared in
    record {
      linked = record {
        used = refl;
        free = inv.linked.used;
        apart = λ x on. refl;
        number = refl;
        pending = tt;
      };
      shared = record {
        width = h.width;
        fits = h.fits;
        bound = h.bound;
        next = h.next;
        room = h.room;
        counted = h.counted;
        owned = λ i. ap one_if (sym (clear i));
        low = h.low;
      };
      descs = λ x on. ground arith;
      spare = λ x on. (inv.descs x on).width;
    }

module _ (nvmeq : NvmeQueue) (prpaddr : ℕ) (prpmem : ℕ → ℕ) (qsize : ℕ) (big : 1 < qsize)
    (small : qsize ≤ 2 ^ 16) where
  blank-IsQueue : IsQueue (blank_queue nvmeq prpaddr prpmem qsize) [] []
  unfolding blank_queue mask_bytes total
  blank-IsQueue = record {
    linked = record { used = refl; free = refl; apart = λ x h. refl; number = refl; pending = tt };
    shared = record {
      width = length-replicate _ _;
      fits = omega arith;
      bound = (big, small);
      next = omega arith;
      room = omega arith;
      counted = sym (count-zero qsize _ (mask_test-zero _));
      owned = λ i. ap one_if (sym (mask_test-zero _ i));
      low = λ i h. absurd (ground (arith, mask_test-zero (mask_bytes qsize / 8) i));
    };
    descs = λ x h. ground arith;
    spare = λ x h. ground arith;
  }

  pub queue_init-IsQueue :
      (fresh : List ℕ) (s : Io)
      → Fresh [] fresh
      → (t : Io) × (queue_init fresh nvmeq prpaddr prpmem qsize s ≡ ok tt t)
        × IsQueue t.queue [] fresh
        × ((i : ℕ) → mask_test t.queue.cidmask i ≡ false)
        × (t.queue.size ≡ qsize)
        × (t.queue.cid ≡ 0)
  unfolding queue_init
  queue_init-IsQueue fresh s new =
      let s' = with_queue s (blank_queue nvmeq prpaddr prpmem qsize) in
      let (t, e, v, same, size, next) = alloc_descs-IsQueue fresh [] s' blank-IsQueue new in
      let clear : (i : ℕ) → mask_test t.queue.cidmask i ≡ false =
        λ i. ap (λ m. mask_test m i) same ∙ (unfold blank_queue in mask_test-zero _ i) in
      (
        with_queue t (free_all t.queue),
        rw (queue_init, e) refl,
        free_all-IsQueue t.queue fresh v clear,
        unfold free_all in clear,
        unfold free_all blank_queue in size,
        unfold free_all blank_queue in next,
      )
