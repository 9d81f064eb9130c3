-- ===== src/Api/InOrder.antt =====
-- The command ids of a transfer on a new queue, in src/unvme_core.c: 0, 1, 2, …
use sxaurora_unvme.Base.{
  ℕ, zero, suc, ◌+◌, ◌*◌, ◌^◌, ◌≡◌, ◌<◌, ◌≤◌, false, List, [], ◌∷◌, ltb, some, arith, sym, ◌∙◌,
  subst,
}
use sxaurora_unvme.Ring.Shape.{has, Distinct}
use sxaurora_unvme.CidMask.{mask_test}
use sxaurora_unvme.CidMask.Search.{find_cid-here, next_inside}
use sxaurora_unvme.Core.State.{Io}
use sxaurora_unvme.Core.Prps.{Region, Namespace}
use sxaurora_unvme.Core.Invariant.{IsQueue}
use sxaurora_unvme.Core.Owners.{owned-used}
use sxaurora_unvme.Core.Keep.Io.{Submitted}
use sxaurora_unvme.Core.Keep.Chunks.{Chunks, over, chunk}
use sxaurora_unvme.Core.Keep.Answer.{Expected}

-- The ids below `n` are in use, and no others, and `n` is the next.
pub record InOrder (s : Io) (n : ℕ) : Type 0 where
  pub next : s.queue.cid ≡ n
  pub bits : (j : ℕ) → mask_test s.queue.cidmask j ≡ ltb j n

Submitted-InOrder :
    {s t : Io} {ns : Namespace} {p cid addr slba nlb : ℕ} {xs ys : List ℕ} (n : ℕ)
    → Submitted s t ns p cid addr slba nlb xs ys
    → InOrder s n
    → n + 1 < s.queue.size
    → s.queue.size ≤ 2 ^ 16
    → InOrder t (suc n)
Submitted-InOrder {s} {t} {cid = cid} n sub k room small =
    let free : mask_test s.queue.cidmask s.queue.cid ≡ false =
      ground (arith, k.bits s.queue.cid, k.next) in
    let here = find_cid-here s.queue.size s.queue.cid s.queue.cidmask (omega arith) free in
    let e : some s.queue.cid ≡ some cid = sym here ∙ sub.found in
    let first : s.queue.cid ≡ cid = ground (arith, e) in
    let same : cid ≡ n = sym first ∙ k.next in
    record {
      next =
          sub.after
          ∙ next_inside s.queue.size cid small (omega (arith, same, room))
          ∙ omega (arith, same);
      bits = λ j. ground (arith, sub.bits j, k.bits j, same);
    }

-- A transfer that takes `m` commands takes the next `m` ids.
pub Chunks-InOrder :
    {r : Region} {ns : Namespace} {p : ℕ} {xs ys : List ℕ} {s t : Io} {buf slba nlb : ℕ} (n m : ℕ)
    → Chunks r ns p xs ys s t buf slba nlb
    → InOrder s n
    → 0 < ns.maxbpio
    → nlb ≤ m * ns.maxbpio
    → m * ns.maxbpio < nlb + ns.maxbpio
    → n + m < s.queue.size
    → s.queue.size ≤ 2 ^ 16
    → InOrder t (n + m)
Chunks-InOrder n zero (over s buf slba) k pos fit least room small =
    subst (InOrder s) (omega arith) k
Chunks-InOrder n (suc m) (over s buf slba) k pos fit least room small =
    absurd (omega (arith, least))
Chunks-InOrder n zero (chunk s u t buf slba nlb cid live sub rest) k pos fit least room small =
    absurd (live (omega (arith, fit)))
Chunks-InOrder {ns = ns} n (suc m) (chunk s u t buf slba nlb cid live sub rest) k pos fit least room
      small =
    let one = Submitted-InOrder n sub k (omega (arith, room)) small in
    let all =
      Chunks-InOrder {s = u} (suc n) m rest one pos (omega (arith, fit)) (omega (arith, least))
        (omega (arith, sub.size, room)) (omega (arith, sub.size, small)) in
    subst (InOrder t) (omega arith) all

-- The device is about to complete these ids.
pub InOrder-Expected :
    (s : Io) (p m : ℕ) (ys ids : List ℕ)
    → IsQueue s.queue (p ∷ []) ys
    → InOrder s m
    → Distinct ids
    → ((i : ℕ) → has i ids ≡ ltb i m)
    → Expected s p ids
InOrder-Expected s p m ys ids inv k once exact = record {
  once = once;
  used = λ i on. k.bits i ∙ sym (exact i) ∙ on;
  covers = λ i on. exact i ∙ sym (k.bits i) ∙ owned-used inv.shared i p (ground arith) on;
}
