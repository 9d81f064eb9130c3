-- ===== src/Api/Answer.antt =====
-- A read or write of src/unvme.c over a device that answers.
use sxaurora_unvme.Base.{
  ℕ, ◌+◌, ◌*◌, ◌≡◌, ◌≢◌, ◌<◌, ◌≤◌, true, false, List, ◌∷◌, [], ◌++◌, pos, arith, refl, ne→==-false,
  sym, subst, ap, ◌∙◌,
}
use sxaurora_unvme.Ring.Shape.{has, has-append, erase}
use sxaurora_unvme.Nvme.Types.{CqEntry, NvmeQueue}
use sxaurora_unvme.Nvme.Fifo.{At}
use sxaurora_unvme.Core.State.{Io, Run, ok, and_then}
use sxaurora_unvme.Core.Complete.{Status}
use sxaurora_unvme.Core.Prps.{Region, Namespace}
use sxaurora_unvme.Core.Submit.{do_rw, do_poll, unvme_timeout}
use sxaurora_unvme.Core.Invariant.{IsQueue}
use sxaurora_unvme.Core.Owners.{not_null}
use sxaurora_unvme.Core.Keep.Get.{chosen, rest_of}
use sxaurora_unvme.Core.Keep.Io.{Unseen}
use sxaurora_unvme.Core.Keep.Chunks.{Chunks, over, chunk, Inside}
use sxaurora_unvme.Core.Keep.Serve.{Serving}
use sxaurora_unvme.Core.Keep.Answer.{Expected, do_poll-Answered}
use sxaurora_unvme.Api.Transfer.{do_rw-Chunks}
use sxaurora_unvme.Api.{poll_iod, apoll, aread, awrite, read, write}

-- No command of a transfer touches what Unseen names.
Chunks-Unseen :
    {r : Region} {ns : Namespace} {p : ℕ} {xs ys : List ℕ} {s t : Io} {buf slba nlb : ℕ}
    → Chunks r ns p xs ys s t buf slba nlb
    → Unseen s t p
Chunks-Unseen (over s buf slba) = record {
  size = refl;
  head = refl;
  phase = refl;
  polls = refl;
  clock = refl;
  sentinel = refl;
}
Chunks-Unseen (chunk s u t buf slba nlb cid live sub rest) =
    let k = Chunks-Unseen rest in
    let m = sub.unseen in
    record {
      size = k.size ∙ m.size;
      head = k.head ∙ m.head;
      phase = k.phase ∙ m.phase;
      polls = k.polls ∙ m.polls;
      clock = k.clock ∙ m.clock;
      sentinel = k.sentinel ∙ m.sentinel;
    }

polled :
    {xs ys : List ℕ} {m : Run ℕ} (t : Io) (p : ℕ) (st : Status) (u : Io)
    → m ≡ ok p t
    → has p xs ≡ true
    → IsQueue t.queue xs ys
    → do_poll p unvme_timeout t ≡ ok st u
    → st.err ≡ pos 0
    → and_then m poll_iod ≡ ok (pos 0) u
unfolding apoll
polled {xs} t p st u e on v e' good =
    let live = ne→==-false p 0 (not_null t.queue.links t.queue.desclist xs p v.linked.used on) in
    rw (e, live, e', good) refl

module _ (r : Region) (ns : Namespace) (s : Io) (xs ys : List ℕ) (fresh qid buf slba nlb k : ℕ)
    (inv : IsQueue s.queue xs ys) (live : fresh ≢ 0) (new : has fresh xs ≡ false)
    (positive : 0 < ns.maxbpio) (here : Inside r ns buf nlb) (fit : nlb ≤ k * ns.maxbpio)
    (room : s.queue.cidcount + k < s.queue.size) (size h : ℕ) (entries : ℕ → CqEntry)
    (depth : 0 < size) (at : At size h s.queue.nvmeq) (ids : List ℕ)
    (device : Serving size entries unvme_timeout s.rdtsec 0 h ids s.polls) where
  abbrev p : ℕ
  p = chosen fresh ys

  rw-Answered :
      (opc : ℕ) (t : Io)
      → do_rw r ns fresh qid opc buf slba nlb s ≡ ok p t
      → Expected t p ids
      → (u : Io) × (and_then (do_rw r ns fresh qid opc buf slba nlb s) poll_iod ≡ ok (pos 0) u)
        × IsQueue u.queue (erase p (xs ++ p ∷ [])) (rest_of ys ++ p ∷ [])
  rw-Answered opc t e x =
      let (b, t', e', began, v, chunks) =
        do_rw-Chunks r ns s xs ys fresh qid buf slba nlb k inv live new positive here fit room
          opc in
      let same : t ≡ t' = cc in
      let on : has p (xs ++ p ∷ []) ≡ true = ground (arith, has-append p xs (p ∷ [])) in
      let w = Chunks-Unseen chunks in
      let at' : At size h t'.queue.nvmeq = record {
        depth = w.size ∙ ap (λ (n : NvmeQueue). n.size) began.nvmeq ∙ at.depth;
        head = w.head ∙ ap (λ (n : NvmeQueue). n.cq_head) began.nvmeq ∙ at.head;
        phase = w.phase ∙ ap (λ (n : NvmeQueue). n.cq_phase) began.nvmeq ∙ at.phase;
      } in
      let (st, u, e'', a) =
        do_poll-Answered size entries depth unvme_timeout s.rdtsec ids t' h (xs ++ p ∷ [])
          (rest_of ys) p v on (w.sentinel ∙ began.sentinel) (w.clock ∙ began.clock) at'
          (subst (λ (o : Io). Expected o p ids) same x)
          (subst (Serving size entries unvme_timeout s.rdtsec 0 h ids) (sym (w.polls ∙ began.polls))
            device) in
      (u, polled t' p st u e' on v e'' a.good, a.valid)

  -- unvme_read and unvme_write, from a valid queue with more than k ids left, of a transfer in the
  -- I/O region that takes at most k commands, return 0 and leave the queue valid with their descriptor
  -- on the free ring, if the device then completes, without an error and in time, ids in use that
  -- include all that the commands of the transfer have taken.
  pub transfer-Answered :
      (t t' : Io)
      → aread r ns fresh qid buf slba nlb s ≡ ok p t
      → Expected t p ids
      → awrite r ns fresh qid buf slba nlb s ≡ ok p t'
      → Expected t' p ids
      → ((u : Io) × (read r ns fresh qid buf slba nlb s ≡ ok (pos 0) u)
          × IsQueue u.queue (erase p (xs ++ p ∷ [])) (rest_of ys ++ p ∷ []))
        × ((u : Io) × (write r ns fresh qid buf slba nlb s ≡ ok (pos 0) u)
            × IsQueue u.queue (erase p (xs ++ p ∷ [])) (rest_of ys ++ p ∷ []))
  unfolding read write aread awrite
  transfer-Answered t t' e x e' x' = (rw-Answered _ t e x, rw-Answered _ t' e' x')
