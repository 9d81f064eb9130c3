-- ===== src/Api/First.antt =====
-- The first read or write of src/unvme.c on a queue that unvme_do_open has made.
use sxaurora_unvme.Base.{
  ℕ, ◌+◌, ◌*◌, ◌≡◌, ◌≢◌, ◌<◌, ◌≤◌, List, ◌∷◌, [], ◌++◌, pos, arith, refl, subst, eq→==, ltb, ap,
  ◌∙◌,
}
use sxaurora_unvme.Ring.Shape.{erase, has, Distinct}
use sxaurora_unvme.CidMask.Count.{count-zero}
use sxaurora_unvme.Nvme.Types.{CqEntry}
use sxaurora_unvme.Core.State.{Io, ok}
use sxaurora_unvme.Core.Prps.{Region, Namespace}
use sxaurora_unvme.Core.Submit.{do_rw, unvme_timeout}
use sxaurora_unvme.Core.Invariant.{IsQueue}
use sxaurora_unvme.Core.Keep.Chunks.{Inside}
use sxaurora_unvme.Core.Keep.Serve.{Serving}
use sxaurora_unvme.Core.Keep.Answer.{Expected}
use sxaurora_unvme.Session.Ready.{Ready}
use sxaurora_unvme.Api.Answer.{transfer-Answered}
use sxaurora_unvme.Api.Transfer.{do_rw-Chunks}
use sxaurora_unvme.Api.InOrder.{InOrder, Chunks-InOrder, InOrder-Expected}
use sxaurora_unvme.CidMask.{Mask, mask_test}
use sxaurora_unvme.Api.{aread, awrite, read, write}

erase-one : (p : ℕ) → erase p (p ∷ []) ≡ []
erase-one p = rw (eq→== p p refl) refl

module _ (r : Region) (ns : Namespace) (s : Io) (id p : ℕ) (ps : List ℕ)
    (ready : Ready id 256 (p ∷ ps) s.queue) (fresh qid buf slba nlb m : ℕ) (live : fresh ≢ 0)
    (positive : 0 < ns.maxbpio) (here : Inside r ns buf nlb) (small : m < 256)
    (fit : nlb ≤ m * ns.maxbpio) (least : m * ns.maxbpio < nlb + ns.maxbpio) (entries : ℕ → CqEntry)
    (ids : List ℕ) (once : Distinct ids) (exact : (i : ℕ) → has i ids ≡ ltb i m)
    (device : Serving 256 entries unvme_timeout s.rdtsec 0 0 ids s.polls) where
  room : s.queue.cidcount + m < s.queue.size
  room = omega (
    arith,
    ready.valid.shared.counted,
    count-zero s.queue.size s.queue.cidmask ready.idle,
    ready.entries,
    small,
  )

  -- The device is about to complete what the commands of the transfer have taken.
  do_rw-Expected :
      (opc : ℕ) → (t : Io) × (do_rw r ns fresh qid opc buf slba nlb s ≡ ok p t) × Expected t p ids
  do_rw-Expected opc =
      let (u, t, e, began, v, chunks) =
        do_rw-Chunks r ns s [] (p ∷ ps) fresh qid buf slba nlb m ready.valid live refl positive here
          fit room opc in
      let start : InOrder u 0 = record {
        next = began.next ∙ ready.next;
        bits = λ j. ap (λ (w : Mask). mask_test w j) began.bits ∙ ready.idle j ∙ ground arith;
      } in
      let order =
        Chunks-InOrder 0 m chunks start positive fit least
          (omega (arith, began.size, ready.entries, small))
          (omega (arith, began.size, ready.entries)) in
      let same : 0 + m ≡ m = omega arith in
      (t, e, InOrder-Expected t p m ps ids v (subst (InOrder t) same order) once exact)

  -- On a new queue of 256 entries, unvme_read and unvme_write of a transfer in the I/O region that
  -- takes m commands, and m is less than 256, return 0 and all descriptors are free again, the used one
  -- last, if the device completes the ids 0 to m - 1, once each and in any order, without an error
  -- and in time.
  pub first-Answered :
      ((u : Io) × (read r ns fresh qid buf slba nlb s ≡ ok (pos 0) u)
        × IsQueue u.queue [] (ps ++ p ∷ []))
      × ((u : Io) × (write r ns fresh qid buf slba nlb s ≡ ok (pos 0) u)
          × IsQueue u.queue [] (ps ++ p ∷ []))
  unfolding aread awrite
  first-Answered =
      let (t, e, x) = do_rw-Expected _ in
      let (t', e', x') = do_rw-Expected _ in
      let ((u, a, v), (u', a', v')) =
        transfer-Answered r ns s [] (p ∷ ps) fresh qid buf slba nlb m ready.valid live refl positive
          here fit room 256 0 entries (omega arith) ready.at ids device t t' e x e' x' in
      let back = λ (w : Io) (v : IsQueue w.queue (erase p (p ∷ [])) (ps ++ p ∷ [])).
        subst (λ zs. IsQueue w.queue zs (ps ++ p ∷ [])) (erase-one p) v in
      ((u, a, back u v), (u', a', back u' v'))
