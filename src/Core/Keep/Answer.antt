-- ===== src/Core/Keep/Answer.antt =====
-- unvme_do_poll, in src/unvme_core.c, over a device that answers.
use sxaurora_unvme.Base.{
  if◌then◌else◌, none, eq→==, some, ℕ, zero, suc, ◌+◌, ◌<◌, ◌≡◌, true, List, [], ◌∷◌, ◌++◌, arith,
  ◌==◌, refl, pos, Bool-cases, inl, inr, ==→eq, ◌&&◌, not, ◌∙◌,
}
use sxaurora_unvme.Ring.Shape.{has, erase, Distinct}
use sxaurora_unvme.CidMask.{mask_test}
use sxaurora_unvme.CidMask.Count.{count-zero}
use sxaurora_unvme.Nvme.Types.{CqEntry}
use sxaurora_unvme.Nvme.Fifo.{At}
use sxaurora_unvme.Core.State.{Io, Run, ok, and_then, pure}
use sxaurora_unvme.Core.Complete.{Status}
use sxaurora_unvme.Core.Submit.{poll_desc, do_poll}
use sxaurora_unvme.Core.Invariant.{IsQueue}
use sxaurora_unvme.Core.Desc.{desc_put}
use sxaurora_unvme.Core.Keep.Put.{desc_put-Returned}
use sxaurora_unvme.Core.Owners.{owned-used}
use sxaurora_unvme.Core.Keep.Serve.{Serving, Served, check_completion-Served}

-- The device is about to complete `ids`: all are in use, no two are the same, and all that the
-- descriptor at `desc` has pending are among them.
pub record Expected (s : Io) (desc : ℕ) (ids : List ℕ) : Type 0 where
  pub once : Distinct ids
  pub used : (i : ℕ) → has i ids ≡ true → mask_test s.queue.cidmask i ≡ true
  pub covers : (i : ℕ) → mask_test (s.queue.desc desc).cidmask i ≡ true → has i ids ≡ true

-- With nothing left to complete, the descriptor has nothing pending.
Expected-none :
    (s : Io) (desc : ℕ) (xs ys : List ℕ)
    → IsQueue s.queue xs ys
    → has desc xs ≡ true
    → Expected s desc []
    → (s.queue.desc desc).cidcount ≡ 0
Expected-none s desc xs ys inv on x =
    let d = inv.descs desc on in
    d.each ∙ count-zero s.queue.size (s.queue.desc desc).cidmask (λ i. ground (arith, x.covers i))

-- What unvme_do_poll leaves: no error, and the descriptor last of the free ring.
pub record Answered (t : Io) (st : Status) (desc : ℕ) (xs ys : List ℕ) : Type 0 where
  pub good : st.err ≡ pos 0
  pub valid : IsQueue t.queue (erase desc xs) (ys ++ desc ∷ [])

-- The end of unvme_do_poll.
put_back :
    (r : Run Status) (t : Io) (desc : ℕ) (st : Status) (xs ys : List ℕ)
    → r ≡ ok st t
    → IsQueue t.queue xs ys
    → has desc xs ≡ true
    → (t.queue.desc desc).cidcount ≡ 0
    → st.err ≡ pos 0
    → (u : Io) × (and_then r (λ st' s'.
          if (s'.queue.desc desc).cidcount == 0
          then and_then (desc_put desc s') (λ _. pure st')
          else ok st' s')
        ≡ ok st u)
      × Answered u st desc xs ys
put_back r t desc st xs ys e inv on idle good =
    let (u, e', k) = desc_put-Returned t xs ys desc inv on idle in
    (u, rw (e, idle, e') refl, record { good = good; valid = k.valid })

module _ (size : ℕ) (entries : ℕ → CqEntry) (positive : 0 < size) (timeout rdtsec : ℕ) where
  -- One completion fewer is expected.
  next-Expected :
      (s t : Io) (desc h id : ℕ) (ids xs ys : List ℕ)
      → Expected s desc (id ∷ ids)
      → Served size entries positive timeout rdtsec s t h id ids xs ys
      → IsQueue s.queue xs ys
      → has desc xs ≡ true
      → Expected t desc ids
  next-Expected s t desc h id ids xs ys x k inv on = record {
    once = x.once.1;
    used = λ i m. expected i m (ground (arith, x.used i)) (k.others i);
    covers = λ i m.
        ground
          (arith, x.covers i (k.mine desc i m), k.others i, owned-used k.valid.shared i desc on m);
  }
    where
      expected :
          (i : ℕ)
          → has i ids ≡ true
          → mask_test s.queue.cidmask i ≡ true
          → mask_test t.queue.cidmask i ≡ (not (id == i) && mask_test s.queue.cidmask i)
          → mask_test t.queue.cidmask i ≡ true
      expected i m u o = elim (Bool-cases (id == i)) [
        | inl e ↦ ground (arith, ==→eq id i e, x.once)
        | inr e ↦ ground arith
      ]

  -- The loop ends without an error, with nothing of the descriptor pending.
  poll_desc-Answered :
      (f : ℕ) (ids : List ℕ) (s : Io) (h : ℕ) (xs ys : List ℕ) (desc : ℕ) (st : Status)
      → s.queue.cidcount < f
      → IsQueue s.queue xs ys
      → has desc xs ≡ true
      → s.rdtsec ≡ rdtsec
      → At size h s.queue.nvmeq
      → Expected s desc ids
      → Serving size entries timeout rdtsec 0 h ids s.polls
      → st.err ≡ pos 0
      → (st' : Status) × (t : Io) × (poll_desc f desc timeout st s ≡ ok st' t)
        × IsQueue t.queue xs ys
        × (st'.err ≡ pos 0)
        × ((t.queue.desc desc).cidcount ≡ 0)
  unfolding poll_desc
  poll_desc-Answered zero ids s h xs ys desc st enough inv on clock at x device e =
      absurd (omega arith)
  poll_desc-Answered (suc f) [] s h xs ys desc st enough inv on clock at x device e =
      let z = Expected-none s desc xs ys inv on x in (st, s, rw z refl, inv, e, z)
  poll_desc-Answered (suc f) (id ∷ ids) s h xs ys desc st enough inv on clock at x device e =
      elim (Bool-cases ((s.queue.desc desc).cidcount == 0)) [
        | inl idle ↦ (st, s, rw idle refl, inv, e, ==→eq _ _ idle)
        | inr busy ↦
            let (t, e', k) =
              check_completion-Served size entries positive timeout rdtsec s h id ids xs ys inv
                clock at (x.used id (ground arith)) device in
            let (st', u, e'', v, good, z) =
              poll_desc-Answered f ids t (suc h) xs ys desc
                (record { err = pos 0; cs = some (entries h).cs }) (omega (arith, k.fewer)) k.valid
                on k.clock k.at (next-Expected s t desc h id ids xs ys x k inv on) k.later refl in
            (st', u, rw (busy, e', k.good) e'', v, good, z)
      ]

  -- Over a device that completes without an error, and in time, ids in use that include all the
  -- descriptor has pending, unvme_do_poll from a valid queue returns 0, and the descriptor is free.
  pub do_poll-Answered :
      (ids : List ℕ) (s : Io) (h : ℕ) (xs ys : List ℕ) (desc : ℕ)
      → IsQueue s.queue xs ys
      → has desc xs ≡ true
      → (s.queue.desc desc).sentinel ≡ desc
      → s.rdtsec ≡ rdtsec
      → At size h s.queue.nvmeq
      → Expected s desc ids
      → Serving size entries timeout rdtsec 0 h ids s.polls
      → (st : Status) × (t : Io) × (do_poll desc timeout s ≡ ok st t) × Answered t st desc xs ys
  unfolding do_poll
  do_poll-Answered ids s h xs ys desc inv on real clock at x device =
      let (st, t, e, v, good, idle) =
        poll_desc-Answered (s.queue.cidcount + 1) ids s h xs ys desc
          (record { err = pos 0; cs = none }) (omega arith) inv on clock at x device refl in
      let (u, e', a) = put_back _ t desc st xs ys e v on idle good in
      (st, u, rw (do_poll, eq→== _ _ real) e', a)
