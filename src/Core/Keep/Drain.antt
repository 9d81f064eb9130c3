-- ===== src/Core/Keep/Drain.antt =====
-- unvme_do_poll, in src/unvme_core.c: what it leaves of the descriptor and of the queue.
use sxaurora_unvme.Base.{
  ℕ, zero, suc, ◌≡◌, ◌≢◌, inl, inr, true, false, List, [], ◌∷◌, ◌++◌, arith, ◌==◌, if◌then◌else◌,
  Bool-cases, ==→eq, ==-false→ne,
}
use sxaurora_unvme.Ring.Shape.{has, erase}
use sxaurora_unvme.Core.State.{Io, Run, ok, fatal, fault, undefined, endless, and_then, pure}
use sxaurora_unvme.Core.Complete.{Status, check_completion}
use sxaurora_unvme.Core.Desc.{desc_put}
use sxaurora_unvme.Core.Submit.{poll_desc, is_zero, do_poll}
use sxaurora_unvme.Core.Invariant.{IsQueue}
use sxaurora_unvme.Core.Keep.Complete.{status_of}
use sxaurora_unvme.Core.Keep.Put.{desc_put-Returned}
use sxaurora_unvme.Core.Keep.Poll.{
  Ended, aborted, faulted, past, stuck, timed_out, completed, check_completion-Ended,
}

-- How the loop ends: without an error only when the descriptor has no id pending.
data Drained (xs ys : List ℕ) (desc : ℕ) : Run Status → Type 0 where
  aborts : Drained xs ys desc fatal
  faults : Drained xs ys desc fault
  past_end : Drained xs ys desc undefined
  hangs : Drained xs ys desc endless
  returns :
      (st : Status) (t : Io)
      → IsQueue t.queue xs ys
      → (is_zero st.err ≡ true → (t.queue.desc desc).cidcount ≡ 0)
      → Drained xs ys desc (ok st t)

poll_desc-Drained :
    (f : ℕ) (s : Io) (xs ys : List ℕ) (desc timeout : ℕ) (st : Status)
    → IsQueue s.queue xs ys
    → Drained xs ys desc (poll_desc f desc timeout st s)
unfolding poll_desc
poll_desc-Drained zero s xs ys desc timeout st inv = hangs
poll_desc-Drained (suc f) s xs ys desc timeout st inv =
    elim (Bool-cases ((s.queue.desc desc).cidcount == 0)) [
      | inl done ↦ rw done (returns st s inv (λ _. ==→eq _ _ done))
      | inr left ↦ rw left (
          round (check_completion timeout s) (check_completion-Ended s xs ys timeout inv)
            (λ t st' v. poll_desc-Drained f t xs ys desc timeout st' v))
    ]
  where
    round :
        (r : Run Status)
        → Ended s xs ys r
        → ((t : Io) (st' : Status)
            → IsQueue t.queue xs ys
            → Drained xs ys desc (poll_desc f desc timeout st' t))
        → Drained xs ys desc
            (and_then r (λ st'. if is_zero st'.err then poll_desc f desc timeout st' else pure st'))
    round _ (aborted c free) k = aborts
    round _ (faulted e) k = faults
    round _ (past c high) k = past_end
    round _ stuck k = hangs
    round _ (timed_out t v e) k = returns _ t v (λ h. ground arith)
    round _ (completed c t v u e b) k = elim (Bool-cases (c.stat == 0)) [
      | inl good ↦ rw good (k t (status_of c) v)
      | inr bad ↦ rw bad (returns (status_of c) t v (λ h. ground arith))
    ]

-- How unvme_do_poll ends: if it returns, either the descriptor is free, and the last of the free
-- ring, or it stays in use with ids pending and the status is an error.
pub data Settled (xs ys : List ℕ) (desc : ℕ) : Run Status → Type 0 where
  aborting : Settled xs ys desc fatal
  faulting : Settled xs ys desc fault
  overrun : Settled xs ys desc undefined
  hanging : Settled xs ys desc endless
  freed :
      (st : Status) (t : Io)
      → IsQueue t.queue (erase desc xs) (ys ++ desc ∷ [])
      → Settled xs ys desc (ok st t)
  kept :
      (st : Status) (t : Io)
      → IsQueue t.queue xs ys
      → is_zero st.err ≡ false
      → (t.queue.desc desc).cidcount ≢ 0
      → Settled xs ys desc (ok st t)

settle :
    (xs ys : List ℕ) (desc : ℕ) (r : Run Status)
    → has desc xs ≡ true
    → Drained xs ys desc r
    → Settled xs ys desc (
        and_then r (λ st s'.
          if (s'.queue.desc desc).cidcount == 0
          then and_then (desc_put desc s') (λ _. pure st)
          else ok st s'))
settle xs ys desc _ on aborts = aborting
settle xs ys desc _ on faults = faulting
settle xs ys desc _ on past_end = overrun
settle xs ys desc _ on hangs = hanging
settle xs ys desc _ on (returns st t v z) = elim (Bool-cases ((t.queue.desc desc).cidcount == 0)) [
  | inl idle ↦
      let (u, e, r) = desc_put-Returned t xs ys desc v on (==→eq _ _ idle) in
      rw (idle, e) (freed st u r.valid)
  | inr busy ↦
      let live = ==-false→ne _ _ busy in
      elim (Bool-cases (is_zero st.err)) [
        | inl good ↦ absurd (live (z good))
        | inr bad ↦ rw busy (kept st t v bad live)
      ]
]

-- unvme_do_poll of a descriptor in use, from a valid queue and however the device answers: if it
-- returns, the queue is valid, and the descriptor has moved to the free ring, or it has ids
-- pending and the status is an error. It need not return: it can abort, follow a NULL pending
-- head, poll without end, or go past the masks of the queue, for a completion of an id that they
-- have no bit for, and then nothing is said of what follows.
pub do_poll-Settled :
    (s : Io) (xs ys : List ℕ) (desc timeout : ℕ)
    → IsQueue s.queue xs ys
    → has desc xs ≡ true
    → Settled xs ys desc (do_poll desc timeout s)
unfolding do_poll
do_poll-Settled s xs ys desc timeout inv on =
    elim (Bool-cases ((s.queue.desc desc).sentinel == desc)) [
      | inl real ↦
          rw (do_poll, real)
            (settle xs ys desc _ on (poll_desc-Drained _ s xs ys desc timeout _ inv))
      | inr stale ↦ rw (do_poll, stale) aborting
    ]
