-- ===== src/Nvme/Doorbells.antt =====
-- The set-up of src/unvme_nvme.c: the doorbells of the queues, and the wait for the controller.
use sxaurora_unvme.Base.{
  ℕ, zero, suc, ◌+◌, ◌*◌, ◌%◌, ◌<◌, ◌≤◌, ◌≡◌, ◌≢◌, ◌⊎◌, inl, inr, List, [], ◌∷◌, Bool-cases, ◌==◌,
  arith, refl, some, pos, negsuc, length, get_or, dec_lt, ==→eq, ==-false→ne,
}
use native.Mathlib.Nat.{mul-le-mul_right}
use sxaurora_unvme.Nvme.Types.{SqEntry, NvmeQueue}
use sxaurora_unvme.Nvme.Setup.{NvmeDevice, new_queue, nvme_ctlr_wait_ready}

-- No doorbell of the one queue is a doorbell of the other.
pub record Apart (a b : NvmeQueue) : Type 0 where
  pub sq_sq : a.sq_doorbell ≢ b.sq_doorbell
  pub sq_cq : a.sq_doorbell ≢ b.cq_doorbell
  pub cq_sq : a.cq_doorbell ≢ b.sq_doorbell
  pub cq_cq : a.cq_doorbell ≢ b.cq_doorbell

below : (i j s : ℕ) → i < j → 2 * i * s + 2 * s ≤ 2 * j * s
below i j s h = let k : (i + 1) * s ≤ j * s = mul-le-mul_right s (omega arith) in omega (arith, k)

-- The doorbells that nvme_ioq_create and nvme_adminq_setup give to queues of distinct ids are
-- distinct, if the doorbell stride is not 0.
pub new_queue-Apart :
    (dev : NvmeDevice) (i j qsize ext qsize' ext' : ℕ) (sq sq' : ℕ → SqEntry)
    → 0 < dev.dbstride
    → i ≢ j
    → Apart (new_queue dev i qsize ext sq) (new_queue dev j qsize' ext' sq')
unfolding new_queue
new_queue-Apart dev i j qsize ext qsize' ext' sq sq' live ne = elim (dec_lt i j) [
  | yes low ↦
      let k = below i j dev.dbstride low in
      record {
        sq_sq = omega (arith, k);
        sq_cq = omega (arith, k);
        cq_sq = omega (arith, k);
        cq_cq = omega (arith, k);
      }
  | no high ↦
      let k = below j i dev.dbstride (omega arith) in
      record {
        sq_sq = omega (arith, k);
        sq_cq = omega (arith, k);
        cq_sq = omega (arith, k);
        cq_cq = omega (arith, k);
      }
]

-- nvme_ctlr_wait_ready, with a read of CSTS for each round, returns 0 if one of the reads has the
-- ready bit that is waited for, and -1 if none has.
pub wait_ready-first :
    (rounds : ℕ) (csts : List ℕ) (ready : ℕ)
    → rounds ≤ length csts
    → ((nvme_ctlr_wait_ready rounds csts ready ≡ some (pos 0))
        × ((i : ℕ) × (i < rounds) × (get_or csts i 0 % 2 ≡ ready)))
      ⊎ ((nvme_ctlr_wait_ready rounds csts ready ≡ some (negsuc 0))
          × ((i : ℕ) → i < rounds → get_or csts i 0 % 2 ≢ ready))
unfolding nvme_ctlr_wait_ready
wait_ready-first zero csts ready h = inr (refl, λ i small. absurd (omega arith))
wait_ready-first (suc n) [] ready h = absurd (omega arith)
wait_ready-first (suc n) (c ∷ cs) ready h = elim (Bool-cases (c % 2 == ready)) [
  | inl now ↦ rw now (inl (refl, (zero, omega arith, ==→eq _ _ now)))
  | inr later ↦ elim (wait_ready-first n cs ready (omega arith)) [
    | inl (e, (i, small, at)) ↦ rw later (inl (e, (suc i, omega arith, at)))
    | inr (e, never) ↦ rw later (inr (e, λ i small. at_each i small (==-false→ne _ _ later) never))
  ]
]
  where
    at_each :
        (i : ℕ)
        → i < suc n
        → c % 2 ≢ ready
        → ((j : ℕ) → j < n → get_or cs j 0 % 2 ≢ ready)
        → get_or (c ∷ cs) i 0 % 2 ≢ ready
    at_each zero small other never = other
    at_each (suc i) small other never = never i (omega arith)
