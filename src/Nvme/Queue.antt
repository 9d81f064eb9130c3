-- ===== src/Nvme/Queue.antt =====
-- The queue operations of src/unvme_nvme.c: nvme_submit_cmd, nvme_check_completion,
-- nvme_wait_completion.
use sxaurora_unvme.Base.{
  ℕ, ◌+◌, ◌*◌, ◌%◌, ◌^◌, List, [], ◌∷◌, ◌++◌, ◌&&◌, not, Option, none, some, ◌==◌, ltb,
  if◌then◌else◌, ℤ, pos, negsuc,
}
use sxaurora_unvme.Nvme.Types.{NvmeQueue, Ring, CqMemory, phase_of, stat_of}

-- What nvme_submit_cmd leaves: the queue, its doorbell write, and the result, always 0.
pub record Sent : Type 0 where
  pub queue : NvmeQueue
  pub rings : List Ring
  pub ret : ℤ

unfoldable pub nvme_submit_cmd : NvmeQueue → Sent
nvme_submit_cmd q =
    let tail = if q.sq_tail + 1 == q.size then 0 else q.sq_tail + 1 in
    record {
      queue = record q { sq_tail = tail };
      rings = record { doorbell = q.sq_doorbell; val = tail } ∷ [];
      ret = pos 0;
    }

-- A completion: the command id, the status, and the command specific DW0.
pub record Completion : Type 0 where
  pub cid : ℕ
  pub stat : ℕ
  pub cs : ℕ

-- What nvme_check_completion leaves; `found` is `none` where it returns -1.
pub record Checked : Type 0 where
  pub queue : NvmeQueue
  pub rings : List Ring
  pub found : Option Completion

abbrev advance : NvmeQueue → NvmeQueue
advance q =
    if q.cq_head + 1 == q.size
    then record q { cq_head = 0; cq_phase = if q.cq_phase == 0 then 1 else 0 }
    else record q { cq_head = q.cq_head + 1 }

unfoldable pub nvme_check_completion : NvmeQueue → CqMemory → Checked
nvme_check_completion q cq =
    let cqe = cq q.cq_head in
    if phase_of cqe == q.cq_phase
    then record { queue = q; rings = []; found = none }
    else let q' = advance q in
      record {
        queue = q';
        rings = record { doorbell = q.cq_doorbell; val = q'.cq_head } ∷ [];
        found = some (record { cid = cqe.cid; stat = stat_of cqe; cs = cqe.cs });
      }

-- One round of a polling loop: the completion queue as it is read, and the two clock readings that
-- the round may take, in order.
pub record Poll : Type 0 where
  pub cq : CqMemory
  pub start : ℕ
  pub now : ℕ

-- What a polling loop leaves; `ret` is `none` if the rounds given end before the loop does.
pub record Waited : Type 0 where
  pub queue : NvmeQueue
  pub rings : List Ring
  pub ret : Option ℤ

-- `endtsc`, set by the first round that finds nothing
abbrev pub deadline : ℕ → ℕ → ℕ → ℕ → ℕ
deadline endtsc start timeout rdtsec =
    if endtsc == 0 then (start + timeout * rdtsec) % 2 ^ 64 else endtsc

abbrev wait_result : Completion → ℕ → ℤ
wait_result c cid =
    if c.cid == cid && c.stat == 0
    then pos 0
    else if not (c.cid == cid)
    then negsuc 0
    else pos c.stat

wait_loop : List Poll → NvmeQueue → (cid timeout rdtsec endtsc : ℕ) → List Ring → Waited
unfolding nvme_check_completion
wait_loop [] q cid timeout rdtsec endtsc rings = record { queue = q; rings = rings; ret = none }
wait_loop (p ∷ ps) q cid timeout rdtsec endtsc rings =
    let c = nvme_check_completion q p.cq in
    let endtsc' = deadline endtsc p.start timeout rdtsec in
    let rest = wait_loop ps c.queue cid timeout rdtsec endtsc' (rings ++ c.rings) in
    let late : Waited = record {
      queue = c.queue;
      rings = rings ++ c.rings;
      ret = some (negsuc 0);
    } in
    elim c.found [
      | none ↦ if ltb p.now endtsc' then rest else late
      | some found ↦ record {
        queue = c.queue;
        rings = rings ++ c.rings;
        ret = some (wait_result found cid);
      }
    ]

-- `rdtsec` is `q->dev->rdtsec`
unfoldable pub nvme_wait_completion : List Poll → NvmeQueue → (cid timeout rdtsec : ℕ) → Waited
unfolding wait_loop
nvme_wait_completion ps q cid timeout rdtsec = wait_loop ps q cid timeout rdtsec 0 []
