-- ===== src/Core/Complete.antt =====
-- unvme_check_completion: wait for a completion and release its command id.
use sxaurora_unvme.Base.{
  ℕ, zero, suc, ◌-◌, List, [], ◌∷◌, ◌++◌, Bool, true, false, ◌||◌, Option, none, some, ◌==◌, ltb,
  leb, ◌/◌, if◌then◌else◌, ℤ, pos, negsuc,
}
use sxaurora_unvme.CidMask.{mask_test, mask_clear}
use sxaurora_unvme.Nvme.Types.{NvmeQueue, Ring}
use sxaurora_unvme.Nvme.Queue.{Poll, deadline, Completion, nvme_check_completion}
use sxaurora_unvme.Core.State.{
  Queue, Io, Run, ok, fatal, fault, undefined, endless, Cmd, with_queue, set_desc,
}

-- How the wait ends: with what the last check found, and the polls that are left.
pub record Polled : Type 0 where
  pub nvmeq : NvmeQueue
  pub rings : List Ring
  pub polls : List Poll
  pub found : Option Completion

abbrev is_some : Option Completion → Bool
is_some none = false
is_some (some _) = true

-- The do-while loop. `none`: the polls given end before it does.
unfoldable pub poll_loop :
    List Poll → NvmeQueue → (timeout rdtsec endtsc : ℕ) → List Ring → Option Polled
unfolding nvme_check_completion
poll_loop [] nvmeq timeout rdtsec endtsc rings = none
poll_loop (p ∷ ps) nvmeq timeout rdtsec endtsc rings =
    let c = nvme_check_completion nvmeq p.cq in
    let rings' = rings ++ c.rings in
    let endtsc' = deadline endtsc p.start timeout rdtsec in
    let rest = poll_loop ps c.queue timeout rdtsec endtsc' rings' in
    let stop : Polled = record { nvmeq = c.queue; rings = rings'; polls = ps; found = c.found } in
    if timeout == 0 || is_some c.found
    then some stop
    else if ltb p.now endtsc'
    then rest
    else some stop

-- The search for the descriptor that has `cid` pending, an id that the masks have a bit for, from
-- `desc` on. `none`: it comes round to
-- `descpend`, and the driver aborts. Where no descriptor is in use, that is once round the free ring,
-- in which no descriptor has a bit set; the fuel, the number in use, is then 0.
unfoldable pub find_owner : ℕ → Queue → (cid desc : ℕ) → Option ℕ
unfolding mask_test
find_owner zero q cid desc = none
find_owner (suc f) q cid desc =
    let next = q.links.next desc in
    let rest = find_owner f q cid next in
    if mask_test (q.desc desc).cidmask cid
    then some desc
    else if next == q.descpend
    then none
    else rest

-- `while (q->descpend->cidcount == 0) q->descpend = q->descpend->next`; `none`: it does not end
unfoldable pub skip_done : ℕ → Queue → ℕ → Option ℕ
skip_done zero q pend = none
skip_done (suc f) q pend =
    let rest = skip_done f q (q.links.next pend) in
    if (q.desc pend).cidcount == 0 then rest else some pend

-- Whether word `cid >> 6` is past the masks of the queue and of its descriptors, which all have
-- `masksize` bytes. The id is the device's, and is not checked.
unfoldable pub past_masks : Queue → (cid : ℕ) → Bool
past_masks q cid = leb (q.masksize / 8) (cid / 64)

-- The descriptor and the queue without the completed `cid`.
unfoldable pub release_cid : Queue → (desc cid stat : ℕ) → Queue
unfolding mask_clear
release_cid q desc cid stat =
    let d = q.desc desc in
    let d' = record d {
      error = if stat == 0 then d.error else stat;
      cidmask = mask_clear d.cidmask cid;
      cidcount = d.cidcount - 1;
    } in
    record (set_desc q desc d') {
      cidmask = mask_clear q.cidmask cid;
      cidcount = q.cidcount - 1;
      cid = cid;
    }

-- What a poll returns: the status, and the command specific DW0, if a completion was seen.
pub record Status : Type 0 where
  pub err : ℤ
  pub cs : Option ℕ

-- From the completion on, where an id past the masks ends in `undefined`, before any mask is read. The
-- rounds of both loops are bounded by the number of descriptors.
unfoldable pub complete : Completion → Cmd Status
unfolding past_masks find_owner release_cid skip_done
complete c s =
    let q = s.queue in
    let st : Status = record { err = pos c.stat; cs = some c.cs } in
    let released : Run Status = elim (find_owner q.desccount q c.cid q.descpend) [
      | none ↦ fatal
      | some desc ↦
          let q' = release_cid q desc c.cid c.stat in
          if q'.cidcount == 0
          then ok st (with_queue s q')
          else elim (skip_done q'.desccount q' q'.descpend) [
            | none ↦ endless
            | some pend ↦ ok st (with_queue s (record q' { descpend = pend }))
          ]
    ] in
    if q.descpend == 0 then fault else if past_masks q c.cid then undefined else released

-- unvme_check_completion(q, timeout, &cs)
unfoldable pub check_completion : (timeout : ℕ) → Cmd Status
unfolding poll_loop complete
check_completion timeout s = elim (poll_loop s.polls s.queue.nvmeq timeout s.rdtsec 0 s.rings) [
  | none ↦ endless
  | some p ↦
      let q = record s.queue { nvmeq = p.nvmeq } in
      let s' : Io = record s { queue = q; polls = p.polls; rings = p.rings } in
      elim p.found [ none ↦ ok (record { err = negsuc 0; cs = none }) s' | some c ↦ complete c s' ]
]
