-- ===== src/Core/Submit.antt =====
-- unvme_get_cid, unvme_submit_io, unvme_do_poll, unvme_do_rw and unvme_do_cmd.
use sxaurora_unvme.Base.{
  ℕ, zero, suc, ◌+◌, ◌-◌, ◌*◌, ◌%◌, ◌^◌, List, ◌++◌, Bool, false, not, Option, none, some, ◌==◌,
  if◌then◌else◌, ℤ, pos, negsuc, min,
}
use sxaurora_unvme.CidMask.{mask_set, find_cid, next_cid}
use sxaurora_unvme.Nvme.Queue.{Sent}
use sxaurora_unvme.Nvme.Command.{nvme_cmd_rw, nvme_cmd_vs}
use sxaurora_unvme.Core.State.{
  Queue, ok, fatal, endless, Cmd, pure, ◌>>=◌, ◌>>◌, with_queue, set_desc,
}
use sxaurora_unvme.Core.Desc.{desc_get, desc_put}
use sxaurora_unvme.Core.Complete.{Status, check_completion}
use sxaurora_unvme.Core.Prps.{Region, Namespace, map_prps}

-- UNVME_TIMEOUT
abbrev pub unvme_timeout : ℕ
unvme_timeout = 60

-- The queue and the descriptor with `cid` in use.
unfoldable pub take_cid : Queue → (desc cid : ℕ) → Queue
unfolding mask_set next_cid
take_cid q desc cid =
    let d = q.desc desc in
    let d' = record d { cidmask = mask_set d.cidmask cid; cidcount = d.cidcount + 1 } in
    record (set_desc q desc d') {
      cidmask = mask_set q.cidmask cid;
      cidcount = q.cidcount + 1;
      cid = next_cid q.size cid;
    }

-- A timeout is fatal; an error status is logged.
unfoldable pub fatal_if_timeout : Status → Cmd (Unit {0})
fatal_if_timeout st s = elim st.err [
  | pos n ↦ ok tt s
  | negsuc n ↦ if n == 0 then fatal else ok tt s
]

-- `if ((q->cidcount + 1) == qsize)`: a full queue waits for a completion first.
unfoldable pub make_room : Cmd (Unit {0})
unfolding check_completion fatal_if_timeout
make_room s =
    if s.queue.cidcount + 1 == s.queue.size
    then (check_completion unvme_timeout >>= fatal_if_timeout) s
    else ok tt s

-- The search for a free id, and its reservation. The search goes round the queue at most once.
unfoldable pub reserve : (desc : ℕ) → Cmd ℕ
unfolding find_cid take_cid
reserve desc s =
    let q = s.queue in
    elim (find_cid q.size q.size q.cidmask q.cid) [
      | none ↦ endless
      | some cid ↦ ok cid (with_queue s (take_cid q desc cid))
    ]

-- unvme_get_cid(desc)
unfoldable pub get_cid : (desc : ℕ) → Cmd ℕ
unfolding make_room reserve
get_cid desc = make_room >> reserve desc

-- What nvme_submit_cmd has sent, put into the state.
abbrev pub send : Sent → Cmd ℤ
send t s =
    ok t.ret (record s { queue = record s.queue { nvmeq = t.queue }; rings = s.rings ++ t.rings })

abbrev pub is_zero : ℤ → Bool
is_zero (pos n) = n == 0
is_zero (negsuc n) = false

-- unvme_submit_io(ns, desc, buf, slba, nlb); `none` where it returns -1
unfoldable pub submit_io : Region → Namespace → (desc buf slba nlb : ℕ) → Cmd (Option ℕ)
unfolding get_cid map_prps nvme_cmd_rw
submit_io r ns desc buf slba nlb = do
  cid ← get_cid desc
  m ← map_prps r ns cid buf (nlb * 2 ^ ns.blockshift % 2 ^ 64)
  elim m [
    | none ↦ pure none
    | some p ↦ λ s.
        (send (nvme_cmd_rw s.queue.nvmeq (s.queue.desc desc).opc cid ns.id slba nlb p.prp1 p.prp2)
            >>= λ err. pure (if is_zero err then some cid else none))
          s
  ]

-- The loop of unvme_do_poll. Each round but the last releases an id of the queue, so that one round
-- more than the ids in use is enough.
unfoldable pub poll_desc : ℕ → (desc timeout : ℕ) → Status → Cmd Status
unfolding check_completion
poll_desc zero desc timeout st s = endless
poll_desc (suc f) desc timeout st s =
    let rest =
      (check_completion timeout >>= λ st'.
      if is_zero st'.err then poll_desc f desc timeout st' else pure st')
        s in
    if (s.queue.desc desc).cidcount == 0 then ok st s else rest

-- unvme_do_poll(desc, timeout, &cs)
unfoldable pub do_poll : (desc timeout : ℕ) → Cmd Status
unfolding poll_desc desc_put
do_poll desc timeout s =
    if not ((s.queue.desc desc).sentinel == desc)
    then fatal
    else (do
      st ← poll_desc (s.queue.cidcount + 1) desc timeout (record { err = pos 0; cs = none })
      λ s'. if (s'.queue.desc desc).cidcount == 0 then (desc_put desc >> pure st) s' else ok st s')
        s

-- The loop of unvme_do_rw over the `nlb` blocks that are left; `endless` past the fuel.
unfoldable pub rw_loop : ℕ → Region → Namespace → (desc buf slba nlb : ℕ) → Cmd (Unit {0})
unfolding submit_io do_poll fatal_if_timeout
rw_loop zero r ns desc buf slba nlb s = endless
rw_loop (suc f) r ns desc buf slba nlb s =
    let n = min ns.maxbpio nlb in
    let rest =
      (do
        cid ← submit_io r ns desc buf slba n
        elim cid [ none ↦ do_poll desc unvme_timeout >>= fatal_if_timeout | some _ ↦ pure tt ]
        rw_loop f r ns desc (buf + n * 2 ^ ns.blockshift) ((slba + n) % 2 ^ 64) (nlb - n))
        s in
    if nlb == 0 then ok tt s else rest

-- unvme_do_rw(ns, qid, opc, buf, slba, nlb), on the queue that `qid` names
unfoldable pub do_rw : Region → Namespace → (fresh qid opc buf slba nlb : ℕ) → Cmd ℕ
unfolding desc_get rw_loop
do_rw r ns fresh qid opc buf slba nlb = do
  desc ← desc_get fresh
  λ s.
      let q = s.queue in
      let d = record (q.desc desc) {
        opc = opc;
        buf = buf;
        qid = qid;
        slba = slba;
        nlb = nlb;
        sentinel = desc;
      } in
      ok tt (with_queue s (set_desc q desc d))
  rw_loop (nlb + 1) r ns desc buf slba nlb
  pure desc

-- unvme_do_cmd(ns, qid, opc, nsid, buf, bufsz, cdw10_15), on the queue that `qid` names; `none`
-- where it returns NULL
unfoldable pub do_cmd :
    Region → Namespace → (fresh qid opc nsid buf bufsz : ℕ) → Option (List ℕ) → Cmd (Option ℕ)
unfolding desc_get get_cid map_prps nvme_cmd_vs desc_put
do_cmd r ns fresh qid opc nsid buf bufsz words = do
  desc ← desc_get fresh
  λ s.
      let q = s.queue in
      let d = record (q.desc desc) { opc = opc; buf = buf; qid = qid; sentinel = desc } in
      ok tt (with_queue s (set_desc q desc d))
  cid ← get_cid desc
  m ← map_prps r ns cid buf bufsz
  elim m [
    | none ↦ desc_put desc >> pure none
    | some p ↦ λ s.
        (send (nvme_cmd_vs s.queue.nvmeq opc cid nsid p.prp1 p.prp2 words) >>= λ err.
        if is_zero err then pure (some desc) else (desc_put desc >> pure none))
          s
  ]
