-- ===== src/Nvme/Command.antt =====
-- The commands of src/unvme_nvme.c: each fills the submission queue entry at the tail, submits it
-- and, for an admin command, waits for its completion.
use sxaurora_unvme.Base.{
  ℕ, ◌+◌, ◌-◌, ◌%◌, ◌^◌, List, [], ◌∷◌, ◌++◌, Option, none, some, ◌==◌, if◌then◌else◌, pos, negsuc,
}
use sxaurora_unvme.Nvme.Types.{
  NvmeQueue, CqMemory, Body, rw_cmd, vs_cmd, create_cq, create_sq, delete_ioq, identify,
  get_log_page, get_features, set_features,
}
use sxaurora_unvme.Nvme.Queue.{Sent, nvme_submit_cmd, Poll, Waited, nvme_wait_completion}

-- `cmd = &q->sq[q->sq_tail]; memset(cmd, 0, …); cmd->common… = …`
unfoldable pub put_entry : NvmeQueue → (opc cid nsid prp1 prp2 : ℕ) → Body → NvmeQueue
put_entry q opc cid nsid prp1 prp2 body = record q {
  sq = λ i.
      if i == q.sq_tail
      then record {
        common = record {
          opc = opc % 2 ^ 8;
          cid = cid % 2 ^ 16;
          nsid = nsid % 2 ^ 32;
          prp1 = prp1;
          prp2 = prp2;
        };
        body = body;
      }
      else q.sq i;
}

-- NVME_CMD_WRITE and NVME_CMD_READ
abbrev pub cmd_write_op : ℕ
cmd_write_op = 0x1

abbrev pub cmd_read_op : ℕ
cmd_read_op = 0x2

-- `cmd->nlb = nlb - 1` is on an `int` and keeps 16 bits, also where `nlb` is 0.
unfoldable pub nvme_cmd_rw : NvmeQueue → (opc cid nsid slba nlb prp1 prp2 : ℕ) → Sent
unfolding put_entry nvme_submit_cmd
nvme_cmd_rw q opc cid nsid slba nlb prp1 prp2 =
    nvme_submit_cmd (put_entry q opc cid nsid prp1 prp2 (rw_cmd slba ((nlb + 2 ^ 16 - 1) % 2 ^ 16)))

unfoldable pub nvme_cmd_read : NvmeQueue → (cid nsid slba nlb prp1 prp2 : ℕ) → Sent
unfolding nvme_cmd_rw
nvme_cmd_read q = nvme_cmd_rw q cmd_read_op

unfoldable pub nvme_cmd_write : NvmeQueue → (cid nsid slba nlb prp1 prp2 : ℕ) → Sent
unfolding nvme_cmd_rw
nvme_cmd_write q = nvme_cmd_rw q cmd_write_op

-- `cdw10_15` is `none` for a null pointer; the words are then 0.
unfoldable pub nvme_cmd_vs : NvmeQueue → (opc cid nsid prp1 prp2 : ℕ) → Option (List ℕ) → Sent
unfolding put_entry nvme_submit_cmd
nvme_cmd_vs q opc cid nsid prp1 prp2 none =
    nvme_submit_cmd (put_entry q opc cid nsid prp1 prp2 (vs_cmd (0 ∷ 0 ∷ 0 ∷ 0 ∷ 0 ∷ 0 ∷ [])))
nvme_cmd_vs q opc cid nsid prp1 prp2 (some words) =
    nvme_submit_cmd (put_entry q opc cid nsid prp1 prp2 (vs_cmd words))

-- An admin command: `cid = adminq->sq_tail`, submit, and wait 30 seconds.
unfoldable pub admin_cmd :
    List Poll → (adminq : NvmeQueue) → (rdtsec opc nsid prp1 prp2 : ℕ) → Body → Waited
unfolding put_entry nvme_submit_cmd nvme_wait_completion
admin_cmd ps adminq rdtsec opc nsid prp1 prp2 body =
    let cid = adminq.sq_tail in
    let sent = nvme_submit_cmd (put_entry adminq opc cid nsid prp1 prp2 body) in
    let w = nvme_wait_completion ps sent.queue cid 30 rdtsec in
    record w { rings = sent.rings ++ w.rings }

unfoldable pub nvme_acmd_identify :
    List Poll → (adminq : NvmeQueue) → (rdtsec nsid prp1 prp2 : ℕ) → Waited
unfolding admin_cmd
nvme_acmd_identify ps adminq rdtsec nsid prp1 prp2 =
    admin_cmd ps adminq rdtsec 0x6 nsid prp1 prp2 (identify (if nsid == 0 then 1 else 0))

unfoldable pub nvme_acmd_get_log_page :
    List Poll → (adminq : NvmeQueue) → (rdtsec nsid lid numd prp1 prp2 : ℕ) → Waited
unfolding admin_cmd
nvme_acmd_get_log_page ps adminq rdtsec nsid lid numd prp1 prp2 =
    admin_cmd ps adminq rdtsec 0x2 nsid prp1 prp2 (get_log_page (lid % 2 ^ 8) (numd % 2 ^ 12))

-- `*res`: -1 as a u32, and after a success the DW0 in the slot that has the number of the command.
-- `after` is the completion queue memory when that is read.
abbrev feature_res : Waited → CqMemory → ℕ → ℕ
feature_res w after cid = elim w.ret [
  | none ↦ 2 ^ 32 - 1
  | some r ↦ elim r [
    | pos n ↦ if n == 0 then (after cid).cs else 2 ^ 32 - 1
    | negsuc _ ↦ 2 ^ 32 - 1
  ]
]

unfoldable pub nvme_acmd_get_features :
    List Poll
    → (after : CqMemory) → (adminq : NvmeQueue) → (rdtsec nsid fid prp1 prp2 : ℕ)
    → record { waited : Waited; res : ℕ }
unfolding admin_cmd
nvme_acmd_get_features ps after adminq rdtsec nsid fid prp1 prp2 =
    let w = admin_cmd ps adminq rdtsec 0xA nsid prp1 prp2 (get_features (fid % 2 ^ 8)) in
    record { waited = w; res = feature_res w after adminq.sq_tail }

unfoldable pub nvme_acmd_set_features :
    List Poll
    → (after : CqMemory) → (adminq : NvmeQueue) → (rdtsec nsid fid prp1 prp2 res : ℕ)
    → record { waited : Waited; res : ℕ }
unfolding admin_cmd
nvme_acmd_set_features ps after adminq rdtsec nsid fid prp1 prp2 res =
    let w = admin_cmd ps adminq rdtsec 0x9 nsid prp1 prp2 (set_features (fid % 2 ^ 8) res) in
    record { waited = w; res = feature_res w after adminq.sq_tail }

-- The queue commands take the I/O queue's id and size from `ioq`.
unfoldable pub nvme_acmd_create_cq :
    List Poll → (adminq ioq : NvmeQueue) → (rdtsec prp : ℕ) → Waited
unfolding admin_cmd
nvme_acmd_create_cq ps adminq ioq rdtsec prp =
    admin_cmd ps adminq rdtsec 0x5 0 prp 0
      (create_cq (ioq.id % 2 ^ 16) ((ioq.size + 2 ^ 16 - 1) % 2 ^ 16) 1)

unfoldable pub nvme_acmd_create_sq :
    List Poll → (adminq ioq : NvmeQueue) → (rdtsec prp : ℕ) → Waited
unfolding admin_cmd
nvme_acmd_create_sq ps adminq ioq rdtsec prp =
    admin_cmd ps adminq rdtsec 0x1 0 prp 0
      (create_sq (ioq.id % 2 ^ 16) ((ioq.size + 2 ^ 16 - 1) % 2 ^ 16) 1 2 (ioq.id % 2 ^ 16))

unfoldable pub nvme_acmd_delete_ioq :
    List Poll → (adminq ioq : NvmeQueue) → (rdtsec opc : ℕ) → Waited
unfolding admin_cmd
nvme_acmd_delete_ioq ps adminq ioq rdtsec opc =
    admin_cmd ps adminq rdtsec opc 0 0 0 (delete_ioq (ioq.id % 2 ^ 16))

unfoldable pub nvme_acmd_delete_cq : List Poll → (adminq ioq : NvmeQueue) → (rdtsec : ℕ) → Waited
unfolding nvme_acmd_delete_ioq
nvme_acmd_delete_cq ps adminq ioq rdtsec = nvme_acmd_delete_ioq ps adminq ioq rdtsec 0x4

unfoldable pub nvme_acmd_delete_sq : List Poll → (adminq ioq : NvmeQueue) → (rdtsec : ℕ) → Waited
unfolding nvme_acmd_delete_ioq
nvme_acmd_delete_sq ps adminq ioq rdtsec = nvme_acmd_delete_ioq ps adminq ioq rdtsec 0x0
