-- ===== src/Nvme/Setup.antt =====
-- The set-up of src/unvme_nvme.c: nvme_create, nvme_adminq_setup, nvme_ioq_create and
-- nvme_ioq_delete.
use sxaurora_unvme.Base.{
  ℕ, zero, suc, ◌+◌, ◌-◌, ◌*◌, ◌%◌, ◌^◌, List, [], ◌∷◌, ◌++◌, Option, none, some, ◌==◌,
  if◌then◌else◌, ℤ, pos, negsuc,
}
use sxaurora_unvme.Nvme.Types.{NvmeQueue, SqEntry}
use sxaurora_unvme.Nvme.Registers.{
  ControllerConfig, aqa_val, cap_of, config_of, config_val, status_of,
}
use sxaurora_unvme.Nvme.Queue.{Poll}
use sxaurora_unvme.Nvme.Command.{
  nvme_acmd_create_cq, nvme_acmd_create_sq, nvme_acmd_delete_cq, nvme_acmd_delete_sq,
}

-- `nvme_device_t`, the fields that nvme_create sets from the register CAP
pub record NvmeDevice : Type 0 where
  pub rdtsec : ℕ
  pub timeout : ℕ
  pub mpsmin : ℕ
  pub mpsmax : ℕ
  pub pageshift : ℕ
  pub maxqsize : ℕ
  pub dbstride : ℕ

-- nvme_create, with the value of CAP and what rdtsc_second returns
unfoldable pub nvme_create : (cap rdtsec : ℕ) → NvmeDevice
unfolding cap_of
nvme_create cap rdtsec =
    let c = cap_of cap in
    record {
      rdtsec = rdtsec;
      timeout = c.to;
      mpsmin = c.mpsmin;
      mpsmax = c.mpsmax;
      pageshift = 12 + c.mpsmin;
      maxqsize = c.mqes + 1;
      dbstride = 2 ^ c.dstrd;
    }

-- nvme_ctlr_wait_ready(dev, ready), with what the reads of CSTS give; `none` if they end before the
-- loop does
unfoldable pub nvme_ctlr_wait_ready : (rounds : ℕ) → List ℕ → (ready : ℕ) → Option ℤ
unfolding status_of
nvme_ctlr_wait_ready zero csts ready = some (negsuc 0)
nvme_ctlr_wait_ready (suc i) [] ready = none
nvme_ctlr_wait_ready (suc i) (c ∷ cs) ready =
    let rest = nvme_ctlr_wait_ready i cs ready in
    if (status_of c).rdy == ready then some (pos 0) else rest

-- A write to a register of the controller.
pub data RegWrite : Type 0 where
  cc : ℕ → RegWrite
  aqa : ℕ → RegWrite
  asq : ℕ → RegWrite
  acq : ℕ → RegWrite

-- nvme_ctlr_disable(dev): what it writes, where CC reads `val`, and what it returns
unfoldable pub nvme_ctlr_disable :
    NvmeDevice → (val : ℕ) → List ℕ → record { writes : List RegWrite; ret : Option ℤ }
unfolding nvme_ctlr_wait_ready config_of config_val
nvme_ctlr_disable dev val csts = record {
  writes = cc (config_val (record (config_of val) { en = 0 })) ∷ [];
  ret = nvme_ctlr_wait_ready dev.timeout csts 0;
}

-- nvme_ctlr_enable(dev, cc)
unfoldable pub nvme_ctlr_enable :
    NvmeDevice → ControllerConfig → List ℕ → record { writes : List RegWrite; ret : Option ℤ }
unfolding nvme_ctlr_wait_ready config_val
nvme_ctlr_enable dev c csts = record {
  writes = cc (config_val (record c { en = 1 })) ∷ [];
  ret = nvme_ctlr_wait_ready dev.timeout csts 1;
}

-- A queue as zalloc clears it, with the entries of `sq` and the doorbells of queue `id`. `ext` is 1
-- where the caller gives the memory.
unfoldable pub new_queue : NvmeDevice → (id qsize ext : ℕ) → (ℕ → SqEntry) → NvmeQueue
new_queue dev id qsize ext sq = record {
  id = id;
  size = qsize;
  sq = sq;
  sq_doorbell = 2 * id * dev.dbstride;
  cq_doorbell = 2 * id * dev.dbstride + dev.dbstride;
  sq_head = 0;
  sq_tail = 0;
  cq_head = 0;
  cq_phase = 0;
  ext = ext;
}

-- How a set-up ends: with a value, with an error, or not within the polls given.
pub data Ended (A : Type 0) : Type 0 where
  done : A → Ended A
  failed : Ended A
  unended : Ended A

-- `if (err) …`, on what a call returns
abbrev pub on_ok : {A : Type 0} → Option ℤ → Ended A → Ended A
on_ok none next = unended
on_ok (some (pos n)) next = if n == 0 then next else failed
on_ok (some (negsuc n)) next = failed

-- `cc`, as nvme_adminq_setup fills it in
unfoldable pub new_config : NvmeDevice → ControllerConfig
new_config dev = record {
  en = 0;
  rsvd = 0;
  css = 0;
  mps = (dev.pageshift + 2 ^ 4 - 12) % 2 ^ 4;
  ams = 0;
  shn = 0;
  iosqes = 6;
  iocqes = 4;
  rsvd2 = 0;
}

-- nvme_adminq_setup(dev, qsize, …), where CC reads `val`; `csts` and `csts'` are the reads of CSTS in
-- the two waits
unfoldable pub nvme_adminq_setup :
    NvmeDevice
    → (val qsize sqpa cqpa : ℕ) → (ℕ → SqEntry)
    → (csts csts' : List ℕ) → record { writes : List RegWrite; adminq : Ended NvmeQueue }
unfolding nvme_ctlr_disable nvme_ctlr_enable new_config aqa_val new_queue
nvme_adminq_setup dev val qsize sqpa cqpa sq csts csts' =
    let off = nvme_ctlr_disable dev val csts in
    let n = (qsize + 2 ^ 16 - 1) % 2 ^ 16 in
    let on = nvme_ctlr_enable dev (new_config dev) csts' in
    let rest = aqa (aqa_val (record { asqs = n; acqs = n })) ∷ asq sqpa ∷ acq cqpa ∷ on.writes in
    let adminq = on_ok on.ret (done (new_queue dev 0 qsize 0 sq)) in
    record {
      writes = elim off.ret [
        | none ↦ off.writes
        | some r ↦ elim r [
          | pos n ↦ if n == 0 then off.writes ++ rest else off.writes
          | negsuc n ↦ off.writes
        ]
      ];
      adminq = on_ok off.ret adminq;
    }

-- nvme_ioq_create(dev, NULL or a queue, id, qsize, …): two commands on the admin queue
unfoldable pub nvme_ioq_create :
    NvmeDevice
    → (adminq : NvmeQueue) → (id qsize ext sqpa cqpa : ℕ) → (ℕ → SqEntry)
    → (ps ps' : List Poll) → record { adminq : NvmeQueue; ioq : Ended NvmeQueue }
unfolding new_queue nvme_acmd_create_cq nvme_acmd_create_sq
nvme_ioq_create dev adminq id qsize ext sqpa cqpa sq ps ps' =
    let ioq = new_queue dev id qsize ext sq in
    let c = nvme_acmd_create_cq ps adminq ioq dev.rdtsec cqpa in
    let s = nvme_acmd_create_sq ps' c.queue ioq dev.rdtsec sqpa in
    record {
      adminq = elim c.ret [
        | none ↦ c.queue
        | some r ↦ elim r [ pos n ↦ if n == 0 then s.queue else c.queue | negsuc n ↦ c.queue ]
      ];
      ioq = on_ok c.ret (on_ok s.ret (done ioq));
    }

-- nvme_ioq_delete(ioq) of a queue that is not NULL: 0 is `done tt`, and -1 is `failed`
unfoldable pub nvme_ioq_delete :
    NvmeDevice
    → (adminq ioq : NvmeQueue) → (ps ps' : List Poll)
    → record { adminq : NvmeQueue; ret : Ended (Unit {0}) }
unfolding nvme_acmd_delete_sq nvme_acmd_delete_cq
nvme_ioq_delete dev adminq ioq ps ps' =
    let s = nvme_acmd_delete_sq ps adminq ioq dev.rdtsec in
    let c = nvme_acmd_delete_cq ps' s.queue ioq dev.rdtsec in
    record {
      adminq = elim s.ret [
        | none ↦ s.queue
        | some r ↦ elim r [ pos n ↦ if n == 0 then c.queue else s.queue | negsuc n ↦ s.queue ]
      ];
      ret = on_ok s.ret (on_ok c.ret (done tt));
    }
