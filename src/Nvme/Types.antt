-- ===== src/Nvme/Types.antt =====
-- The structures of src/unvme_nvme.h that the driver reads and writes. A field is a number below
-- two to its width; an assignment to a narrower field keeps the low bits.
use sxaurora_unvme.Base.{ℕ, ◌%◌, List, bit_and}

-- `nvme_command_common_t`, the fields that are ever set
pub record Common : Type 0 where
  pub opc : ℕ
  pub cid : ℕ
  pub nsid : ℕ
  pub prp1 : ℕ
  pub prp2 : ℕ

-- The part of a submission queue entry behind the common header: the members of the union
-- `nvme_sq_entry_t`, each with the fields that the driver sets.
pub data Body : Type 0 where
  rw_cmd : (slba nlb : ℕ) → Body
  vs_cmd : (cdw10_15 : List ℕ) → Body
  create_cq : (qid qsize pc : ℕ) → Body
  create_sq : (qid qsize pc qprio cqid : ℕ) → Body
  delete_ioq : (qid : ℕ) → Body
  identify : (cns : ℕ) → Body
  get_log_page : (lid numd : ℕ) → Body
  get_features : (fid : ℕ) → Body
  set_features : (fid val : ℕ) → Body

-- `nvme_sq_entry_t`
pub record SqEntry : Type 0 where
  pub common : Common
  pub body : Body

-- `nvme_cq_entry_t`; `psf` holds the phase bit and the status field
pub record CqEntry : Type 0 where
  pub cs : ℕ
  pub sqhd : ℕ
  pub sqid : ℕ
  pub cid : ℕ
  pub psf : ℕ

-- the bit field `p` of `psf`
abbrev pub phase_of : CqEntry → ℕ
phase_of e = e.psf % 2

-- `psf & 0xfffe`
abbrev pub stat_of : CqEntry → ℕ
stat_of e = bit_and e.psf 0xfffe

-- a slot of a completion queue that `memset` has cleared
abbrev pub zero_entry : CqEntry
zero_entry = record { cs = 0; sqhd = 0; sqid = 0; cid = 0; psf = 0 }

-- The completion queue memory, by slot. The device writes it, so each read takes it as it is then.
abbrev pub CqMemory : Type 0
CqMemory = ℕ → CqEntry

-- `nvme_queue_t`. `cq` is the device's to write and no field here; a doorbell is its offset, in
-- words, from `dev->reg->sq0tdbl`.
pub record NvmeQueue : Type 0 where
  pub id : ℕ
  pub size : ℕ
  pub sq : ℕ → SqEntry
  pub sq_doorbell : ℕ
  pub cq_doorbell : ℕ
  pub sq_head : ℕ
  pub sq_tail : ℕ
  pub cq_head : ℕ
  pub cq_phase : ℕ
  pub ext : ℕ

-- A doorbell write: `w32(dev, sq0tdbl + doorbell, val)`.
pub record Ring : Type 0 where
  pub doorbell : ℕ
  pub val : ℕ
