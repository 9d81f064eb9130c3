-- ===== src/Session/Types.antt =====
-- The data that the sessions of src/unvme_core.c read and keep.
use sxaurora_unvme.Base.{ℕ, List, Bool}
use sxaurora_unvme.Ring.{Links}
use sxaurora_unvme.Log.{Log}
use sxaurora_unvme.Nvme.Types.{CqMemory, SqEntry}
use sxaurora_unvme.Nvme.Queue.{Poll}
use sxaurora_unvme.Nvme.Setup.{NvmeDevice}
use sxaurora_unvme.Core.State.{Queue}

-- `nvme_identify_ctlr_t`, the fields that the driver reads; the strings are lists of bytes.
pub record IdentifyCtlr : Type 0 where
  pub vid : ℕ
  pub sn : List ℕ
  pub mn : List ℕ
  pub fr : List ℕ
  pub mdts : ℕ
  pub nn : ℕ

-- `nvme_lba_format_t`
pub record LbaFormat : Type 0 where
  pub ms : ℕ
  pub lbads : ℕ
  pub rp : ℕ

-- `nvme_identify_ns_t`, the fields that the driver reads
pub record IdentifyNs : Type 0 where
  pub ncap : ℕ
  pub flbas : ℕ
  pub lbaf : List LbaFormat

-- The numbers that `sprintf` prints into `ns->device`, as %02x:%02x.%x and, for a session, /%d.
pub record DeviceName : Type 0 where
  pub bus : ℕ
  pub slot : ℕ
  pub func : ℕ

-- `unvme_ns_t`, less `ses`, which is the session itself. `nsid` is what is printed behind the name of
-- the device.
pub record NsInfo : Type 0 where
  pub pci : ℕ
  pub id : ℕ
  pub vid : ℕ
  pub device : DeviceName
  pub nsid : ℕ
  pub mn : List ℕ
  pub sn : List ℕ
  pub fr : List ℕ
  pub blockcount : ℕ
  pub pagecount : ℕ
  pub blocksize : ℕ
  pub pagesize : ℕ
  pub blockshift : ℕ
  pub pageshift : ℕ
  pub bpshift : ℕ
  pub nbpp : ℕ
  pub maxbpio : ℕ
  pub maxppio : ℕ
  pub maxiopq : ℕ
  pub nscount : ℕ
  pub qcount : ℕ
  pub maxqcount : ℕ
  pub qsize : ℕ
  pub maxqsize : ℕ

-- `unvme_device_t`; `pci` is that of `vfiodev`.
pub record Device : Type 0 where
  pub pci : ℕ
  pub nvmedev : NvmeDevice
  pub adminq : Queue
  pub refcount : ℕ
  pub ns : NsInfo
  pub ioqs : List Queue

-- `unvme_session_t`, less its links; `dev` is an address.
pub record Session : Type 0 where
  pub dev : ℕ
  pub ns : NsInfo

-- The memory of the driver: the ring of sessions from `unvme_ses`, the sessions and devices by
-- address, whether `unvme_lock` is held for writing, the log, and the counter of
-- descriptor ids.
pub record Driver : Type 0 where
  pub ses : ℕ
  pub links : Links
  pub session : ℕ → Session
  pub device : ℕ → Device
  pub locked : Bool
  pub log : Log
  pub last_id : ℕ

-- The memory of a queue: the addresses of its descriptors, its PRP pages, and its entries.
pub record QueueMemory : Type 0 where
  pub fresh : List ℕ
  pub prpaddr : ℕ
  pub prpmem : ℕ → ℕ
  pub sqpa : ℕ
  pub cqpa : ℕ
  pub sq : ℕ → SqEntry

-- An I/O queue: its memory, and the polls of the two commands that create it.
pub record IoqInput : Type 0 where
  pub mem : QueueMemory
  pub create_cq : List Poll
  pub create_sq : List Poll

-- What a new device answers while unvme_do_open sets it up: its registers CAP, CC and CSTS, the data
-- of the controller, and the number of queues.
pub record Controller : Type 0 where
  pub cap : ℕ
  pub rdtsec : ℕ
  pub adminmem : QueueMemory
  pub cc : ℕ
  pub csts_off : List ℕ
  pub csts_on : List ℕ
  pub identify_dma : ℕ
  pub identify : List Poll
  pub idc : IdentifyCtlr
  pub features : List Poll
  pub after : CqMemory
  pub ioq : ℕ → IoqInput

-- What the device answers about the namespace.
pub record NsInput : Type 0 where
  pub dma : ℕ
  pub polls : List Poll
  pub idns : IdentifyNs

-- How a call ends: it returns; it calls abort() through FATAL; it calls exit(1); it follows a null
-- pointer; or it does not end, or not within the polls given.
pub data Outcome (A : Type 0) : Type 0 where
  returns : A → Outcome A
  aborts : Outcome A
  exits : Outcome A
  faults : Outcome A
  hangs : Outcome A

module _ {A B : Type 0} where
  abbrev pub then_do : Outcome A → (A → Outcome B) → Outcome B
  then_do (returns a) k = k a
  then_do aborts k = aborts
  then_do exits k = exits
  then_do faults k = faults
  then_do hangs k = hangs

-- What the platform and the device give to unvme_do_open: whether fopen and aurora_init succeed, the
-- addresses that zalloc returns, and the device's answers. `sessions` bounds the open sessions.
pub record OpenInput : Type 0 where
  pub log_opens : Bool
  pub init_ok : Bool
  pub fresh_dev : ℕ
  pub fresh_ses : ℕ
  pub controller : Controller
  pub ns : NsInput
  pub sessions : ℕ
