-- ===== src/Session/Open.antt =====
-- unvme_do_open of src/unvme_core.c.
use sxaurora_unvme.Base.{
  ℕ, ◌+◌, Bool, true, false, Option, none, some, pos, negsuc, ℤ, ◌==◌, ltb, if◌then◌else◌,
}
use sxaurora_unvme.Log.{log_open}
use sxaurora_unvme.Ring.{list_add}
use sxaurora_unvme.Nvme.Types.{NvmeQueue}
use sxaurora_unvme.Nvme.Setup.{NvmeDevice, nvme_create}
use sxaurora_unvme.Nvme.Command.{nvme_acmd_identify, nvme_acmd_get_features}
use sxaurora_unvme.Core.State.{Queue}
use sxaurora_unvme.Session.Types.{
  Device, Session, Driver, NsInfo, Controller, Outcome, returns, aborts, exits, hangs, then_do,
  OpenInput,
}
use sxaurora_unvme.Session.Limits.{ctlr_ns, set_queues, ns_init}
use sxaurora_unvme.Session.Queues.{Created, Ioqs, adminq_create, create_ioqs}
use sxaurora_unvme.Session.Table.{Found, search, session, absent, refused}

-- What unvme_do_open returns, the new session or NULL, and what it leaves.
pub record Opened : Type 0 where
  pub ret : Option ℕ
  pub driver : Driver

-- `if (nvme_acmd_…) FATAL(…)`
abbrev pub on_zero : {A : Type 0} → Option ℤ → Outcome A → Outcome A
on_zero none next = hangs
on_zero (some (pos n)) next = if n == 0 then next else aborts
on_zero (some (negsuc n)) next = aborts

abbrev pub set_device : Driver → ℕ → Device → Driver
set_device d p dev = record d { device = λ a. if a == p then dev else d.device a }

abbrev pub set_session : Driver → ℕ → Session → Driver
set_session d p s = record d { session = λ a. if a == p then s else d.session a }

-- `if (!unvme_ses) log_open(…)`
unfoldable pub open_log : (opens : Bool) → Driver → Outcome Driver
unfolding log_open
open_log opens d =
    let l = log_open opens d.log in
    if d.ses == 0
    then elim l.ret [ pos n ↦ returns (record d { log = l.log }) | negsuc n ↦ exits ]
    else returns d

-- A device, and the counter of descriptor ids; none where the namespace is refused.
pub record NewDevice : Type 0 where
  pub dev : Device
  pub last_id : ℕ

-- The device, once its queues are created.
unfoldable pub build : NvmeDevice → (pci : ℕ) → NsInfo → (adminq : Queue) → Ioqs → NewDevice
build n pci ns adminq q = record {
  dev = record {
    pci = pci;
    nvmedev = n;
    adminq = record adminq { nvmeq = q.adminq };
    refcount = 0;
    ns = ns;
    ioqs = q.ioqs;
  };
  last_id = q.last_id;
}

-- From the admin queue `a` on: the controller, the number of queues, and the I/O queues.
unfoldable pub set_up :
    Controller
    → NvmeDevice
    → (old : Queue) → (pci nsid qcount : ℕ) → Created
    → Outcome (Option NewDevice)
unfolding nvme_acmd_identify nvme_acmd_get_features ctlr_ns set_queues create_ioqs build
set_up c n old pci nsid qcount a =
    let w = nvme_acmd_identify c.identify a.queue.nvmeq n.rdtsec 0 c.identify_dma 0 in
    let f = nvme_acmd_get_features c.features c.after w.queue n.rdtsec 0 0x7 0 0 in
    let ns = set_queues (ctlr_ns pci n c.idc) f.res qcount in
    on_zero w.ret (
      if ltb c.idc.nn nsid
      then returns none
      else on_zero f.waited.ret (
          then_do (create_ioqs ns.qcount 0 n c.ioq old f.waited.queue ns.qsize a.last_id)
            (λ q. returns (some (build n pci ns a.queue q)))))

-- The set-up of a device of which no session is open. `old` is the memory that zalloc clears.
unfoldable pub new_device :
    OpenInput → (old : Queue) → (last_id pci nsid qcount : ℕ) → Outcome (Option NewDevice)
unfolding adminq_create nvme_create set_up
new_device i old last_id pci nsid qcount =
    let c = i.controller in
    let n = nvme_create c.cap c.rdtsec in
    if i.init_ok
    then then_do (adminq_create n c old 64 last_id) (set_up c n old pci nsid qcount)
    else exits

-- `dev->refcount++` and the new session of device `p`, with the admin queue behind its identify.
unfoldable pub join : OpenInput → Driver → (adminq : NvmeQueue) → (p nsid : ℕ) → Driver
unfolding ns_init list_add
join i d adminq p nsid =
    let dev = d.device p in
    let dev' = record dev {
      refcount = dev.refcount + 1;
      adminq = record dev.adminq { nvmeq = adminq };
    } in
    let s : Session = record { dev = p; ns = ns_init dev.ns nsid i.ns.idns } in
    let l = list_add d.links d.ses i.fresh_ses in
    record (set_session (set_device d p dev') i.fresh_ses s) {
      links = l.links;
      ses = l.head;
      locked = false;
    }

-- The end of unvme_do_open, with the identify of unvme_ns_init.
unfoldable pub add_session : OpenInput → Driver → (p nsid : ℕ) → Outcome Opened
unfolding nvme_acmd_identify join
add_session i d p nsid =
    let dev = d.device p in
    let w = nvme_acmd_identify i.ns.polls dev.adminq.nvmeq dev.nvmedev.rdtsec nsid i.ns.dma 0 in
    on_zero w.ret (returns (record { ret = some i.fresh_ses; driver = join i d w.queue p nsid }))

-- A new device is stored; a refused namespace ends the call at once, with the lock taken.
unfoldable pub store : OpenInput → Driver → (nsid : ℕ) → Option NewDevice → Outcome Opened
unfolding add_session
store i d nsid none = returns (record { ret = none; driver = d })
store i d nsid (some n) =
    add_session i (record (set_device d i.fresh_dev n.dev) { last_id = n.last_id }) i.fresh_dev nsid

-- The part of unvme_do_open behind the search, with what that has found.
unfoldable pub enter : OpenInput → Driver → (pci nsid qcount : ℕ) → Option Found → Outcome Opened
unfolding new_device store add_session
enter i d pci nsid qcount none = hangs
enter i d pci nsid qcount (some refused) = returns (record { ret = none; driver = d })
enter i d pci nsid qcount (some (session x)) = add_session i d (d.session x).dev nsid
enter i d pci nsid qcount (some absent) =
    then_do (new_device i (d.device i.fresh_dev).adminq d.last_id pci nsid qcount) (store i d nsid)

-- unvme_do_open(pci, nsid, qcount, qsize); its `qsize` is not used.
unfoldable pub do_open : OpenInput → Driver → (pci nsid qcount qsize : ℕ) → Outcome Opened
unfolding open_log search enter
do_open i d pci nsid qcount qsize =
    if d.locked
    then hangs
    else then_do (open_log i.log_opens (record d { locked = true }))
        (λ t. enter i t pci nsid qcount (search i.sessions t pci nsid t.ses))
