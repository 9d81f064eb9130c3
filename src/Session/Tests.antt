-- ===== src/Session/Tests.antt =====
-- Sessions of src/unvme_core.c on small states: a device at 400 with the sessions 500 and 501.
mod Created
mod Fio
use sxaurora_unvme.Base.{
  ◌+◌, map, ℕ, ◌*◌, ◌/◌, ◌^◌, ◌≤◌, ◌≡◌, Bool, true, false, List, [], ◌∷◌, some, none, arith, refl,
  pos, if◌then◌else◌, ◌==◌,
}
use sxaurora_unvme.Ring.Shape.{has}
use sxaurora_unvme.Core.Total.{total}
use sxaurora_unvme.Core.Prps.{numpages}
use sxaurora_unvme.Core.State.{Queue}
use sxaurora_unvme.Core.Init.{blank_queue}
use sxaurora_unvme.Nvme.Types.{NvmeQueue, SqEntry, rw_cmd}
use sxaurora_unvme.Nvme.Queue.{Poll}
use sxaurora_unvme.Nvme.Setup.{NvmeDevice}
use sxaurora_unvme.Nvme.Command.{nvme_acmd_identify}
use sxaurora_unvme.Session.Types.{
  IdentifyCtlr, IdentifyNs, NsInfo, Device, Driver, QueueMemory, OpenInput, Outcome, then_do,
  returns, aborts, exits, faults, hangs,
}
use sxaurora_unvme.Session.Limits.{io_ns, block_shift}
use sxaurora_unvme.Session.Bounds.{open_ns, open_ns-pages}
use sxaurora_unvme.Session.Queues.{Closing}
use sxaurora_unvme.Session.Table.{search, session, refused}
use sxaurora_unvme.Session.Open.{Opened, do_open}
use sxaurora_unvme.Session.Close.{Closed, do_close}
use sxaurora_unvme.Session.Lookup.{lookup, search-lookup}
use sxaurora_unvme.Session.Refs.{refs, IsDriver, Ends}
use sxaurora_unvme.Session.Opening.{Fresh, Opens, do_open-Opens}
use sxaurora_unvme.Session.Closing.{Closes, do_close-Closes, do_close-shared}
use sxaurora_unvme.Session.Sharing.{do_open-joins, do_open-refused}

abbrev no_entry : SqEntry
no_entry = record {
  common = record { opc = 0; cid = 0; nsid = 0; prp1 = 0; prp2 = 0 };
  body = rw_cmd 0 0;
}

abbrev admin0 : NvmeQueue
admin0 = record {
  id = 0;
  size = 64;
  sq = λ i. no_entry;
  sq_doorbell = 0;
  cq_doorbell = 1;
  sq_head = 0;
  sq_tail = 0;
  cq_head = 0;
  cq_phase = 0;
  ext = 0;
}

abbrev adminq : Queue
adminq = record (unfold blank_queue in blank_queue admin0 0x20000 (λ i. 0) 64) { nvmeq = admin0 }

-- A controller with pages of 4096 bytes.
abbrev nvmedev : NvmeDevice
nvmedev = record {
  rdtsec = 1000;
  timeout = 30;
  mpsmin = 0;
  mpsmax = 0;
  pageshift = 12;
  maxqsize = 1024;
  dbstride = 1;
}

abbrev idc : IdentifyCtlr
idc = record {
  vid = 0x8086;
  sn = 0x41 ∷ 0x20 ∷ [];
  mn = 0x42 ∷ [];
  fr = 0x43 ∷ [];
  mdts = 5;
  nn = 4;
}

abbrev idns : IdentifyNs
idns = record { ncap = 1000; flbas = 0; lbaf = record { ms = 0; lbads = 9; rp = 0 } ∷ [] }

abbrev ns_of : ℕ → NsInfo
ns_of nsid = record {
  pci = 0x30000;
  id = nsid;
  vid = 0x8086;
  device = record { bus = 3; slot = 0; func = 0 };
  nsid = nsid;
  mn = 0x42 ∷ [];
  sn = 0x41 ∷ 0 ∷ [];
  fr = 0x43 ∷ [];
  blockcount = 1000;
  pagecount = 125;
  blocksize = 512;
  pagesize = 4096;
  blockshift = 9;
  pageshift = 12;
  bpshift = 3;
  nbpp = 8;
  maxbpio = 256;
  maxppio = 32;
  maxiopq = 255;
  nscount = 4;
  qcount = 0;
  maxqcount = 4;
  qsize = 256;
  maxqsize = 1024;
}

abbrev dev_of : ℕ → Device
dev_of refcount = record {
  pci = 0x30000;
  nvmedev = nvmedev;
  adminq = adminq;
  refcount = refcount;
  ns = ns_of 0;
  ioqs = [];
}

abbrev device_map : ℕ → ℕ → Device
device_map n p = if p == 400 then dev_of n else dev_of 0

-- One session, of namespace 1; and two, of namespaces 1 and 2.
abbrev driver1 : Driver
driver1 = record {
  ses = 500;
  links = record { next = λ a. 500; prev = λ a. 500 };
  session = λ x. record { dev = 400; ns = ns_of 1 };
  device = device_map 1;
  locked = false;
  log = record { fp = true; count = 1 };
  last_id = 16;
}

abbrev driver2 : Driver
driver2 = record driver1 {
  links = record {
    next = λ a. if a == 500 then 501 else 500;
    prev = λ a. if a == 500 then 501 else 500;
  };
  session = λ x. record { dev = 400; ns = ns_of (if x == 500 then 1 else 2) };
  device = device_map 2;
}

driver1-IsDriver : IsDriver driver1 (500 ∷ [])
unfolding refs total
driver1-IsDriver = record {
  table = record {
    ring = (refl, refl, (refl, tt), (refl, refl));
    counted = λ p. ground arith;
    each = λ x on. record { same = refl; copied = refl };
    shared = λ x y on on' e. refl;
  };
  log = refl;
  users = refl;
  quiet = refl;
}

driver2-IsDriver : IsDriver driver2 (500 ∷ 501 ∷ [])
unfolding refs total
driver2-IsDriver = record {
  table = record {
    ring = (refl, refl, (refl, (refl, tt)), (refl, refl, (refl, refl)));
    counted = λ p. ground arith;
    each = λ x on. record { same = refl; copied = refl };
    shared = λ x y on on' e. refl;
  };
  log = refl;
  users = refl;
  quiet = refl;
}

-- The device completes the identify command at once.
abbrev answered : List Poll
answered =
    record { cq = λ i. record { cs = 0; sqhd = 1; sqid = 0; cid = 0; psf = 1 }; start = 5; now = 6 }
    ∷ []

abbrev memory : QueueMemory
memory = record { fresh = []; prpaddr = 0; prpmem = λ i. 0; sqpa = 0; cqpa = 0; sq = λ i. no_entry }

abbrev input : OpenInput
input = record {
  log_opens = true;
  init_ok = true;
  fresh_dev = 402;
  fresh_ses = 501;
  controller = record {
    cap = 0;
    rdtsec = 1000;
    adminmem = memory;
    cc = 0;
    csts_off = [];
    csts_on = [];
    identify_dma = 0;
    identify = [];
    idc = idc;
    features = [];
    after = λ i. record { cs = 0; sqhd = 0; sqid = 0; cid = 0; psf = 0 };
    ioq = λ i. record { mem = memory; create_cq = []; create_sq = [] };
  };
  ns = record { dma = 0x1000; polls = answered; idns = idns };
  sessions = 2;
}

input-Fresh : Fresh input driver1 (500 ∷ [])
input-Fresh = record { live = λ e. ground arith; ses = refl; dev = λ x on e. ground arith }

identified : (nvme_acmd_identify answered admin0 1000 2 0x1000 0).ret ≡ some (pos 0)
unfolding nvme_acmd_identify
identified = refl

found1 : lookup driver1 0x30000 2 (500 ∷ []) ≡ session 500
unfolding lookup
found1 = refl

refused1 : lookup driver1 0x30000 1 (500 ∷ []) ≡ refused
unfolding lookup
refused1 = refl

search-lookup_example : search 2 driver1 0x30000 2 500 ≡ some (lookup driver1 0x30000 2 (500 ∷ []))
search-lookup_example =
    search-lookup 2 driver1 0x30000 2 (500 ∷ []) (omega arith) driver1-IsDriver.table.ring

do_open-Opens_example : Ends (Opens input (500 ∷ [])) (do_open input driver1 0x30000 2 0 0)
do_open-Opens_example =
    do_open-Opens input driver1 (500 ∷ []) 0x30000 2 0 0 driver1-IsDriver input-Fresh (omega arith)

do_open-joins_example :
    (t : Driver) × (do_open input driver1 0x30000 2 0 0
      ≡ returns (record { ret = some 501; driver = t }))
    × IsDriver t (500 ∷ 501 ∷ [])
    × ((t.session 501).dev ≡ 400)
do_open-joins_example =
    do_open-joins input driver1 (500 ∷ []) 0x30000 2 0 0 driver1-IsDriver (omega arith) 500
      input-Fresh found1 identified

do_open-refused_example :
    (t : Driver) × (do_open input driver1 0x30000 1 0 0
      ≡ returns (record { ret = none; driver = t }))
    × ((j : OpenInput) (pci nsid qcount qsize : ℕ) → do_open j t pci nsid qcount qsize ≡ hangs)
    × ((c : Closing) (ok : Bool) (y : ℕ) → has y (500 ∷ []) ≡ true → do_close c ok t y ≡ hangs)
do_open-refused_example =
    do_open-refused input driver1 (500 ∷ []) 0x30000 1 0 0 driver1-IsDriver (omega arith) refused1

abbrev closing : Closing
closing = record { delete_sq = λ q. []; delete_cq = λ q. []; free_count = 0 }

do_close-Closes_example : Ends (Closes driver1 (500 ∷ []) 500) (do_close closing true driver1 500)
do_close-Closes_example = do_close-Closes driver1 (500 ∷ []) 500 driver1-IsDriver refl closing true

do_close-shared_example :
    (r : Closed) × (do_close closing true driver2 500 ≡ returns r)
    × (r.ret ≡ pos 0)
    × (r.freed ≡ 500 ∷ [])
    × IsDriver r.driver (501 ∷ [])
do_close-shared_example =
    do_close-shared driver2 (500 ∷ 501 ∷ []) 500 driver2-IsDriver refl closing true 501 refl refl

small : block_shift idns ≤ 12
unfolding block_shift
small = omega arith

most : 256 ≤ (open_ns 0x30000 nvmedev idc 0x30003 0 1 idns).maxbpio
unfolding open_ns
most = omega arith

open_ns-pages_example :
    numpages
      (io_ns (open_ns 0x30000 nvmedev idc 0x30003 0 1 idns))
      (256 * 2 ^ (open_ns 0x30000 nvmedev idc 0x30003 0 1 idns).blockshift)
    ≤ 2 ^ 12 / 8
open_ns-pages_example =
    open_ns-pages 0x30000 nvmedev idc 0x30003 0 1 idns (omega arith) small 256 most

-- No session is open.
abbrev driver0 : Driver
driver0 = record {
  ses = 0;
  links = record { next = λ a. 0; prev = λ a. 0 };
  session = λ x. record { dev = 0; ns = ns_of 0 };
  device = λ p. dev_of 0;
  locked = false;
  log = record { fp = false; count = 0 };
  last_id = 0;
}

driver0-IsDriver : IsDriver driver0 []
unfolding refs total
driver0-IsDriver = record {
  table = record {
    ring = refl;
    counted = λ p. refl;
    each = λ x on. ground arith;
    shared = λ x y on on' e. ground arith;
  };
  log = refl;
  users = refl;
  quiet = refl;
}

-- The device completes command `cid` of the admin queue at once.
abbrev answer : ℕ → List Poll
answer cid =
    record {
      cq = λ i. record { cs = 0; sqhd = cid + 1; sqid = 0; cid = cid; psf = 1 };
      start = 5;
      now = 6;
    }
    ∷ []

abbrev new_input : OpenInput
new_input = record input {
  controller = record {
    cap = 0xff + 30 * 2 ^ 24;
    rdtsec = 1000;
    adminmem = record memory { fresh = 101 ∷ 102 ∷ [] };
    cc = 0;
    csts_off = 0 ∷ [];
    csts_on = 1 ∷ [];
    identify_dma = 0;
    identify = answer 0;
    idc = idc;
    features = answer 1;
    after = λ i. record { cs = 0; sqhd = 0; sqid = 0; cid = 0; psf = 0 };
    ioq = λ i. record {
      mem = record memory { fresh = 201 ∷ 202 ∷ [] };
      create_cq = answer 2;
      create_sq = answer 3;
    };
  };
  ns = record { dma = 0x1000; polls = answer 4; idns = idns };
}

abbrev ioq_sizes : Outcome Opened → List ℕ
ioq_sizes (returns o) = map (λ (q : Queue). q.size) (o.driver.device 402).ioqs
ioq_sizes aborts = []
ioq_sizes exits = []
ioq_sizes faults = []
ioq_sizes hangs = []

-- The first session of a device with one I/O queue.
first_open : ioq_sizes (do_open new_input driver0 0x30000 1 0 0) ≡ 256 ∷ []
unfolding do_open
first_open = refl

abbrev new_closing : Closing
new_closing = record { delete_sq = λ q. answer 5; delete_cq = λ q. answer 6; free_count = 2 }

abbrev freed_of : Outcome Closed → List ℕ
freed_of (returns c) = c.freed
freed_of aborts = []
freed_of exits = []
freed_of faults = []
freed_of hangs = []

abbrev close_of : Outcome Opened → Outcome Closed
unfolding do_close
close_of o = then_do o (λ r. do_close new_closing true r.driver 501)

-- Closing it frees the descriptors of both queues, the device and the session.
first_close :
    freed_of (close_of (do_open new_input driver0 0x30000 1 0 0))
    ≡ 201 ∷ 202 ∷ 101 ∷ 102 ∷ 402 ∷ 501 ∷ []
unfolding do_open do_close
first_close = refl
