-- ===== src/Session/Limits.antt =====
-- What unvme_do_open and unvme_ns_init of src/unvme_core.c compute from the data of a controller and
-- of a namespace. A field of `unvme_ns_t` is a u16, if it is not said to be wider.
use sxaurora_unvme.Base.{
  ℕ, zero, suc, ◌+◌, ◌-◌, ◌*◌, ◌/◌, ◌%◌, ◌^◌, List, ◌==◌, ltb, if◌then◌else◌, get_or, set, length,
  min, bit_and,
}
use sxaurora_unvme.Nvme.Setup.{NvmeDevice}
use sxaurora_unvme.Core.Prps.{Namespace}
use sxaurora_unvme.Session.Types.{IdentifyCtlr, IdentifyNs, DeviceName, NsInfo}

-- `for (i = size - 1; i > 0 && s[i] == ' '; i--) s[i] = 0;` from `i` on
unfoldable pub trim_from : (i : ℕ) → List ℕ → List ℕ
trim_from zero s = s
trim_from (suc i) s =
    let rest = trim_from i (set s (suc i) 0) in if get_or s (suc i) 0 == 0x20 then rest else s

unfoldable pub trim : List ℕ → List ℕ
unfolding trim_from
trim s = trim_from (length s - 1) s

-- `pci >> 16` of an `int` with these 32 bits, which takes its sign along, as %02x prints it
unfoldable pub shift_right_16 : (bits : ℕ) → ℕ
shift_right_16 bits =
    let high = bits / 2 ^ 16 in if ltb bits (2 ^ 31) then high else high + 0xffff0000

-- `sprintf(ns->device, …, pci >> 16, (pci >> 8) & 0xff, pci & 0xff)`
unfoldable pub device_name : (pci : ℕ) → DeviceName
unfolding shift_right_16
device_name pci =
    let bits = pci % 2 ^ 32 in
    record {
      bus = shift_right_16 bits;
      slot = bit_and (bits / 2 ^ 8) 0xff;
      func = bit_and bits 0xff;
    }

-- `ns->maxppio`: one page of PRP entries, or what the device allows. A `mdts` above 30 shifts an
-- `int` too far, which C leaves undefined.
unfoldable pub max_pages : (pagesize mdts : ℕ) → ℕ
max_pages pagesize mdts =
    let limit = pagesize / 8 in
    let mp = 2 * 2 ^ (mdts - 1) in if mdts == 0 then limit else if ltb mp limit then mp else limit

-- The namespace of the controller, up to the number of its queues.
unfoldable pub ctlr_ns : (pci : ℕ) → NvmeDevice → IdentifyCtlr → NsInfo
unfolding trim device_name max_pages
ctlr_ns pci dev idc =
    let pagesize = 2 ^ dev.pageshift % 2 ^ 16 in
    record {
      pci = pci % 2 ^ 32;
      id = 0;
      vid = idc.vid;
      device = device_name pci;
      nsid = 0;
      mn = trim idc.mn;
      sn = trim idc.sn;
      fr = trim idc.fr;
      blockcount = 0;
      pagecount = 0;
      blocksize = 0;
      pagesize = pagesize;
      blockshift = 0;
      pageshift = dev.pageshift;
      bpshift = 0;
      nbpp = 0;
      maxbpio = 0;
      maxppio = max_pages pagesize idc.mdts;
      maxiopq = 0;
      nscount = idc.nn % 2 ^ 16;
      qcount = 0;
      maxqcount = 0;
      qsize = 0;
      maxqsize = dev.maxqsize;
    }

-- `(nq.nsq < nq.ncq ? nq.nsq : nq.ncq) + 1`, where `res` holds the two
unfoldable pub max_qcount : (res : ℕ) → ℕ
max_qcount res = min (res % 2 ^ 16) (res / 2 ^ 16 % 2 ^ 16) + 1

-- The number and the size of the queues. What `qsize` asks for is overwritten with 256.
unfoldable pub set_queues : NsInfo → (res qcount : ℕ) → NsInfo
unfolding max_qcount
set_queues ns res qcount = record ns {
  maxqcount = max_qcount res;
  qcount = if qcount == 0 then max_qcount res else qcount;
  qsize = 256;
}

-- `idns->lbaf[idns->flbas & 0xF].lbads`
unfoldable pub block_shift : IdentifyNs → ℕ
block_shift idns =
    (get_or idns.lbaf (bit_and idns.flbas 0xF) (record { ms = 0; lbads = 0; rp = 0 })).lbads

-- The assignments of unvme_ns_init(ns, nsid). A shift by a `bpshift` that has wrapped is undefined in
-- C. `blockcount` and `pagecount` are u64.
unfoldable pub ns_init : NsInfo → (nsid : ℕ) → IdentifyNs → NsInfo
unfolding block_shift
ns_init ns nsid idns =
    let blockshift = block_shift idns in
    let bpshift = (ns.pageshift + 2 ^ 16 - blockshift) % 2 ^ 16 in
    record ns {
      id = nsid % 2 ^ 16;
      nsid = nsid;
      maxiopq = (ns.qsize + 2 ^ 32 - 1) % 2 ^ 16;
      blockcount = idns.ncap;
      blockshift = blockshift;
      blocksize = 2 ^ blockshift % 2 ^ 16;
      bpshift = bpshift;
      nbpp = 2 ^ bpshift % 2 ^ 16;
      pagecount = idns.ncap / 2 ^ bpshift;
      maxbpio = ns.maxppio * 2 ^ bpshift % 2 ^ 16;
    }

-- The fields that I/O uses.
abbrev pub io_ns : NsInfo → Namespace
io_ns ns = record {
  id = ns.id;
  pagesize = ns.pagesize;
  pageshift = ns.pageshift;
  blockshift = ns.blockshift;
  maxbpio = ns.maxbpio;
}
