-- ===== src/Api.antt =====
-- The interface for users, src/unvme.c, as it is built without UNVME_MEM.
pub mod Names
pub mod Transfer
pub mod Answer
pub mod Memory
pub mod Stored
pub mod InOrder
pub mod First
mod Tests
use sxaurora_unvme.Base.{
  ◌%◌, ℕ, ◌+◌, ◌*◌, ◌^◌, List, Bool, true, false, ◌||◌, Option, none, some, ℤ, pos, negsuc, ◌==◌,
  if◌then◌else◌,
}
use sxaurora_unvme.Nvme.Command.{cmd_read_op, cmd_write_op}
use sxaurora_unvme.Core.State.{ok, Cmd, pure, ◌>>=◌}
use sxaurora_unvme.Core.Complete.{Status}
use sxaurora_unvme.Core.Prps.{Region, Namespace}
use sxaurora_unvme.Core.Submit.{unvme_timeout, do_poll, do_rw, do_cmd}
use sxaurora_unvme.Buddy.{Heap}
use sxaurora_unvme.Buddy.Memory.{
  Dma, Alloced, mem_alloc, mem_free, do_alloc, do_free, do_alloc2, do_free2,
}
use sxaurora_unvme.Session.Types.{Driver, Outcome, returns, OpenInput}
use sxaurora_unvme.Session.Open.{Opened, do_open}
use sxaurora_unvme.Session.Queues.{Closing}
use sxaurora_unvme.Session.Close.{Closed, do_close}

-- What `sscanf` reads from a device name: %x:%x.%x.
pub record PciName : Type 0 where
  pub b : ℕ
  pub d : ℕ
  pub f : ℕ

-- What the two calls of `sscanf` do with a device name: `some`, where all of their numbers are read.
pub record Scanned : Type 0 where
  pub with_nsid : Option (record { name : PciName; nsid : ℕ })
  pub without : Option PciName

-- The 32 bits of the `int` `(b << 16) + (d << 8) + f`, where a sum that an `int` does not hold wraps
unfoldable pub pci_of : PciName → ℕ
pci_of n = (n.b * 2 ^ 16 + n.d * 2 ^ 8 + n.f) % 2 ^ 32

abbrev is_negative : ℤ → Bool
is_negative (pos n) = false
is_negative (negsuc n) = true

abbrev to_nat : ℤ → ℕ
to_nat (pos n) = n
to_nat (negsuc n) = 0

-- The name with the namespace, which is 1 if it is not given.
unfoldable pub parse : Scanned → Option (record { name : PciName; nsid : ℕ })
parse s = elim s.with_nsid [
  | some n ↦ some n
  | none ↦ elim s.without [ some n ↦ some (record { name = n; nsid = 1 }) | none ↦ none ]
]

-- unvme_openq(pciname, qcount, qsize)
unfoldable pub openq : Scanned → OpenInput → Driver → (qcount qsize : ℤ) → Outcome Opened
unfolding parse pci_of do_open
openq s i d qcount qsize =
    let refused : Outcome Opened = returns (record { ret = none; driver = d }) in
    let opened : Outcome Opened = elim (parse s) [
      | none ↦ refused
      | some n ↦ do_open i d (pci_of n.name) n.nsid (to_nat qcount) (to_nat qsize)
    ] in
    if is_negative qcount || is_negative qsize || to_nat qsize == 1 then refused else opened

-- unvme_open(pciname)
unfoldable pub open_name : Scanned → OpenInput → Driver → Outcome Opened
unfolding openq
open_name s i d = openq s i d (pos 0) (pos 0)

-- unvme_close(ns)
unfoldable pub close : Closing → (release_ok : Bool) → Driver → (ses : ℕ) → Outcome Closed
unfolding do_close
close c release_ok d ses = do_close c release_ok d ses

-- unvme_acmd(ns, qid, opc, nsid, buf, bufsz, cdw10_15)
unfoldable pub acmd :
    Region → Namespace → (fresh qid opc nsid buf bufsz : ℕ) → Option (List ℕ) → Cmd (Option ℕ)
unfolding do_cmd
acmd r ns fresh qid opc nsid buf bufsz words = do_cmd r ns fresh qid opc nsid buf bufsz words

-- unvme_aread(ns, qid, buf, slba, nlb)
unfoldable pub aread : Region → Namespace → (fresh qid buf slba nlb : ℕ) → Cmd ℕ
unfolding do_rw
aread r ns fresh qid buf slba nlb = do_rw r ns fresh qid cmd_read_op buf slba nlb

-- unvme_awrite(ns, qid, buf, slba, nlb)
unfoldable pub awrite : Region → Namespace → (fresh qid buf slba nlb : ℕ) → Cmd ℕ
unfolding do_rw
awrite r ns fresh qid buf slba nlb = do_rw r ns fresh qid cmd_write_op buf slba nlb

-- unvme_apoll_cs(iod, timeout, &cs)
unfoldable pub apoll_cs : (iod timeout : ℕ) → Cmd Status
unfolding do_poll
apoll_cs iod timeout = do_poll iod timeout

-- unvme_apoll(iod, timeout)
unfoldable pub apoll : (iod timeout : ℕ) → Cmd ℤ
unfolding do_poll
apoll iod timeout = do_poll iod timeout >>= λ st. pure st.err

-- unvme_cmd(ns, qid, opc, nsid, buf, bufsz, cdw10_15, &cs); `cs` is set where a completion is seen.
unfoldable pub cmd :
    Region → Namespace → (fresh qid opc nsid buf bufsz : ℕ) → Option (List ℕ) → Cmd Status
unfolding acmd apoll_cs
cmd r ns fresh qid opc nsid buf bufsz words =
    acmd r ns fresh qid opc nsid buf bufsz words >>= λ iod. elim iod [
      | some p ↦ apoll_cs p unvme_timeout
      | none ↦ pure (record { err = negsuc 0; cs = none })
    ]

-- `if (iod) return unvme_apoll(iod, UNVME_TIMEOUT); return -1;`
abbrev pub poll_iod : ℕ → Cmd ℤ
unfolding apoll
poll_iod iod = if iod == 0 then pure (negsuc 0) else apoll iod unvme_timeout

-- unvme_read(ns, qid, buf, slba, nlb)
unfoldable pub read : Region → Namespace → (fresh qid buf slba nlb : ℕ) → Cmd ℤ
unfolding aread apoll
read r ns fresh qid buf slba nlb = aread r ns fresh qid buf slba nlb >>= poll_iod

-- unvme_write(ns, qid, buf, slba, nlb)
unfoldable pub write : Region → Namespace → (fresh qid buf slba nlb : ℕ) → Cmd ℤ
unfolding awrite apoll
write r ns fresh qid buf slba nlb = awrite r ns fresh qid buf slba nlb >>= poll_iod

-- unvme_alloc(ns, size) and unvme_alloc2(ns, dma, size), which takes the structure from its caller
unfoldable pub alloc : Region → Heap → (size : ℕ) → Alloced
unfolding do_alloc
alloc r h size = do_alloc r h size

unfoldable pub alloc2 : Region → Heap → (size : ℕ) → Alloced
unfolding do_alloc2
alloc2 r h size = do_alloc2 r h size

-- unvme_free(ns, dma) and unvme_free2(ns, dma); both return 0.
unfoldable pub free : Region → Heap → Dma → Heap
unfolding do_free
free r h d = do_free r h d

unfoldable pub free2 : Region → Heap → Dma → Heap
unfolding do_free2
free2 r h d = do_free2 r h d
