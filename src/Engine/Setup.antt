-- ===== src/Engine/Setup.antt =====
-- ioengine/unvme_fio.c, the set-up of the fio engine: do_unvme_init, do_unvme_cleanup, and the hooks
-- fio_unvme_init, fio_unvme_cleanup, fio_unvme_iomem_alloc, fio_unvme_iomem_free and
-- fio_unvme_get_file_size.
use sxaurora_unvme.Base.{
  true, false, ℕ, ◌/◌, ◌^◌, Bool, Option, none, some, leb, if◌then◌else◌, List, replicate,
}
use sxaurora_unvme.Core.Prps.{Region}
use sxaurora_unvme.Buddy.{Heap}
use sxaurora_unvme.Buddy.Memory.{Dma, Alloced, waits, doubles, exhausted, alloced}
use sxaurora_unvme.Session.Types.{
  Driver, OpenInput, Outcome, returns, aborts, faults, hangs, then_do,
}
use sxaurora_unvme.Session.Open.{Opened}
use sxaurora_unvme.Session.Queues.{Closing}
use sxaurora_unvme.Session.Close.{Closed}
use sxaurora_unvme.Api.{PciName, Scanned, open_name, close, alloc, free}
use sxaurora_unvme.Engine.{within_limits, file_size}

-- `unvme_context_t`, with the driver behind `ns`, which is a session.
pub record Context : Type 0 where
  pub mutex : Bool
  pub ns : Option ℕ
  pub ncpus : ℕ
  pub nlb : ℕ
  pub driver : Driver

-- `struct thread_data`, the fields that the engine uses; the file name is what sscanf reads from it as
-- %x.%x.%x.%x, with 1 for a fourth number that is not there.
pub record Thread : Type 0 where
  pub thread_number : ℕ
  pub iodepth : ℕ
  pub bs_read : ℕ
  pub filename : PciName
  pub nsid : ℕ

-- What the engine finds: the answers to unvme_open, and the number of processors.
pub record FioInput : Type 0 where
  pub answers : OpenInput
  pub ncpus : ℕ

-- The part under `if (!unvme.ns)`: what sprintf prints, unvme_open reads back.
unfoldable pub open_context : FioInput → Thread → Context → Outcome Context
open_context i td c =
    let name : Scanned = record {
      with_nsid = some (record { name = td.filename; nsid = td.nsid });
      without = some td.filename;
    } in
    then_do (open_name name i.answers c.driver) (λ (o : Opened). elim o.ret [
      | none ↦ aborts
      | some x ↦
          let ns = (o.driver.session x).ns in
          if leb ns.qsize td.iodepth
          then aborts
          else returns (record c {
            ns = some x;
            ncpus = i.ncpus;
            nlb = td.bs_read / 2 ^ ns.blockshift;
            driver = o.driver;
          })
    ])

-- `if (td->thread_number > … || td->o.iodepth >= …) FATAL(…)`
unfoldable pub check_limits : Thread → Context → Outcome Context
check_limits td c = elim c.ns [
  | none ↦ faults
  | some x ↦
      if within_limits (c.driver.session x).ns td.thread_number td.iodepth
      then returns c
      else aborts
]

-- pthread_mutex_lock(&unvme.mutex), which waits for ever where no other thread unlocks it
unfoldable pub mutex_lock : Context → Outcome Context
mutex_lock c = if c.mutex then hangs else returns (record c { mutex = true })

-- pthread_mutex_unlock(&unvme.mutex)
unfoldable pub mutex_unlock : Context → Outcome Context
mutex_unlock c = returns (record c { mutex = false })

-- `if (!unvme.ns) { … }`
unfoldable pub open_once : FioInput → Thread → Context → Outcome Context
open_once i td c = elim c.ns [ none ↦ open_context i td c | some x ↦ returns c ]

-- do_unvme_init(td)
unfoldable pub do_unvme_init : FioInput → Thread → Context → Outcome Context
unfolding mutex_lock mutex_unlock open_once check_limits
do_unvme_init i td c = then_do (mutex_lock c) (λ (locked : Context).
    then_do (open_once i td locked)
      (λ (joined : Context). then_do (check_limits td joined) mutex_unlock))

-- do_unvme_cleanup(), which exit calls: the session, and whether its device is freed
unfoldable pub do_unvme_cleanup : Closing → (release_ok : Bool) → Context → Outcome Context
do_unvme_cleanup cl release_ok c = elim c.ns [
  | none ↦ faults
  | some x ↦
      then_do (close cl release_ok c.driver x)
        (λ (r : Closed). returns (record c { ns = none; driver = r.driver }))
]

-- fio_unvme_init(td): `td->io_ops_data`, or none where calloc fails and it returns 1
unfoldable pub fio_init : (calloc_ok : Bool) → Thread → Option (List ℕ)
fio_init calloc_ok td = if calloc_ok then some (replicate td.iodepth 0) else none

-- `f->real_file_size` after fio_unvme_get_file_size(td, f), where `known` is the size, if fio has it
unfoldable pub get_file_size :
    FioInput
    → Thread
    → (known : Option ℕ) → Context
    → Outcome (record { size : Option ℕ; context : Context })
get_file_size i td (some n) c = returns (record { size = some n; context = c })
get_file_size i td none c = then_do (do_unvme_init i td c) (λ (c' : Context). elim c'.ns [
  | none ↦ faults
  | some x ↦ returns (record { size = some (file_size (c'.driver.session x).ns); context = c' })
])

-- `td->orig_buffer`, which is the structure that unvme_alloc returns and not its buffer, at the
-- address that malloc gives; and the heap.
pub record Buffer : Type 0 where
  pub orig_buffer : Option (record { at : ℕ; dma : Dma })
  pub heap : Heap
  pub context : Context

unfoldable pub buffer_of : (at : ℕ) → Context → Alloced → Outcome Buffer
buffer_of at c waits = hangs
buffer_of at c doubles = hangs
buffer_of at c exhausted = aborts
buffer_of at c (alloced d h) =
    returns (record { orig_buffer = some (record { at = at; dma = d }); heap = h; context = c })

-- fio_unvme_iomem_alloc(td, len), where `at` is what malloc returns; it returns 0.
unfoldable pub iomem_alloc : Region → FioInput → Thread → (at len : ℕ) → Buffer → Outcome Buffer
iomem_alloc r i td at len b =
    then_do (elim b.context.ns [ none ↦ do_unvme_init i td b.context | some x ↦ returns b.context ])
      (λ c. elim b.orig_buffer [
        | some o ↦ returns (record b { context = c })
        | none ↦ buffer_of at c (alloc r b.heap len)
      ])

-- fio_unvme_iomem_free(td), which leaves `td->orig_buffer` as it is
unfoldable pub iomem_free : Region → Buffer → Buffer
iomem_free r b = elim b.orig_buffer [ none ↦ b | some o ↦ record b { heap = free r b.heap o.dma } ]
