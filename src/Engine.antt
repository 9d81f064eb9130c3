-- ===== src/Engine.antt =====
-- The fio engine, ioengine/unvme_fio.c: fio_unvme_queue, fio_unvme_getevents and
-- fio_unvme_event, for the queue of one thread.
pub mod Events
pub mod Served
pub mod Reaping
pub mod Setup
pub mod Once
mod Tests
use sxaurora_unvme.Base.{
  ℕ, zero, suc, ◌+◌, ◌-◌, ◌/◌, ◌^◌, List, [], ◌∷◌, ◌++◌, Bool, true, false, ◌&&◌, not, Option, none,
  some, ℤ, pos, negsuc, ◌==◌, leb, ltb, ◌||◌, ◌*◌, ◌%◌, if◌then◌else◌, length, get_or,
}
use sxaurora_unvme.Core.State.{Io, ok, fatal, and_then, endless, Cmd, pure, ◌>>=◌}
use sxaurora_unvme.Core.Prps.{Region, Namespace}
use sxaurora_unvme.Session.Types.{NsInfo}
use sxaurora_unvme.Api.{apoll, aread, awrite}

-- `io_u->ddir`
pub data Ddir : Type 0 where
  ddir_read : Ddir
  ddir_write : Ddir
  ddir_other : Ddir

-- `struct io_u`, the fields that the engine uses; `engine_data` is the descriptor, and `flight` is
-- whether IO_U_F_FLIGHT is set.
pub record IoUnit : Type 0 where
  pub engine_data : ℕ
  pub flight : Bool
  pub buf : ℕ
  pub offset : ℕ
  pub ddir : Ddir

-- What do_unvme_init asks of a thread: it has a queue of its own, with room for its requests.
unfoldable pub within_limits : NsInfo → (thread_number iodepth : ℕ) → Bool
within_limits ns thread_number iodepth = not (ltb ns.qcount thread_number || leb ns.qsize iodepth)

-- fio_unvme_get_file_size: `f->real_file_size`
unfoldable pub file_size : NsInfo → ℕ
file_size ns = ns.blockcount * ns.blocksize % 2 ^ 64

-- FIO_Q_QUEUED and FIO_Q_COMPLETED
pub data Queued : Type 0 where
  queued : IoUnit → Queued
  completed : Queued

-- `if ((io_u->engine_data = …)) return FIO_Q_QUEUED; FATAL(…)`
abbrev put_iod : IoUnit → ℕ → Cmd Queued
put_iod u iod s = if iod == 0 then fatal else ok (queued (record u { engine_data = iod })) s

-- fio_unvme_queue(td, io_u), where `unvme.nlb` is `nlb`
unfoldable pub fio_queue : Region → Namespace → (fresh qid nlb : ℕ) → IoUnit → Cmd Queued
unfolding aread awrite
fio_queue r ns fresh qid nlb u =
    let slba = u.offset / 2 ^ ns.blockshift in
    elim u.ddir [
      | ddir_read ↦ aread r ns fresh qid u.buf slba nlb >>= put_iod u
      | ddir_write ↦ awrite r ns fresh qid u.buf slba nlb >>= put_iod u
      | ddir_other ↦ pure completed
    ]

-- What the walk over the units leaves: the units, the events so far, each the number of a unit, and
-- whether fio_unvme_getevents returns.
pub record Walk : Type 0 where
  pub units : List IoUnit
  pub iocq : List ℕ
  pub stop : Bool

abbrev pub is_waiting : IoUnit → Bool
is_waiting u = not (u.engine_data == 0) && u.flight

abbrev pub behind_unit : IoUnit → Walk → Cmd Walk
behind_unit u w = pure (record w { units = u ∷ w.units })

-- What a poll says of the unit: it is done, it is not, or an error.
pub data Polled : Type 0 where
  done : Polled
  waits : Polled
  broken : Polled

abbrev pub polled : ℤ → Polled
polled (pos n) = if n == 0 then done else broken
polled (negsuc n) = if n == 0 then waits else broken

-- What follows the poll of unit `k`, where `next` is the walk over the units behind it.
unfoldable pub reap :
    (min max k : ℕ)
    → (iocq : List ℕ) → (u : IoUnit) → (us : List IoUnit) → (next : List ℕ → Cmd Walk) → Polled
    → Cmd Walk
reap min max k iocq u us next done s =
    let u' = record u { engine_data = 0 } in
    let iocq' = iocq ++ k ∷ [] in
    if length iocq' == max
    then ok (record { units = u' ∷ us; iocq = iocq'; stop = true }) s
    else and_then (next iocq' s) (behind_unit u')
reap min max k iocq u us next waits s =
    if leb min (length iocq)
    then ok (record { units = u ∷ us; iocq = iocq; stop = true }) s
    else and_then (next iocq s) (behind_unit u)
reap min max k iocq u us next broken s = fatal

-- `io_u_qiter(&td->io_u_all, io_u, i) …` over the units from number `k` on
unfoldable pub walk_units : (min max k : ℕ) → List IoUnit → (iocq : List ℕ) → Cmd Walk
unfolding apoll reap
walk_units min max k [] iocq s = ok (record { units = []; iocq = iocq; stop = false }) s
walk_units min max k (u ∷ us) iocq s =
    let next = walk_units min max (k + 1) us in
    if is_waiting u
    then and_then (apoll u.engine_data 0 s) (λ stat. reap min max k iocq u us next (polled stat))
    else and_then (next iocq s) (behind_unit u)

-- fio_unvme_getevents(td, min, max, t), whose result is the number of the events; `endless` past
-- the rounds given
unfoldable pub getevents : (rounds min max : ℕ) → List IoUnit → (iocq : List ℕ) → Cmd Walk
unfolding walk_units
getevents zero min max us iocq s = endless
getevents (suc n) min max us iocq s =
    and_then (walk_units min max 0 us iocq s)
      (λ w t. let rest = getevents n min max w.units w.iocq t in if w.stop then ok w t else rest)

-- fio_unvme_event(td, event): the number of the unit
unfoldable pub fio_event : (iocq : List ℕ) → (event : ℕ) → ℕ
fio_event iocq event = get_or iocq event 0
