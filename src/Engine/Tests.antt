-- ===== src/Engine/Tests.antt =====
-- The fio engine on a queue of four entries with one read in flight.
use sxaurora_unvme.Base.{pos, ℕ, ◌≡◌, List, [], ◌∷◌, true, arith, refl}
use sxaurora_unvme.Nvme.Types.{NvmeQueue, rw_cmd}
use sxaurora_unvme.Core.State.{Io, Run, ok, fatal, fault, undefined, endless}
use sxaurora_unvme.Core.Prps.{Region, Namespace}
use sxaurora_unvme.Core.Init.{blank_queue}
use sxaurora_unvme.Engine.{IoUnit, ddir_read, Queued, Walk, queued, completed, fio_queue, getevents}
use sxaurora_unvme.Engine.Events.{Returns}
use sxaurora_unvme.Engine.Served.{served, passed, hit, getevents-Serves}
use sxaurora_unvme.Api.{apoll}
use sxaurora_unvme.Engine.Reaping.{Reaped, waiting, getevents-Reaps, getevents-idle}

abbrev nvmeq : NvmeQueue
nvmeq = record {
  id = 1;
  size = 4;
  sq = λ i. record {
    common = record { opc = 0; cid = 0; nsid = 0; prp1 = 0; prp2 = 0 };
    body = rw_cmd 0 0;
  };
  sq_doorbell = 2;
  cq_doorbell = 3;
  sq_head = 0;
  sq_tail = 0;
  cq_head = 0;
  cq_phase = 0;
  ext = 0;
}

-- The device completes command 0.
abbrev start : Io
start = record {
  queue = unfold blank_queue in blank_queue nvmeq 0x10000 (λ i. 0) 4;
  polls =
      record {
        cq = λ i. record { cs = 0; sqhd = 1; sqid = 1; cid = 0; psf = 1 };
        start = 5;
        now = 6;
      }
      ∷ [];
  rings = [];
  last_id = 0;
  rdtsec = 1000;
}

abbrev region : Region
region = record { vemva = 0x1000; pci_vhsaa = 0x800000 }

abbrev namespace : Namespace
namespace = record { id = 1; pagesize = 4096; pageshift = 12; blockshift = 9; maxbpio = 8 }

abbrev idle_unit : IoUnit
idle_unit = record { engine_data = 0; flight = true; buf = 0x3000; offset = 4096; ddir = ddir_read }

abbrev then_reap : Run Queued → Run Walk
unfolding getevents
then_reap (ok (queued u) s) = getevents 1 1 1 (idle_unit ∷ u ∷ []) [] s
then_reap (ok completed s) = endless
then_reap fatal = fatal
then_reap fault = fault
then_reap undefined = undefined
then_reap endless = endless

abbrev events : Run Walk → List ℕ
events (ok w s) = w.iocq
events fatal = []
events fault = []
events undefined = []
events endless = []

-- The read of unit 1 is queued, and reaped.
one_event : events (then_reap (fio_queue region namespace 100 0 8 idle_unit start)) ≡ 1 ∷ []
unfolding fio_queue getevents blank_queue
one_event = refl

busy_unit : IoUnit
busy_unit = record idle_unit { engine_data = 100 }

none_waits : waiting (idle_unit ∷ []) ≡ 0
unfolding waiting
none_waits = refl

getevents-idle_example : getevents 3 1 4 (idle_unit ∷ []) (1 ∷ 2 ∷ []) start ≡ endless
getevents-idle_example = getevents-idle 1 4 3 (idle_unit ∷ []) (1 ∷ 2 ∷ []) start none_waits

abbrev io_of : {A : Type 0} → Run A → Io
io_of (ok a s) = s
io_of fatal = start
io_of fault = start
io_of undefined = start
io_of endless = start

-- The read is queued, and then polled.
in_flight : Io
unfolding fio_queue blank_queue
in_flight = io_of (fio_queue region namespace 100 0 8 idle_unit start)

getevents-Reaps_example :
    Returns
      (Reaped 1 1 (idle_unit ∷ busy_unit ∷ []) in_flight)
      (getevents 3 1 1 (idle_unit ∷ busy_unit ∷ []) [] in_flight)
getevents-Reaps_example = getevents-Reaps 1 1 3 (idle_unit ∷ busy_unit ∷ []) in_flight (omega arith)

polled_once : Io
unfolding apoll in_flight
polled_once = io_of (apoll 100 0 in_flight)

polled_once-ok : apoll 100 0 in_flight ≡ ok (pos 0) polled_once
unfolding polled_once apoll in_flight
polled_once-ok = refl

getevents-Serves_example :
    (w : Walk) × (getevents 3 1 1 (idle_unit ∷ busy_unit ∷ []) [] in_flight ≡ ok w polled_once)
    × (w.iocq ≡ 1 ∷ [])
unfolding busy_unit
getevents-Serves_example =
    getevents-Serves 1 1 2 (idle_unit ∷ busy_unit ∷ []) in_flight polled_once (1 ∷ []) (omega arith)
      (passed 0 0 idle_unit (busy_unit ∷ []) in_flight (1 ∷ []) polled_once refl (
        hit 0 1 busy_unit [] in_flight polled_once [] polled_once refl polled_once-ok
          (served 2 [] polled_once)))
