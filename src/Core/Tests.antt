-- ===== src/Core/Tests.antt =====
-- Runs of the queue of src/unvme_core.c on small states.
mod Answer
mod First
use sxaurora_unvme.Base.{
  ◌/◌, ℕ, suc, ◌+◌, ◌*◌, ◌%◌, ◌^◌, ◌<◌, ◌≡◌, ◌≢◌, true, false, List, [], ◌∷◌, arith, refl, none,
  sym, ap, some, pos,
}
use sxaurora_unvme.CidMask.{mask_test, mask_test-zero}
use sxaurora_unvme.CidMask.Count.{count}
use sxaurora_unvme.Nvme.Types.{NvmeQueue, zero_entry, SqEntry, rw_cmd, CqEntry}
use sxaurora_unvme.Nvme.Queue.{Completion, Poll}
use sxaurora_unvme.Nvme.Fifo.{posted}
use sxaurora_unvme.Core.State.{Queue, Io, Run, ok, fatal, fault, undefined, endless}
use sxaurora_unvme.Core.Total.{total}
use sxaurora_unvme.Core.Desc.{zalloc_desc, desc_get, desc_put}
use sxaurora_unvme.Core.Complete.{complete}
use sxaurora_unvme.Core.Prps.{Region, Namespace, resolve_addr, numpages, prps_at}
use sxaurora_unvme.Core.Submit.{get_cid, submit_io, poll_desc, do_poll, rw_loop}
use sxaurora_unvme.Core.Invariant.{IsQueue, one_if}
use sxaurora_unvme.Core.Clean.{queue_cleanup}
use sxaurora_unvme.Core.Keep.Freed.{queue_cleanup-all}
use sxaurora_unvme.Core.Keep.Get.{Gotten, desc_get-Gotten}
use sxaurora_unvme.Core.Keep.Put.{Returned, desc_put-Returned}
use sxaurora_unvme.Core.Keep.Reserve.{Reserved, get_cid-Reserved}
use sxaurora_unvme.Core.Keep.Complete.{Released, status_of, complete-Released, complete-fatal}
use sxaurora_unvme.Core.Keep.Drain.{Settled, do_poll-Settled}
use sxaurora_unvme.Core.Keep.Io.{Submitted, submit_io-Submitted}
use sxaurora_unvme.Core.Keep.Chunks.{Chunks, Inside, rw_loop-Chunks}
use sxaurora_unvme.Api.{read, write}
use sxaurora_unvme.Api.Transfer.{Finished, transfer-Finished}
use sxaurora_unvme.Core.Keep.Pages.{prps_at-entries, prps_at-others}

abbrev no_command : SqEntry
no_command = record {
  common = record { opc = 0; cid = 0; nsid = 0; prp1 = 0; prp2 = 0 };
  body = rw_cmd 0 0;
}

abbrev nvme0 : NvmeQueue
nvme0 = record {
  id = 1;
  size = 4;
  sq = λ i. no_command;
  sq_doorbell = 2;
  cq_doorbell = 3;
  sq_head = 0;
  sq_tail = 0;
  cq_head = 0;
  cq_phase = 0;
  ext = 0;
}

-- A new queue of four entries.
abbrev queue0 : Queue
queue0 = record {
  nvmeq = nvme0;
  prpmem = λ i. 0;
  prpaddr = 0x10000;
  size = 4;
  cid = 0;
  cidcount = 0;
  desccount = 0;
  masksize = 8;
  cidmask = 0 ∷ [];
  desclist = 0;
  descfree = 0;
  descpend = 0;
  links = record { next = λ a. 0; prev = λ a. 0 };
  desc = λ a. unfold zalloc_desc in zalloc_desc 8 0;
}

abbrev io0 : Io
io0 = record { queue = queue0; polls = []; rings = []; last_id = 0; rdtsec = 1000 }

queue0-IsQueue : IsQueue queue0 [] []
unfolding total count mask_test
queue0-IsQueue = record {
  linked = record { used = refl; free = refl; apart = λ x h. refl; number = refl; pending = tt };
  shared = record {
    width = refl;
    fits = omega arith;
    bound = (omega arith, omega arith);
    next = omega arith;
    room = omega arith;
    counted = refl;
    owned = λ i. ap one_if (sym (mask_test-zero 1 i));
    low = λ i h. absurd (ground (arith, mask_test-zero 1 i));
  };
  descs = λ x h. ground arith;
  spare = λ x h. ground arith;
}

-- The addresses of the 16 descriptors of a new queue.
abbrev sixteen : List ℕ
sixteen =
    101 ∷ 102 ∷ 103 ∷ 104 ∷ 105 ∷ 106 ∷ 107 ∷ 108 ∷ 109 ∷ 110 ∷ 111 ∷ 112 ∷ 113 ∷ 114 ∷ 115 ∷ 116
    ∷ []

nonzero : (n : ℕ) → suc n ≢ 0
nonzero n = omega arith

state_of : {A : Type 0} → Run A → Io
state_of (ok a t) = t
state_of fatal = io0
state_of fault = io0
state_of undefined = io0
state_of endless = io0

valid_after :
    {A : Type 0} {r : Run A} {a : A} {t : Io} {xs ys : List ℕ}
    → r ≡ ok a t
    → IsQueue t.queue xs ys
    → IsQueue (state_of r).queue xs ys
unfolding state_of
valid_after e v = rw e v

-- With one descriptor in use
io1 : Io
io1 = state_of (desc_get 100 io0)

io1-IsQueue : IsQueue io1.queue (100 ∷ []) []
unfolding io1
io1-IsQueue =
    let (t, e, k) = desc_get-Gotten io0 [] [] 100 queue0-IsQueue (omega arith) refl in
    valid_after e k.valid

io1-room : io1.queue.cidcount + 1 < io1.queue.size
unfolding io1 state_of desc_get
io1-room = omega arith

get_cid-Reserved_example :
    (cid : ℕ) × (t : Io) × (get_cid 100 io1 ≡ ok cid t) × Reserved io1 t 100 cid (100 ∷ []) []
get_cid-Reserved_example = get_cid-Reserved io1 (100 ∷ []) [] 100 io1-IsQueue refl io1-room

desc_get-Gotten_example : (t : Io) × (desc_get 100 io0 ≡ ok 100 t) × Gotten io0 t 100 [] []
desc_get-Gotten_example = desc_get-Gotten io0 [] [] 100 queue0-IsQueue (omega arith) refl

io1-idle : (io1.queue.desc 100).cidcount ≡ 0
unfolding io1 state_of desc_get
io1-idle = refl

desc_put-Returned_example :
    (t : Io) × (desc_put 100 io1 ≡ ok tt t) × Returned io1 t 100 (100 ∷ []) []
desc_put-Returned_example = desc_put-Returned io1 (100 ∷ []) [] 100 io1-IsQueue refl io1-idle

-- With one command id in use
io2 : Io
io2 = state_of (get_cid 100 io1)

io2-IsQueue : IsQueue io2.queue (100 ∷ []) []
unfolding io2
io2-IsQueue =
    let (cid, t, e, k) = get_cid-Reserved io1 (100 ∷ []) [] 100 io1-IsQueue refl io1-room in
    valid_after e k.valid

io2-used : mask_test io2.queue.cidmask 0 ≡ true
unfolding io2 io1 state_of desc_get get_cid mask_test
io2-used = refl

io2-free : mask_test io2.queue.cidmask 1 ≡ false
unfolding io2 io1 state_of desc_get get_cid mask_test
io2-free = refl

io2-within : 1 < 64 * (io2.queue.masksize / 8)
unfolding io2 io1 state_of desc_get get_cid
io2-within = omega arith

io2-pending : io2.queue.descpend ≢ 0
unfolding io2 io1 state_of desc_get get_cid
io2-pending = omega arith

io2-count : io2.queue.cidcount ≡ 1
unfolding io2 io1 state_of desc_get get_cid
io2-count = refl

abbrev done0 : Completion
done0 = record { cid = 0; stat = 0; cs = 7 }

abbrev done1 : Completion
done1 = record { cid = 1; stat = 0; cs = 7 }

complete-Released_example :
    (t : Io) × (complete done0 io2 ≡ ok (status_of done0) t) × Released io2 t done0 (100 ∷ []) []
complete-Released_example = complete-Released io2 (100 ∷ []) [] io2-IsQueue done0 io2-used

complete-fatal_example : complete done1 io2 ≡ fatal
complete-fatal_example =
    complete-fatal io2 (100 ∷ []) [] io2-IsQueue done1 io2-free io2-within io2-pending

-- The device has completed the command.
abbrev entry0 : CqEntry
entry0 = record { cs = 7; sqhd = 1; sqid = 1; cid = 0; psf = 0 }

abbrev polls2 : List Poll
polls2 =
    record { cq = λ i. zero_entry; start = 5; now = 6 }
    ∷ record { cq = posted 4 (λ n. entry0) 1; start = 7; now = 8 }
    ∷ []

io3 : Io
io3 = record io2 { polls = polls2 }

io3-IsQueue : IsQueue io3.queue (100 ∷ []) []
unfolding io3
io3-IsQueue = io2-IsQueue

do_poll-Settled_example : Settled (100 ∷ []) [] 100 (do_poll 100 60 io3)
do_poll-Settled_example = do_poll-Settled io3 (100 ∷ []) [] 100 60 io3-IsQueue refl

abbrev region : Region
region = record { vemva = 0x1000; pci_vhsaa = 0x800000 }

abbrev namespace : Namespace
namespace = record { id = 1; pagesize = 4096; pageshift = 12; blockshift = 9; maxbpio = 3 }

region-resolves : resolve_addr region 0x3000 ≡ some 0x802000
unfolding resolve_addr
region-resolves = refl

submit_io-Submitted_example :
    (cid : ℕ) × (t : Io) × (submit_io region namespace 100 0x3000 8 2 io1 ≡ ok (some cid) t)
    × Submitted io1 t namespace 100 cid 0x802000 8 2 (100 ∷ []) []
submit_io-Submitted_example =
    submit_io-Submitted region namespace io1 (100 ∷ []) [] 100 0x3000 0x802000 8 2 io1-IsQueue refl
      io1-room region-resolves (omega arith)

io1-room_two : io1.queue.cidcount + 2 < io1.queue.size
unfolding io1 state_of desc_get
io1-room_two = omega arith

transfer : Inside region namespace 0x3000 5
transfer = record { above = omega arith; below = omega arith; region = omega arith }

rw_loop-Chunks_example :
    (t : Io) × (rw_loop 6 region namespace 100 0x3000 8 5 io1 ≡ ok tt t)
    × IsQueue t.queue (100 ∷ []) []
    × Chunks region namespace 100 (100 ∷ []) [] io1 t 0x3000 8 5
rw_loop-Chunks_example =
    rw_loop-Chunks 6 2 region namespace io1 (100 ∷ []) [] 100 0x3000 8 5 io1-IsQueue refl
      (omega arith) transfer (omega arith) io1-room_two (omega arith)

four_pages : numpages namespace 0x4000 ≡ 4
unfolding numpages
four_pages = refl

prps_at-entries_example :
    (prps_at namespace queue0 3 0x802000 0x4000).mem (3 * 512 + 1) ≡ (0x802000 + 2 * 4096) % 2 ^ 64
prps_at-entries_example =
    prps_at-entries namespace queue0 3 0x802000 0x4000 512 refl (omega (arith, four_pages))
      (omega (arith, four_pages)) (omega arith) 1 (omega (arith, four_pages))

queue_cleanup-all_example : queue_cleanup 0 io1.queue ≡ some (100 ∷ [])
queue_cleanup-all_example = queue_cleanup-all io1.queue (100 ∷ []) [] io1-IsQueue

transfer-Finished_example :
    Finished [] [] 100 (read region namespace 100 0 0x3000 8 5 io0)
    × Finished [] [] 100 (write region namespace 100 0 0x3000 8 5 io0)
transfer-Finished_example =
    transfer-Finished region namespace io0 [] [] 100 0 0x3000 8 5 2 queue0-IsQueue
      (λ e. ground arith) refl (omega arith) transfer (omega arith) (omega arith)
