-- ===== src/Session/Queues.antt =====
-- unvme_adminq_create, unvme_ioq_create and unvme_ioq_delete of src/unvme_core.c.
use sxaurora_unvme.Base.{ℕ, zero, suc, ◌+◌, List, [], ◌∷◌, ◌++◌, none, some}
use sxaurora_unvme.Nvme.Types.{NvmeQueue, rw_cmd}
use sxaurora_unvme.Nvme.Queue.{Poll}
use sxaurora_unvme.Nvme.Setup.{
  NvmeDevice, Ended, done, failed, unended, nvme_adminq_setup, nvme_ioq_create, nvme_ioq_delete,
}
use sxaurora_unvme.Core.State.{Queue, Run, ok, fatal, fault, undefined, endless}
use sxaurora_unvme.Core.Init.{queue_init}
use sxaurora_unvme.Core.Clean.{queue_cleanup}
use sxaurora_unvme.Session.Types.{
  QueueMemory, IoqInput, Controller, Outcome, returns, aborts, faults, hangs, then_do, Device,
}

-- The NVMe queue of a queue that has none yet.
abbrev pub no_nvmeq : NvmeQueue
no_nvmeq = record {
  id = 0;
  size = 0;
  sq = λ i. record {
    common = record { opc = 0; cid = 0; nsid = 0; prp1 = 0; prp2 = 0 };
    body = rw_cmd 0 0;
  };
  sq_doorbell = 0;
  cq_doorbell = 0;
  sq_head = 0;
  sq_tail = 0;
  cq_head = 0;
  cq_phase = 0;
  ext = 0;
}

-- A queue and the counter of descriptor ids.
pub record Created : Type 0 where
  pub queue : Queue
  pub last_id : ℕ

abbrev run_created : Run (Unit {0}) → Outcome Created
run_created (ok a s) = returns (record { queue = s.queue; last_id = s.last_id })
run_created fatal = aborts
run_created fault = faults
run_created undefined = faults
run_created endless = hangs

-- unvme_queue_init(dev, q, qsize) of a queue `old`
unfoldable pub init_queue : QueueMemory → (old : Queue) → (qsize last_id : ℕ) → Outcome Created
unfolding queue_init
init_queue m old qsize last_id = run_created (
    queue_init m.fresh no_nvmeq m.prpaddr m.prpmem qsize
      (record { queue = old; polls = []; rings = []; last_id = last_id; rdtsec = 0 }))

-- `q->nvmeq = …`; FATAL, where the set-up of the NVMe queue fails
abbrev pub attach : Ended NvmeQueue → Created → Outcome Created
attach (done n) c = returns (record c { queue = record c.queue { nvmeq = n } })
attach failed c = aborts
attach unended c = hangs

-- unvme_adminq_create(dev, qsize)
unfoldable pub adminq_create :
    NvmeDevice → Controller → (old : Queue) → (qsize last_id : ℕ) → Outcome Created
unfolding init_queue nvme_adminq_setup
adminq_create dev c old qsize last_id =
    let m = c.adminmem in
    then_do (init_queue m old qsize last_id)
      (attach (nvme_adminq_setup dev c.cc qsize m.sqpa m.cqpa m.sq c.csts_off c.csts_on).adminq)

-- An I/O queue, and the admin queue behind its creation.
pub record IoqCreated : Type 0 where
  pub created : Created
  pub adminq : NvmeQueue

-- unvme_ioq_create(dev, q)
unfoldable pub ioq_create :
    NvmeDevice
    → IoqInput
    → (old : Queue) → (adminq : NvmeQueue) → (q qsize last_id : ℕ) → Outcome IoqCreated
unfolding init_queue nvme_ioq_create
ioq_create dev i old adminq q qsize last_id =
    let m = i.mem in
    let n = nvme_ioq_create dev adminq (q + 1) qsize 0 m.sqpa m.cqpa m.sq i.create_cq i.create_sq in
    then_do (then_do (init_queue m old qsize last_id) (attach n.ioq))
      (λ c. returns (record { created = c; adminq = n.adminq }))

pub record Ioqs : Type 0 where
  pub ioqs : List Queue
  pub adminq : NvmeQueue
  pub last_id : ℕ

-- `for (i = 0; i < qcount; i++) unvme_ioq_create(dev, i)`, with `n` queues left from `q` on
unfoldable pub create_ioqs :
    (n q : ℕ)
    → NvmeDevice
    → (ℕ → IoqInput)
    → (old : Queue) → (adminq : NvmeQueue) → (qsize last_id : ℕ) → Outcome Ioqs
unfolding ioq_create
create_ioqs zero q dev input old adminq qsize last_id =
    returns (record { ioqs = []; adminq = adminq; last_id = last_id })
create_ioqs (suc n) q dev input old adminq qsize last_id =
    then_do (ioq_create dev (input q) old adminq q qsize last_id) (λ c.
      then_do (create_ioqs n (q + 1) dev input old c.adminq qsize c.created.last_id)
        (λ r. returns (record r { ioqs = c.created.queue ∷ r.ioqs })))

-- The polls of the two commands that delete an I/O queue, and how many free descriptors a queue has
-- at most.
pub record Closing : Type 0 where
  pub delete_sq : ℕ → List Poll
  pub delete_cq : ℕ → List Poll
  pub free_count : ℕ

-- What has been freed, in order, and the admin queue.
pub record Deleted : Type 0 where
  pub freed : List ℕ
  pub adminq : NvmeQueue

abbrev clean : Closing → Queue → Outcome (List ℕ)
clean c q = elim (queue_cleanup c.free_count q) [ none ↦ hangs | some freed ↦ returns freed ]

-- `(void)nvme_ioq_delete(ioq->nvmeq)`: an error is no matter.
abbrev ignore : Ended (Unit {0}) → Outcome (Unit {0})
ignore (done a) = returns tt
ignore failed = returns tt
ignore unended = hangs

-- unvme_ioq_delete(dev, q) of queue `ioq`
unfoldable pub ioq_delete :
    NvmeDevice → Closing → (adminq : NvmeQueue) → (q : ℕ) → (ioq : Queue) → Outcome Deleted
unfolding nvme_ioq_delete queue_cleanup
ioq_delete dev c adminq q ioq =
    let d = nvme_ioq_delete dev adminq ioq.nvmeq (c.delete_sq q) (c.delete_cq q) in
    then_do (ignore d.ret)
      (λ _. then_do (clean c ioq) (λ freed. returns (record { freed = freed; adminq = d.adminq })))

-- The loop of unvme_cleanup over the queues from `q` on.
unfoldable pub delete_ioqs :
    NvmeDevice → Closing → (adminq : NvmeQueue) → (q : ℕ) → List Queue → Outcome Deleted
unfolding ioq_delete
delete_ioqs dev c adminq q [] = returns (record { freed = []; adminq = adminq })
delete_ioqs dev c adminq q (ioq ∷ ioqs) = then_do (ioq_delete dev c adminq q ioq) (λ d.
    then_do (delete_ioqs dev c d.adminq (q + 1) ioqs)
      (λ r. returns (record r { freed = d.freed ++ r.freed })))

-- The queues of a device: the I/O queues, then the admin queue.
unfoldable pub delete_queues : Closing → Device → Outcome (List ℕ)
unfolding delete_ioqs queue_cleanup
delete_queues c dev =
    then_do (delete_ioqs dev.nvmedev c dev.adminq.nvmeq 0 dev.ioqs)
      (λ d. then_do (clean c dev.adminq) (λ freed. returns (d.freed ++ freed)))
