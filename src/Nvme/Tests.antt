-- ===== src/Nvme/Tests.antt =====
-- A completion queue of two slots, on its second lap, and a device with a timeout of three rounds.
use sxaurora_unvme.Base.{ℕ, ◌+◌, ◌*◌, ◌^◌, [], ◌∷◌, ◌≡◌, some, arith, refl}
use sxaurora_unvme.Nvme.Types.{NvmeQueue, CqEntry, SqEntry, rw_cmd}
use sxaurora_unvme.Nvme.Queue.{nvme_check_completion}
use sxaurora_unvme.Nvme.Setup.{NvmeDevice, new_queue, done, nvme_create, nvme_adminq_setup}
use sxaurora_unvme.Nvme.Fields.{Programmed, adminq_setup-Programmed}
use sxaurora_unvme.Nvme.Doorbells.{Apart, new_queue-Apart}
use sxaurora_unvme.Nvme.Fifo.{posted, At, report, check_completion-posted}

abbrev no_entry : SqEntry
no_entry = record {
  common = record { opc = 0; cid = 0; nsid = 0; prp1 = 0; prp2 = 0 };
  body = rw_cmd 0 0;
}

-- Three completions have been seen.
abbrev queue3 : NvmeQueue
queue3 = record {
  id = 1;
  size = 2;
  sq = λ i. no_entry;
  sq_doorbell = 2;
  cq_doorbell = 3;
  sq_head = 0;
  sq_tail = 1;
  cq_head = 1;
  cq_phase = 1;
  ext = 0;
}

abbrev answers : ℕ → CqEntry
answers n = record { cs = n; sqhd = 0; sqid = 1; cid = n; psf = 4 }

queue3-At : At 2 3 queue3
queue3-At = record { depth = refl; head = refl; phase = refl }

check_completion-posted_example :
    ((nvme_check_completion queue3 (posted 2 answers 4)).found ≡ some (report answers 3))
    × At 2 4 (nvme_check_completion queue3 (posted 2 answers 4)).queue
check_completion-posted_example =
    check_completion-posted 2 3 4 answers queue3 (omega arith) queue3-At (omega arith) (omega arith)

abbrev device : NvmeDevice
device = record {
  rdtsec = 1000;
  timeout = 3;
  mpsmin = 0;
  mpsmax = 0;
  pageshift = 12;
  maxqsize = 1024;
  dbstride = 1;
}

new_queue-Apart_example :
    Apart (new_queue device 1 256 0 (λ i. no_entry)) (new_queue device 2 256 0 (λ i. no_entry))
new_queue-Apart_example =
    new_queue-Apart device 1 2 256 0 256 0 (λ i. no_entry) (λ i. no_entry) (omega arith)
      (omega arith)

-- A controller of pages of 8192 bytes, which the first reads find stopped and then running.
abbrev cap8 : ℕ
cap8 = 0xff + 30 * 2 ^ 24 + 2 ^ 48

abbrev admin8 : NvmeQueue
admin8 = unfold new_queue nvme_create in new_queue (nvme_create cap8 1000) 0 64 0 (λ i. no_entry)

set_up8 :
    (nvme_adminq_setup
      (nvme_create cap8 1000)
      0x460001
      64
      0x1000
      0x2000
      (λ i. no_entry)
      (0 ∷ [])
      (1 ∷ [])).adminq
    ≡ done admin8
unfolding nvme_adminq_setup nvme_create
set_up8 = refl

adminq_setup-Programmed_example :
    Programmed cap8 0x460001 64 0x1000 0x2000
      (nvme_adminq_setup
        (nvme_create cap8 1000)
        0x460001
        64
        0x1000
        0x2000
        (λ i. no_entry)
        (0 ∷ [])
        (1 ∷ [])).writes
adminq_setup-Programmed_example =
    adminq_setup-Programmed cap8 1000 0x460001 64 0x1000 0x2000 (λ i. no_entry) (0 ∷ []) (1 ∷ [])
      admin8 (omega arith) (omega arith) set_up8
