-- ===== src/Core/Init.antt =====
-- unvme_queue_init, in src/unvme_core.c.
use sxaurora_unvme.Base.{ℕ, ◌+◌, ◌*◌, ◌/◌, List, [], ◌∷◌, replicate}
use sxaurora_unvme.Nvme.Types.{NvmeQueue}
use sxaurora_unvme.Core.State.{Queue, ok, Cmd, ◌>>◌, with_queue}
use sxaurora_unvme.Core.Desc.{zalloc_desc, desc_get}

-- `((qsize + 63) >> 6) << 3`
unfoldable pub mask_bytes : ℕ → ℕ
mask_bytes qsize = (qsize + 63) / 64 * 8

-- The queue before its descriptors are allocated. `prpaddr` and `prpmem` are the PRP pages that
-- vfio_dma_alloc returns, and `nvmeq` is what the callers put in once the NVMe queue is created.
unfoldable pub blank_queue : NvmeQueue → (prpaddr : ℕ) → (ℕ → ℕ) → (qsize : ℕ) → Queue
unfolding mask_bytes zalloc_desc
blank_queue nvmeq prpaddr prpmem qsize = record {
  nvmeq = nvmeq;
  prpmem = prpmem;
  prpaddr = prpaddr;
  size = qsize;
  cid = 0;
  cidcount = 0;
  desccount = 0;
  masksize = mask_bytes qsize;
  cidmask = replicate (mask_bytes qsize / 8) 0;
  desclist = 0;
  descfree = 0;
  descpend = 0;
  links = record { next = λ a. 0; prev = λ a. 0 };
  desc = λ a. zalloc_desc (mask_bytes qsize) 0;
}

-- `unvme_desc_get(q)` for each of the addresses that zalloc returns
unfoldable pub alloc_descs : List ℕ → Cmd (Unit {0})
unfolding desc_get
alloc_descs [] s = ok tt s
alloc_descs (p ∷ ps) s = (desc_get p >> alloc_descs ps) s

-- `q->descfree = q->desclist; q->desclist = NULL; q->desccount = 0`
unfoldable pub free_all : Queue → Queue
free_all q = record q { descfree = q.desclist; desclist = 0; desccount = 0 }

-- unvme_queue_init(dev, q, qsize), with the addresses of its 16 descriptors
unfoldable pub queue_init :
    (fresh : List ℕ) → NvmeQueue → (prpaddr : ℕ) → (ℕ → ℕ) → (qsize : ℕ) → Cmd (Unit {0})
unfolding blank_queue alloc_descs free_all
queue_init fresh nvmeq prpaddr prpmem qsize s =
    ((alloc_descs fresh) >> (λ t. ok tt (with_queue t (free_all t.queue))))
      (with_queue s (blank_queue nvmeq prpaddr prpmem qsize))
