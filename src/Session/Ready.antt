-- ===== src/Session/Ready.antt =====
-- The queues of a new device, in src/unvme_core.c, are ready for use.
use sxaurora_unvme.Base.{
  ℕ, zero, suc, ◌+◌, ◌<◌, ◌≤◌, ◌^◌, ◌≡◌, false, List, [], ◌∷◌, arith, refl, sym, ap, Bool-cases,
  inl, inr, length, ◌%◌, ◌==◌, ℤ, Option, some, none, pos, negsuc,
}
use sxaurora_unvme.CidMask.{mask_test}
use sxaurora_unvme.Nvme.Types.{NvmeQueue, SqEntry}
use native.Mathlib.Nat.{mod-eq_of_lt, div-eq_of_lt}
use sxaurora_unvme.Nvme.Setup.{
  NvmeDevice, Ended, done, failed, unended, new_queue, on_ok, nvme_ioq_create, nvme_adminq_setup,
  nvme_ctlr_disable, nvme_ctlr_enable, new_config,
}
use sxaurora_unvme.Nvme.Queue.{Poll}
use sxaurora_unvme.Nvme.Command.{nvme_acmd_create_cq, nvme_acmd_create_sq}
use sxaurora_unvme.Nvme.Fifo.{At}
use sxaurora_unvme.Core.State.{Queue, Io}
use sxaurora_unvme.Core.Invariant.{IsQueue}
use sxaurora_unvme.Core.Keep.New.{Fresh, queue_init-IsQueue}
use sxaurora_unvme.Core.Keep.Poll.{nvmeq-IsQueue}
use sxaurora_unvme.Session.Types.{QueueMemory, IoqInput, Controller, then_do}
use sxaurora_unvme.Session.Queues.{
  no_nvmeq, Created, init_queue, attach, ioq_create, create_ioqs, adminq_create,
}
use sxaurora_unvme.Session.Refs.{Ends, returned, aborted, hung, then_do-Ends}

-- A valid queue of `size` entries with no id in use, all of whose descriptors are free; its NVMe queue
-- has the same size and the number `id`, no completion has been seen, and the next id is 0.
pub record Ready (id size : ℕ) (fresh : List ℕ) (q : Queue) : Type 0 where
  pub valid : IsQueue q [] fresh
  pub idle : (i : ℕ) → mask_test q.cidmask i ≡ false
  pub entries : q.size ≡ size
  pub next : q.cid ≡ 0
  pub number : q.nvmeq.id ≡ id
  pub at : At size 0 q.nvmeq

-- A new NVMe queue.
abbrev IsNew : (id size : ℕ) → NvmeQueue → Type 0
IsNew id size n = (n.id ≡ id) × At size 0 n

new_queue-IsNew :
    (dev : NvmeDevice) (id size ext : ℕ) (sq : ℕ → SqEntry)
    → 0 < size
    → IsNew id size (new_queue dev id size ext sq)
unfolding new_queue
new_queue-IsNew dev id size ext sq p = (
  refl,
  record {
    depth = refl;
    head = sym (mod-eq_of_lt p);
    phase = sym (ap (λ (n : ℕ). n % 2) (div-eq_of_lt p));
  },
)

-- It holds of what a set-up ends with, if that is a value.
abbrev IsDone : {A : Type 0} → (A → Type 0) → Ended A → Type 0
IsDone P (done a) = P a
IsDone P failed = Unit {0}
IsDone P unended = Unit {0}

on_ok-IsDone :
    {A : Type 0} (P : A → Type 0) (r : Option ℤ) (e : Ended A) → IsDone P e → IsDone P (on_ok r e)
on_ok-IsDone P none e h = tt
on_ok-IsDone P (some (pos n)) e h = elim (Bool-cases (n == 0)) [ inl z ↦ rw z h | inr z ↦ rw z tt ]
on_ok-IsDone P (some (negsuc n)) e h = tt

module _ (dev : NvmeDevice) (adminq : NvmeQueue) (id size ext sqpa cqpa : ℕ) (sq : ℕ → SqEntry)
    (ps ps' : List Poll) (positive : 0 < size) where
  ioq-IsNew :
      IsDone (IsNew id size) (nvme_ioq_create dev adminq id size ext sqpa cqpa sq ps ps').ioq
  unfolding nvme_ioq_create
  ioq-IsNew =
      let ioq = new_queue dev id size ext sq in
      let c = nvme_acmd_create_cq ps adminq ioq dev.rdtsec cqpa in
      let s = nvme_acmd_create_sq ps' c.queue ioq dev.rdtsec sqpa in
      on_ok-IsDone (IsNew id size) c.ret (on_ok s.ret (done ioq)) (
        on_ok-IsDone (IsNew id size) s.ret (done ioq) (new_queue-IsNew dev id size ext sq positive))

adminq-IsNew :
    (dev : NvmeDevice) (val size sqpa cqpa : ℕ) (sq : ℕ → SqEntry) (csts csts' : List ℕ)
    → 0 < size
    → IsDone (IsNew 0 size) (nvme_adminq_setup dev val size sqpa cqpa sq csts csts').adminq
unfolding nvme_adminq_setup
adminq-IsNew dev val size sqpa cqpa sq csts csts' positive =
    let off = nvme_ctlr_disable dev val csts in
    let on = nvme_ctlr_enable dev (new_config dev) csts' in
    let new = new_queue dev 0 size 0 sq in
    on_ok-IsDone (IsNew 0 size) off.ret (on_ok on.ret (done new))
      (on_ok-IsDone (IsNew 0 size) on.ret (done new) (new_queue-IsNew dev 0 size 0 sq positive))

module _ (id size : ℕ) (big : 1 < size) (small : size ≤ 2 ^ 16) where
  -- A queue behind unvme_queue_init.
  record Blank (fresh : List ℕ) (q : Queue) : Type 0 where
    pub valid : IsQueue q [] fresh
    pub idle : (i : ℕ) → mask_test q.cidmask i ≡ false
    pub entries : q.size ≡ size
    pub next : q.cid ≡ 0

  init_queue-Blank :
      (m : QueueMemory) (old : Queue) (last_id : ℕ)
      → Fresh [] m.fresh
      → Ends (λ c. Blank m.fresh c.queue) (init_queue m old size last_id)
  unfolding init_queue
  init_queue-Blank m old last_id new =
      let s : Io = record { queue = old; polls = []; rings = []; last_id = last_id; rdtsec = 0 } in
      let (t, e, v, clear, entries, next) =
        queue_init-IsQueue no_nvmeq m.prpaddr m.prpmem size big small m.fresh s new in
      rw e (returned _ (record { valid = v; idle = clear; entries = entries; next = next }))

  attach-Ready :
      (e : Ended NvmeQueue) (c : Created) (fresh : List ℕ)
      → IsDone (IsNew id size) e
      → Blank fresh c.queue
      → Ends (λ c'. Ready id size fresh c'.queue) (attach e c)
  attach-Ready (done n) c fresh new b = returned _ (record {
    valid = nvmeq-IsQueue c.queue [] fresh n b.valid;
    idle = b.idle;
    entries = b.entries;
    next = b.next;
    number = new.0;
    at = new.1;
  })
  attach-Ready failed c fresh new b = aborted
  attach-Ready unended c fresh new b = hung

  -- A queue that is initialised, and then given its NVMe queue.
  ready :
      (m : QueueMemory) (old : Queue) (last_id : ℕ) (e : Ended NvmeQueue)
      → Fresh [] m.fresh
      → IsDone (IsNew id size) e
      → Ends
          (λ c. Ready id size m.fresh c.queue)
          (then_do (init_queue m old size last_id) (attach e))
  ready m old last_id e new is =
      then_do-Ends (λ c. Blank m.fresh c.queue) (λ c. Ready id size m.fresh c.queue) _ (attach e)
        (init_queue-Blank m old last_id new) (λ c b. attach-Ready e c m.fresh is b)

-- The I/O queues from number `i` on.
abbrev pub AllReady : (size : ℕ) → (ℕ → IoqInput) → (i : ℕ) → List Queue → Type 0
AllReady size input i [] = Unit {0}
AllReady size input i (q ∷ qs) =
    Ready (i + 1) size (input i).mem.fresh q × AllReady size input (i + 1) qs

module _ (size : ℕ) (big : 1 < size) (small : size ≤ 2 ^ 16) (dev : NvmeDevice)
    (input : ℕ → IoqInput) (new : (i : ℕ) → Fresh [] (input i).mem.fresh) (old : Queue) where
  ioq_create-Ready :
      (adminq : NvmeQueue) (q last_id : ℕ)
      → Ends
          (λ c. Ready (q + 1) size (input q).mem.fresh c.created.queue)
          (ioq_create dev (input q) old adminq q size last_id)
  unfolding ioq_create nvme_ioq_create
  ioq_create-Ready adminq q last_id =
      then_do-Ends (λ c. Ready (q + 1) size (input q).mem.fresh c.queue)
        (λ c. Ready (q + 1) size (input q).mem.fresh c.created.queue) _ _
        (ready (q + 1) size big small (input q).mem old last_id _ (new q) (
          ioq-IsNew dev adminq (q + 1) size 0 (input q).mem.sqpa (input q).mem.cqpa (input q).mem.sq
            (input q).create_cq (input q).create_sq (omega arith)))
        (λ c r. returned _ r)

  -- As many queues as are asked for, numbered from 1 on, all ready.
  pub create_ioqs-AllReady :
      (n q : ℕ) (adminq : NvmeQueue) (last_id : ℕ)
      → Ends
          (λ r. AllReady size input q r.ioqs × (length r.ioqs ≡ n))
          (create_ioqs n q dev input old adminq size last_id)
  unfolding create_ioqs
  create_ioqs-AllReady zero q adminq last_id = returned _ (tt, refl)
  create_ioqs-AllReady (suc n) q adminq last_id =
      then_do-Ends (λ c. Ready (q + 1) size (input q).mem.fresh c.created.queue)
        (λ r. AllReady size input q r.ioqs × (length r.ioqs ≡ suc n)) _ _
        (ioq_create-Ready adminq q last_id)
        (λ c r.
          then_do-Ends (λ k. AllReady size input (q + 1) k.ioqs × (length k.ioqs ≡ n))
            (λ k. AllReady size input q k.ioqs × (length k.ioqs ≡ suc n)) _ _
            (create_ioqs-AllReady n (q + 1) c.adminq c.created.last_id)
            (λ k (all, count). returned _ ((r, all), ap suc count)))

pub adminq_create-Ready :
    (dev : NvmeDevice) (c : Controller) (old : Queue) (size last_id : ℕ)
    → 1 < size
    → size ≤ 2 ^ 16
    → Fresh [] c.adminmem.fresh
    → Ends (λ a. Ready 0 size c.adminmem.fresh a.queue) (adminq_create dev c old size last_id)
unfolding adminq_create
adminq_create-Ready dev c old size last_id big small new =
    let m = c.adminmem in
    ready 0 size big small m old last_id _ new
      (adminq-IsNew dev c.cc size m.sqpa m.cqpa m.sq c.csts_off c.csts_on (omega arith))
