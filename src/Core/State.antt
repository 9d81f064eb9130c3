-- ===== src/Core/State.antt =====
-- The state of one queue of src/unvme_core.c and commands over it.
use sxaurora_unvme.Base.{ℕ, List, ◌==◌, if◌then◌else◌}
use sxaurora_unvme.Ring.{Links}
use sxaurora_unvme.CidMask.{Mask}
use sxaurora_unvme.Nvme.Types.{NvmeQueue, Ring}
use sxaurora_unvme.Nvme.Queue.{Poll}

-- `unvme_desc_t`, less `prev` and `next`, which stand in the queue's `links`, and less `q`, the
-- queue itself. `cidcount` is an `int` in C: it counts the bits of `cidmask` and is not decremented
-- at 0.
pub record Descriptor : Type 0 where
  pub buf : ℕ
  pub slba : ℕ
  pub nlb : ℕ
  pub qid : ℕ
  pub opc : ℕ
  pub id : ℕ
  pub sentinel : ℕ
  pub error : ℕ
  pub cidcount : ℕ
  pub cidmask : Mask

-- `unvme_queue_t`, with the memory behind its pointers: the descriptors by address, their links,
-- and the PRP list pages (`prplist->buf` by u64 index, and `prplist->addr`).
pub record Queue : Type 0 where
  pub nvmeq : NvmeQueue
  pub prpmem : ℕ → ℕ
  pub prpaddr : ℕ
  pub size : ℕ
  pub cid : ℕ
  pub cidcount : ℕ
  pub desccount : ℕ
  pub masksize : ℕ
  pub cidmask : Mask
  pub desclist : ℕ
  pub descfree : ℕ
  pub descpend : ℕ
  pub links : Links
  pub desc : ℕ → Descriptor

-- A queue in use: what is still to come from the device and the clock, the doorbell writes so far
-- (oldest first), the driver's counter of descriptor ids, and `nvmeq->dev->rdtsec`.
pub record Io : Type 0 where
  pub queue : Queue
  pub polls : List Poll
  pub rings : List Ring
  pub last_id : ℕ
  pub rdtsec : ℕ

-- How a call ends: it returns; it calls abort() through FATAL; it follows a null pointer; it goes past
-- the end of an array, and C leaves open what follows; or the call does not end within the polls given,
-- or loops for ever.
pub data Run (A : Type 0) : Type 0 where
  ok : A → Io → Run A
  fatal : Run A
  fault : Run A
  undefined : Run A
  endless : Run A

abbrev pub Cmd : Type 0 → Type 0
Cmd A = Io → Run A

abbrev pub pure : {A : Type 0} → A → Cmd A
pure a s = ok a s

module _ {A B : Type 0} where
  abbrev pub and_then : Run A → (A → Cmd B) → Run B
  and_then (ok a s) k = k a s
  and_then fatal k = fatal
  and_then fault k = fault
  and_then undefined k = undefined
  and_then endless k = endless

  infixl 5 ◌>>=◌ ◌>>◌
  abbrev pub ◌>>=◌ : Cmd A → (A → Cmd B) → Cmd B
  ◌>>=◌ m k s = and_then (m s) k

  abbrev pub ◌>>◌ : Cmd A → Cmd B → Cmd B
  ◌>>◌ m n s = and_then (m s) (λ _. n)

-- `q->… = …`
abbrev pub with_queue : Io → Queue → Io
with_queue s q = record s { queue = q }

-- `desc->… = …`
abbrev pub set_desc : Queue → ℕ → Descriptor → Queue
set_desc q p d = record q { desc = λ a. if a == p then d else q.desc a }
