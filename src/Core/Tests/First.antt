-- ===== src/Core/Tests/First.antt =====
-- The first read and write of src/unvme.c on a queue of 256 entries.
use sxaurora_unvme.Base.{◌≡◌, List, [], ◌∷◌, arith, refl, pos}
use sxaurora_unvme.Nvme.Types.{NvmeQueue}
use sxaurora_unvme.Nvme.Queue.{Poll}
use sxaurora_unvme.Nvme.Fifo.{posted}
use sxaurora_unvme.CidMask.{mask_test-zero}
use sxaurora_unvme.Core.State.{Io, ok}
use sxaurora_unvme.Core.Init.{queue_init}
use sxaurora_unvme.Core.Invariant.{IsQueue}
use sxaurora_unvme.Core.Keep.New.{queue_init-IsQueue}
use sxaurora_unvme.Core.Keep.Serve.{Serving, answer}
use sxaurora_unvme.Core.Tests.{
  io0, nvme0, entry0, state_of, valid_after, region, namespace, nonzero,
}
use sxaurora_unvme.Session.Ready.{Ready}
use sxaurora_unvme.Api.{read, write}
use sxaurora_unvme.Api.First.{first-Answered}
use sxaurora_unvme.Aurora.{region_of}
use sxaurora_unvme.Aurora.Transfer.{buffer-Answered}
use sxaurora_unvme.Aurora.Tests.{
  no_lists-IsShared, left_over, at_start, answers, ready, ready_dma, init_returns, second, three,
  done, taken,
}

abbrev nvme1 : NvmeQueue
nvme1 = record nvme0 { size = 256 }

-- The device completes command 0 in the first round.
abbrev polls : List Poll
polls = record { cq = posted 256 (λ n. entry0) 1; start = 5; now = 6 } ∷ []

device : Serving 256 (λ n. entry0) 60 1000 0 0 (0 ∷ []) polls
device = answer _ _ 1 _ _ _ _ (omega arith) (omega arith) refl refl refl (Serving.done _ _ _)

abbrev before : Io
before = record io0 { polls = polls }

start : Io
start = state_of (queue_init (101 ∷ 102 ∷ []) nvme1 0x10000 (λ i. 0) 256 before)

start-Ready : Ready 1 256 (101 ∷ 102 ∷ []) start.queue
unfolding start state_of queue_init
start-Ready =
    let (t, e, v, clear, size, next) =
      queue_init-IsQueue nvme1 0x10000 (λ i. 0) 256 (omega arith) (omega arith) (101 ∷ 102 ∷ [])
        before (nonzero _, refl, (nonzero _, refl, tt)) in
    record {
      valid = valid_after e v;
      idle = λ i. mask_test-zero 4 i;
      entries = refl;
      next = refl;
      number = refl;
      at = record { depth = refl; head = refl; phase = refl };
    }

start_rdtsec : start.rdtsec ≡ 1000
unfolding start state_of queue_init
start_rdtsec = refl

start_polls : start.polls ≡ polls
unfolding start state_of queue_init
start_polls = refl

first-Answered_example :
    ((u : Io) × (read region namespace 100 0 0x3000 8 2 start ≡ ok (pos 0) u)
      × IsQueue u.queue [] (102 ∷ 101 ∷ []))
    × ((u : Io) × (write region namespace 100 0 0x3000 8 2 start ≡ ok (pos 0) u)
        × IsQueue u.queue [] (102 ∷ 101 ∷ []))
first-Answered_example =
    first-Answered region namespace start 1 101 (102 ∷ []) start-Ready 100 0 0x3000 8 2 1
      (nonzero _) (omega arith)
      (record { above = omega arith; below = omega arith; region = omega arith }) (omega arith)
      (omega arith) (omega arith) (λ n. entry0) (0 ∷ []) (refl, tt) (λ i. ground arith)
      (rw (start_rdtsec, start_polls) device)

-- The same from aurora_init on, with a buffer of a run of two threads.
buffer-Answered_example :
    ((u : Io) × (read (region_of ready) namespace 100 0 second.buf 8 2 start ≡ ok (pos 0) u)
      × IsQueue u.queue [] (102 ∷ 101 ∷ []))
    × ((u : Io) × (write (region_of ready) namespace 100 0 second.buf 8 2 start ≡ ok (pos 0) u)
        × IsQueue u.queue [] (102 ∷ 101 ∷ []))
buffer-Answered_example =
    buffer-Answered answers at_start (left_over ∷ []) done three [] [] second no_lists-IsShared refl
      (λ e. omega (arith, e)) (λ e. omega (arith, e)) init_returns taken
      (rw ready_dma (omega arith)) namespace start 1 101 (102 ∷ []) start-Ready 100 0 8 2 1
      (nonzero _) (omega arith) (omega arith) (omega arith) (omega arith) (omega arith)
      (λ n. entry0) (0 ∷ []) (refl, tt) (λ i. ground arith) (rw (start_rdtsec, start_polls) device)
