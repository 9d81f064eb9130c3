-- ===== src/Core/Tests/Answer.antt =====
-- unvme_do_poll of src/unvme_core.c, and unvme_read and unvme_write of src/unvme.c, over a device
-- that answers.
use sxaurora_unvme.Base.{ℕ, ◌-◌, ◌∙◌, sym, ap, ◌≡◌, List, [], ◌∷◌, arith, refl, pos}
use sxaurora_unvme.Nvme.Types.{CqEntry}
use sxaurora_unvme.Nvme.Queue.{Poll}
use sxaurora_unvme.Nvme.Fifo.{posted, At}
use sxaurora_unvme.Ring.Shape.{has}
use sxaurora_unvme.CidMask.{Mask, mask_test, mask_set, mask_test-set, mask_test-zero}
use sxaurora_unvme.Core.State.{Io, ok}
use sxaurora_unvme.Core.Submit.{do_poll}
use sxaurora_unvme.Core.Complete.{Status}
use sxaurora_unvme.Core.Invariant.{IsQueue}
use sxaurora_unvme.Core.Keep.Serve.{Serving, early, answer}
use sxaurora_unvme.Core.Keep.Answer.{Expected, Answered, do_poll-Answered}
use sxaurora_unvme.Core.Tests.{
  io0, valid_after, state_of, queue0-IsQueue, region, namespace, transfer,
}
use sxaurora_unvme.Api.{aread, awrite, read, write}
use sxaurora_unvme.Nvme.Command.{cmd_read_op}
use sxaurora_unvme.Api.Transfer.{do_rw-Chunks}
use sxaurora_unvme.Api.Answer.{transfer-Answered}

-- The commands 1 and 0 are completed in that order.
abbrev entries : ℕ → CqEntry
entries n = record { cs = 7; sqhd = 1; sqid = 1; cid = 1 - n; psf = 0 }

abbrev polls : List Poll
polls =
    record { cq = posted 4 entries 0; start = 5; now = 6 }
    ∷ record { cq = posted 4 entries 2; start = 7; now = 8 }
    ∷ record { cq = posted 4 entries 2; start = 9; now = 10 }
    ∷ []

device : Serving 4 entries 60 1000 0 0 (1 ∷ 0 ∷ []) polls
device = early _ _ _ _ _ (omega arith) refl (omega arith) (
    answer _ _ 2 _ _ _ _ (omega arith) (omega arith) refl refl refl
      (answer _ _ 2 _ _ _ _ (omega arith) (omega arith) refl refl refl (Serving.done _ _ _)))

abbrev start : Io
start = record io0 { polls = polls }

start-At : At 4 0 start.queue.nvmeq
start-At = record { depth = refl; head = refl; phase = refl }

-- The state with the two commands of a read sent, and with those of a write.
reading : Io
reading = state_of (aread region namespace 100 0 0x3000 8 5 start)

writing : Io
writing = state_of (awrite region namespace 100 0 0x3000 8 5 start)

reading_lem : aread region namespace 100 0 0x3000 8 5 start ≡ ok 100 reading
unfolding aread reading state_of
reading_lem = refl

writing_lem : awrite region namespace 100 0 0x3000 8 5 start ≡ ok 100 writing
unfolding awrite writing state_of
writing_lem = refl

-- The ids 0 and 1, and no others.
abbrev two : Mask
two = 3 ∷ []

two_bits : (i : ℕ) → mask_test two i ≡ has i (1 ∷ 0 ∷ [])
unfolding mask_set
two_bits i =
    ground (arith, mask_test-set (1 ∷ []) 1 i, mask_test-set (0 ∷ []) 0 i, mask_test-zero 1 i)

expect :
    (t : Io)
    → t.queue.cidmask ≡ two
    → (t.queue.desc 100).cidmask ≡ two
    → Expected t 100 (1 ∷ 0 ∷ [])
expect t q d = record {
  once = (refl, (refl, tt));
  used = λ i m. rw q (two_bits i ∙ m);
  covers = λ i m. sym (two_bits i) ∙ ap (λ (w : Mask). mask_test w i) (sym d) ∙ m;
}

reading-Expected : Expected reading 100 (1 ∷ 0 ∷ [])
unfolding reading state_of aread
reading-Expected = expect reading refl refl

writing-Expected : Expected writing 100 (1 ∷ 0 ∷ [])
unfolding writing state_of awrite
writing-Expected = expect writing refl refl

transfer-Answered_example :
    ((u : Io) × (read region namespace 100 0 0x3000 8 5 start ≡ ok (pos 0) u)
      × IsQueue u.queue [] (100 ∷ []))
    × ((u : Io) × (write region namespace 100 0 0x3000 8 5 start ≡ ok (pos 0) u)
        × IsQueue u.queue [] (100 ∷ []))
transfer-Answered_example =
    transfer-Answered region namespace start [] [] 100 0 0x3000 8 5 2 queue0-IsQueue
      (λ e. ground arith) refl (omega arith) transfer (omega arith) (omega arith) 4 0 entries
      (omega arith) start-At (1 ∷ 0 ∷ []) device reading writing reading_lem reading-Expected
      writing_lem writing-Expected

-- The two ids completed, unvme_do_poll frees the descriptor.
reading-IsQueue : IsQueue reading.queue (100 ∷ []) []
unfolding reading
reading-IsQueue =
    let (u, t, e, began, v, chunks) =
      do_rw-Chunks region namespace start [] [] 100 0 0x3000 8 5 2 queue0-IsQueue
        (λ e. ground arith) refl (omega arith) transfer (omega arith) (omega arith) cmd_read_op in
    unfold aread in valid_after e v

reading_sentinel : (reading.queue.desc 100).sentinel ≡ 100
unfolding reading state_of aread
reading_sentinel = refl

reading_polls : reading.polls ≡ polls
unfolding reading state_of aread
reading_polls = refl

reading_clock : reading.rdtsec ≡ 1000
unfolding reading state_of aread
reading_clock = refl

reading-At : At 4 0 reading.queue.nvmeq
unfolding reading state_of aread
reading-At = record { depth = refl; head = refl; phase = refl }

do_poll-Answered_example :
    (st : Status) × (t : Io) × (do_poll 100 60 reading ≡ ok st t) × Answered t st 100 (100 ∷ []) []
do_poll-Answered_example =
    do_poll-Answered 4 entries (omega arith) 60 1000 (1 ∷ 0 ∷ []) reading 0 (100 ∷ []) [] 100
      reading-IsQueue refl reading_sentinel reading_clock reading-At reading-Expected
      (rw reading_polls device)
