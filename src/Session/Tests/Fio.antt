-- ===== src/Session/Tests/Fio.antt =====
-- Two fio threads of ioengine/unvme_fio.c: the first opens namespace 2 of a device that is in use.
use sxaurora_unvme.Base.{ℕ, ◌≡◌, ◌≤◌, ◌<◌, false, some, none, refl, if◌then◌else◌}
use sxaurora_unvme.Session.Types.{Driver, Outcome, returns, aborts, exits, faults, hangs}
use sxaurora_unvme.Session.Tests.{driver1, input, ns_of}
use sxaurora_unvme.Engine.{within_limits}
use sxaurora_unvme.Engine.Setup.{
  Context, Thread, FioInput, open_context, check_limits, do_unvme_init,
}
use sxaurora_unvme.Api.{open_name}
use sxaurora_unvme.Engine.Once.{do_unvme_init-once}

-- The device has four queues.
abbrev four : Driver
four = record driver1 {
  device = λ p. record (driver1.device p) { ns = record (ns_of 0) { qcount = 4 } };
}

abbrev closed : Context
closed = record { mutex = false; ns = none; ncpus = 0; nlb = 0; driver = four }

abbrev thread_of : ℕ → Thread
thread_of n = record {
  thread_number = n;
  iodepth = 8;
  bs_read = 4096;
  filename = record { b = 3; d = 0; f = 0 };
  nsid = 2;
}

abbrev found : FioInput
found = record { answers = input; ncpus = 8 }

context_of : Outcome Context → Context
context_of (returns c) = c
context_of aborts = closed
context_of exits = closed
context_of faults = closed
context_of hangs = closed

opened : Context
opened = context_of (do_unvme_init found (thread_of 1) closed)

opened_lem : do_unvme_init found (thread_of 1) closed ≡ returns opened
unfolding opened context_of do_unvme_init open_context check_limits open_name within_limits
opened_lem = refl

do_unvme_init-once_example :
    (x : ℕ) × (opened.ns ≡ some x)
    × (1 ≤ (opened.driver.session x).ns.qcount)
    × (8 < (opened.driver.session x).ns.qsize)
    × (do_unvme_init found (thread_of 5) opened
        ≡ (if within_limits (opened.driver.session x).ns 5 8 then returns opened else aborts))
do_unvme_init-once_example =
    do_unvme_init-once found found (thread_of 1) (thread_of 5) closed opened opened_lem

-- The second thread is beyond the limits, and a block of 4096 bytes has eight blocks of the namespace.
opened_nlb : opened.nlb ≡ 8
unfolding opened context_of do_unvme_init open_context check_limits open_name within_limits
opened_nlb = refl
