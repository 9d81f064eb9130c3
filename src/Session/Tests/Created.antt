-- ===== src/Session/Tests/Created.antt =====
-- The first session of a device, in src/unvme_core.c.
use sxaurora_unvme.Base.{ℕ, ◌≢◌, [], arith, refl, suc}
use sxaurora_unvme.Session.Open.{do_open}
use sxaurora_unvme.Session.Refs.{Ends}
use sxaurora_unvme.Session.Created.{Memory, OpensReady, do_open-Ready}
use sxaurora_unvme.Session.Lookup.{lookup}
use sxaurora_unvme.Session.Tests.{new_input, driver0, driver0-IsDriver}

nonzero : (n : ℕ) → suc n ≢ 0
nonzero n = omega arith

new_input-Memory : Memory new_input.controller
new_input-Memory = record {
  admin = (nonzero _, refl, (nonzero _, refl, tt));
  ioq = λ i. (nonzero _, refl, (nonzero _, refl, tt));
}

do_open-Ready_example : Ends (OpensReady new_input) (do_open new_input driver0 0x30000 1 0 0)
unfolding lookup
do_open-Ready_example =
    do_open-Ready new_input new_input-Memory driver0 [] 0x30000 1 0 0 driver0-IsDriver (omega arith)
      refl
