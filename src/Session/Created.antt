-- ===== src/Session/Created.antt =====
-- unvme_do_open, in src/unvme_core.c, of a device that has no session yet: its queues.
use sxaurora_unvme.Base.{
  ℕ, ◌<◌, ◌≡◌, List, [], Option, none, some, ltb, length, refl, true, sym, ap, ◌∙◌, subst, arith,
  eq→==,
}
use sxaurora_unvme.Nvme.Setup.{NvmeDevice, nvme_create}
use sxaurora_unvme.Nvme.Command.{nvme_acmd_identify, nvme_acmd_get_features}
use sxaurora_unvme.Core.State.{Queue}
use sxaurora_unvme.Core.Invariant.{IsQueue}
use sxaurora_unvme.Core.Keep.Poll.{nvmeq-IsQueue}
use sxaurora_unvme.Core.Keep.New.{Fresh}
use sxaurora_unvme.Session.Types.{
  Driver, Device, NsInfo, Controller, Outcome, returns, exits, then_do, OpenInput,
}
use sxaurora_unvme.Session.Limits.{ctlr_ns, set_queues}
use sxaurora_unvme.Session.Queues.{Created, Ioqs, adminq_create, create_ioqs}
use sxaurora_unvme.Session.Table.{absent, search}
use sxaurora_unvme.Session.Open.{
  Opened, set_device, NewDevice, set_up, build, join, new_device, add_session, store, enter,
  do_open,
}
use sxaurora_unvme.Session.Lookup.{lookup, search-lookup, lookup-relog}
use sxaurora_unvme.Session.Refs.{
  returned, exited, hung, if-Ends, on_zero-Ends, IsDriver, Ends, then_do-Ends, IsTable-relog,
}
use sxaurora_unvme.Session.Opening.{IsLogged, open_log-IsLogged}
use sxaurora_unvme.Session.Ready.{Ready, AllReady, adminq_create-Ready, create_ioqs-AllReady}

-- The device has as many I/O queues as its namespace says, of 256 entries each, numbered from 1 on; all
-- are ready for use, and the admin queue is valid.
pub record IsReady (c : Controller) (dev : Device) : Type 0 where
  pub admin : IsQueue dev.adminq [] c.adminmem.fresh
  pub ioqs : AllReady 256 c.ioq 0 dev.ioqs
  pub count : length dev.ioqs ≡ dev.ns.qcount
  pub size : dev.ns.qsize ≡ 256

-- The addresses that zalloc returns for the descriptors of the queues.
pub record Memory (c : Controller) : Type 0 where
  pub admin : Fresh [] c.adminmem.fresh
  pub ioq : (i : ℕ) → Fresh [] (c.ioq i).mem.fresh

abbrev NewReady : Controller → Option NewDevice → Type 0
NewReady c none = Unit {0}
NewReady c (some n) = IsReady c n.dev

module _ (c : Controller) (memory : Memory c) where
  built :
      (n : NvmeDevice) (pci : ℕ) (ns : NsInfo) (adminq : Queue) (o : Outcome Ioqs)
      → IsQueue adminq [] c.adminmem.fresh
      → ns.qsize ≡ 256
      → Ends (λ r. AllReady 256 c.ioq 0 r.ioqs × (length r.ioqs ≡ ns.qcount)) o
      → Ends (NewReady c) (then_do o (λ q. returns (some (build n pci ns adminq q))))
  unfolding build
  built n pci ns adminq o v size e =
      then_do-Ends (λ r. AllReady 256 c.ioq 0 r.ioqs × (length r.ioqs ≡ ns.qcount)) (NewReady c) o
        (λ q. returns (some (build n pci ns adminq q))) e
        (λ q (all, count). returned _ (record {
          admin = nvmeq-IsQueue adminq [] c.adminmem.fresh q.adminq v;
          ioqs = all;
          count = count;
          size = size;
        }))

  set_up-NewReady :
      (n : NvmeDevice) (old : Queue) (pci nsid qcount : ℕ) (a : Created)
      → IsQueue a.queue [] c.adminmem.fresh
      → Ends (NewReady c) (set_up c n old pci nsid qcount a)
  unfolding set_up set_queues
  set_up-NewReady n old pci nsid qcount a v =
      let w = nvme_acmd_identify c.identify a.queue.nvmeq n.rdtsec 0 c.identify_dma 0 in
      let f = nvme_acmd_get_features c.features c.after w.queue n.rdtsec 0 0x7 0 0 in
      let ns = set_queues (ctlr_ns pci n c.idc) f.res qcount in
      on_zero-Ends (NewReady c) w.ret _ (
        if-Ends (NewReady c) (ltb c.idc.nn nsid) _ _ (returned none tt) (
          on_zero-Ends (NewReady c) f.waited.ret _ (
            built n pci ns a.queue
              (create_ioqs ns.qcount 0 n c.ioq old f.waited.queue ns.qsize a.last_id) v refl
              (create_ioqs-AllReady 256 (omega arith) (omega arith) n c.ioq memory.ioq old ns.qcount
                0 f.waited.queue a.last_id))))

-- After the call the device is ready, if a session is returned.
abbrev ReadyAfter : OpenInput → Option ℕ → Driver → Type 0
ReadyAfter i none d = Unit {0}
ReadyAfter i (some x) d = IsReady i.controller (d.device i.fresh_dev)

abbrev pub OpensReady : OpenInput → Opened → Type 0
OpensReady i o = ReadyAfter i o.ret o.driver

module _ (i : OpenInput) (memory : Memory i.controller) where
  new_device-NewReady :
      (old : Queue) (last_id pci nsid qcount : ℕ)
      → Ends (NewReady i.controller) (new_device i old last_id pci nsid qcount)
  unfolding new_device
  new_device-NewReady old last_id pci nsid qcount =
      let c = i.controller in
      let n = nvme_create c.cap c.rdtsec in
      let a = adminq_create n c old 64 last_id in
      if-Ends (NewReady c) i.init_ok (then_do a (set_up c n old pci nsid qcount)) exits
        (then_do-Ends (λ a. Ready 0 64 c.adminmem.fresh a.queue) (NewReady c) a
          (set_up c n old pci nsid qcount)
          (adminq_create-Ready n c old 64 last_id (omega arith) (omega arith) memory.admin)
          (λ a r. set_up-NewReady c memory n old pci nsid qcount a r.valid))
        exited

  -- A new session changes only the count and the NVMe admin queue of its device.
  add_session-Ready :
      (d : Driver) (nsid : ℕ)
      → IsReady i.controller (d.device i.fresh_dev)
      → Ends (OpensReady i) (add_session i d i.fresh_dev nsid)
  unfolding add_session join
  add_session-Ready d nsid r =
      let p = i.fresh_dev in
      let dev = d.device p in
      let w = nvme_acmd_identify i.ns.polls dev.adminq.nvmeq dev.nvmedev.rdtsec nsid i.ns.dma 0 in
      let admin = nvmeq-IsQueue dev.adminq [] i.controller.adminmem.fresh w.queue r.admin in
      on_zero-Ends (OpensReady i) w.ret
        (returns (record { ret = some i.fresh_ses; driver = join i d w.queue p nsid }))
        (returned _ (
          rw (eq→== p p refl)
            (record { admin = admin; ioqs = r.ioqs; count = r.count; size = r.size })))

  store-Ready :
      (d : Driver) (nsid : ℕ) (o : Option NewDevice)
      → NewReady i.controller o
      → Ends (OpensReady i) (store i d nsid o)
  unfolding store
  store-Ready d nsid none r = returned _ tt
  store-Ready d nsid (some n) r =
      let stored = record (set_device d i.fresh_dev n.dev) { last_id = n.last_id } in
      add_session-Ready stored nsid (rw (eq→== i.fresh_dev i.fresh_dev refl) r)

  -- However the device answers, if unvme_do_open of a device without a session returns a session, then
  -- the device has the number of I/O queues that it names, numbered from 1 on, each a valid queue of
  -- 256 entries with no id in use and no completion seen, and a valid admin queue.
  pub do_open-Ready :
      (d : Driver) (xs : List ℕ) (pci nsid qcount qsize : ℕ)
      → IsDriver d xs
      → length xs < i.sessions
      → lookup d pci nsid xs ≡ absent
      → Ends (OpensReady i) (do_open i d pci nsid qcount qsize)
  unfolding do_open enter
  do_open-Ready d xs pci nsid qcount qsize inv few e = if-Ends (OpensReady i) d.locked _ _ hung (
      then_do-Ends (IsLogged d) (OpensReady i) _ _ (open_log-IsLogged i.log_opens d xs inv)
        (λ t (l, same, is, one).
          subst
            (λ u.
              Ends (OpensReady i) (enter i u pci nsid qcount (search i.sessions u pci nsid u.ses)))
            (sym same)
            (let u = record d { log = l; locked = true } in
              let k = IsTable-relog d xs l true inv.table in
              let s =
                search-lookup i.sessions u pci nsid xs few k.ring
                ∙ ap some (lookup-relog d pci nsid l true xs ∙ e) in
              rw s (
                then_do-Ends (NewReady i.controller) (OpensReady i) _ (store i u nsid)
                  (new_device-NewReady _ _ pci nsid qcount) (store-Ready u nsid)))))
