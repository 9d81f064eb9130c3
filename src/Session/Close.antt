-- ===== src/Session/Close.antt =====
-- unvme_cleanup and unvme_do_close of src/unvme_core.c.
use sxaurora_unvme.Base.{
  ℕ, ◌-◌, ◌%◌, ◌^◌, Bool, true, false, List, [], ◌∷◌, ◌++◌, pos, negsuc, ℤ, ◌==◌, if◌then◌else◌,
}
use sxaurora_unvme.Log.{log_close}
use sxaurora_unvme.Ring.{list_del}
use sxaurora_unvme.Session.Types.{Device, Driver, Outcome, returns, exits, hangs, then_do}
use sxaurora_unvme.Session.Queues.{Closing, delete_queues}
use sxaurora_unvme.Session.Open.{set_device}

-- What a call frees, in order: descriptors, devices and sessions by address.
pub record Closed : Type 0 where
  pub ret : ℤ
  pub freed : List ℕ
  pub driver : Driver

-- `if (--dev->refcount == 0) …`: the queues, then the device. vfio_delete calls exit(1) where
-- aurora_release fails.
unfoldable pub delete_device : Closing → (release_ok : Bool) → Device → (p : ℕ) → Outcome (List ℕ)
unfolding delete_queues
delete_device c release_ok dev p =
    if dev.refcount == 1
    then then_do (delete_queues c dev)
        (λ freed. if release_ok then returns (freed ++ p ∷ []) else exits)
    else returns []

-- `--dev->refcount`, and the end of unvme_cleanup
unfoldable pub leave : Driver → (ses : ℕ) → Driver
unfolding list_del log_close
leave d ses =
    let p = (d.session ses).dev in
    let dev = d.device p in
    let l = list_del d.links d.ses ses in
    record (set_device d p (record dev { refcount = dev.refcount - 1 })) {
      links = l.links;
      ses = l.head;
      log = if l.head == 0 then log_close d.log else d.log;
    }

-- unvme_cleanup(ses)
unfoldable pub cleanup : Closing → (release_ok : Bool) → Driver → (ses : ℕ) → Outcome Closed
unfolding delete_device leave
cleanup c release_ok d ses =
    let p = (d.session ses).dev in
    then_do (delete_device c release_ok (d.device p) p)
      (λ freed. returns (record { ret = pos 0; freed = freed ++ ses ∷ []; driver = leave d ses }))

abbrev pub unlock : Closed → Outcome Closed
unlock r = returns (record r { driver = record r.driver { locked = false } })

-- unvme_do_close(&ses->ns)
unfoldable pub do_close : Closing → (release_ok : Bool) → Driver → (ses : ℕ) → Outcome Closed
unfolding cleanup
do_close c release_ok d ses =
    let s = d.session ses in
    let end = then_do (cleanup c release_ok (record d { locked = true }) ses) unlock in
    if s.ns.pci == (d.device s.dev).pci % 2 ^ 32
    then (if d.locked then hangs else end)
    else returns (record { ret = negsuc 0; freed = []; driver = d })
