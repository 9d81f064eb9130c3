-- ===== src/Session/Sharing.antt =====
-- unvme_do_open, in src/unvme_core.c, of a device that has a session already.
use sxaurora_unvme.Base.{
  ℕ, ◌<◌, ◌≡◌, ◌≢◌, true, List, [], ◌∷◌, ◌++◌, some, none, arith, refl, sym, ap, ◌∙◌, subst, length,
  pos, ne→==-false, eq→==, Bool,
}
use sxaurora_unvme.Log.Count.{IsLog}
use sxaurora_unvme.Ring.{Links}
use sxaurora_unvme.Ring.Shape.{has, IsRing}
use sxaurora_unvme.Nvme.Command.{nvme_acmd_identify}
use sxaurora_unvme.Session.Types.{Driver, returns, hangs, OpenInput}
use sxaurora_unvme.Session.Table.{Found, session, refused, search}
use sxaurora_unvme.Session.Open.{join, add_session, enter, open_log, do_open}
use sxaurora_unvme.Session.Queues.{Closing}
use sxaurora_unvme.Session.Close.{do_close}
use sxaurora_unvme.Session.Lookup.{lookup, search-lookup, lookup-session, lookup-relog}
use sxaurora_unvme.Session.Refs.{log_users, IsTable, IsDriver, IsTable-relog}
use sxaurora_unvme.Session.Join.{IsJoinable, join-Joined}
use sxaurora_unvme.Session.Opening.{Fresh, users-snoc}

users-has : (xs : List ℕ) (x : ℕ) → has x xs ≡ true → log_users xs ≡ 1
users-has [] x on = ground arith
users-has (y ∷ ys) x on = refl

head_live :
    (l : Links) (head : ℕ) (xs : List ℕ) (x : ℕ) → IsRing l head xs → has x xs ≡ true → head ≢ 0
head_live l head [] x ring on = ground arith
head_live l head (y ∷ ys) x ring on = ground (arith, ring.0, ring.1)

lookup-some :
    (d : Driver) (pci nsid : ℕ) (xs : List ℕ)
    → lookup d pci nsid xs ≡ refused
    → (x : ℕ) × (has x xs ≡ true)
unfolding lookup
lookup-some d pci nsid [] e = ground arith
lookup-some d pci nsid (x ∷ xs) e = (x, ground arith)

module _ (i : OpenInput) (d : Driver) (xs : List ℕ) (pci nsid qcount qsize : ℕ)
    (inv : IsDriver d xs) (few : length xs < i.sessions) where
  held : Driver
  held = record d { locked = true }

  held-IsTable : IsTable held xs
  unfolding held
  held-IsTable = IsTable-relog d xs d.log true inv.table

  to_enter :
      (x : ℕ)
      → has x xs ≡ true
      → (f : Found) → lookup d pci nsid xs ≡ f
      → do_open i d pci nsid qcount qsize ≡ enter i held pci nsid qcount (some f)
  unfolding do_open open_log held
  to_enter x on f e =
      let live = ne→==-false d.ses 0 (head_live d.links d.ses xs x inv.table.ring on) in
      let s : search i.sessions held pci nsid d.ses ≡ some f =
        search-lookup i.sessions held pci nsid xs few held-IsTable.ring
        ∙ ap some (lookup-relog d pci nsid d.log true xs ∙ e) in
      rw (inv.quiet, live, s) refl

  -- If a session of the device is open, the first of them admits the namespace, and the device
  -- answers the identify command, unvme_do_open returns a new session of that device, and the driver
  -- is valid again.
  pub do_open-joins :
      (x : ℕ)
      → Fresh i d xs
      → lookup d pci nsid xs ≡ session x
      → (let dev = d.device (d.session x).dev in
          nvme_acmd_identify i.ns.polls dev.adminq.nvmeq dev.nvmedev.rdtsec nsid i.ns.dma 0).ret
        ≡ some (pos 0)
      → (t : Driver) × (do_open i d pci nsid qcount qsize
          ≡ returns (record { ret = some i.fresh_ses; driver = t }))
        × IsDriver t (xs ++ i.fresh_ses ∷ [])
        × ((t.session i.fresh_ses).dev ≡ (d.session x).dev)
  unfolding held enter add_session
  do_open-joins x fresh e ok =
      let p = (d.session x).dev in
      let dev = d.device p in
      let w = nvme_acmd_identify i.ns.polls dev.adminq.nvmeq dev.nvmedev.rdtsec nsid i.ns.dma 0 in
      let f = lookup-session d pci nsid xs x e in
      let can : IsJoinable held xs p = record {
        known = sym (inv.table.each x f.0).copied ∙ (inv.table.each x f.0).same;
        only = λ y on same. inv.table.shared y x on f.0 (same ∙ sym (inv.table.each x f.0).copied);
      } in
      let j = join-Joined i held xs p nsid held-IsTable can fresh.live fresh.ses w.queue in
      let users : held.log.count ≡ 1 = inv.users ∙ users-has xs x f.0 in
      (
        join i held w.queue p nsid,
        to_enter x f.0 (session x) e ∙ rw ok refl,
        record {
          table = j.table;
          log = subst IsLog (sym j.log) inv.log;
          users = ap (λ l. l.count) j.log ∙ users ∙ sym (users-snoc xs i.fresh_ses);
          quiet = j.free;
        },
        j.dev,
      )

  -- If the first open session of the device is of the namespace, or the device has no such namespace,
  -- unvme_do_open returns NULL and leaves the lock taken: every call of it after that waits for ever,
  -- and so does unvme_do_close of an open session.
  pub do_open-refused :
      lookup d pci nsid xs ≡ refused
      → (t : Driver) × (do_open i d pci nsid qcount qsize
          ≡ returns (record { ret = none; driver = t }))
        × ((j : OpenInput) (pci' nsid' qcount' qsize' : ℕ)
            → do_open j t pci' nsid' qcount' qsize' ≡ hangs)
        × ((c : Closing) (ok : Bool) (y : ℕ) → has y xs ≡ true → do_close c ok t y ≡ hangs)
  unfolding do_open do_close held enter
  do_open-refused e =
      let (x, on) = lookup-some d pci nsid xs e in
      (
        held,
        to_enter x on refused e,
        λ j pci' nsid' qcount' qsize'. refl,
        λ c ok y on'. rw (eq→== _ _ (inv.table.each y on').same) refl,
      )
