-- ===== src/Session/Opening.antt =====
-- What unvme_do_open, in src/unvme_core.c, does to the sessions.
use sxaurora_unvme.Base.{
  ℕ, ◌%◌, ◌^◌, ◌<◌, ◌≡◌, ◌≢◌, Bool, true, false, List, [], ◌∷◌, ◌++◌, Option, some, none, ◌==◌, ltb,
  arith, refl, sym, ap, ◌∙◌, subst, length, Bool-cases, inl, inr, ==→eq, eq→==, ne→==-false, dec_lt,
}
use sxaurora_unvme.Log.{Log}
use sxaurora_unvme.Log.Count.{IsLog, log_open-first, log_open-refused}
use sxaurora_unvme.Ring.Shape.{has}
use sxaurora_unvme.Core.Total.{total, total-pos}
use sxaurora_unvme.Core.State.{Queue}
use sxaurora_unvme.Nvme.Setup.{NvmeDevice, nvme_create}
use sxaurora_unvme.Nvme.Command.{nvme_acmd_identify, nvme_acmd_get_features}
use sxaurora_unvme.Session.Queues.{Created, Ioqs, adminq_create, create_ioqs}
use sxaurora_unvme.Session.Types.{
  Driver, Device, NsInfo, Controller, Outcome, returns, exits, then_do, OpenInput,
}
use sxaurora_unvme.Session.Limits.{ctlr_ns, set_queues}
use sxaurora_unvme.Session.Table.{Found, session, absent, refused, search}
use sxaurora_unvme.Session.Open.{
  Opened, NewDevice, set_device, open_log, set_up, build, join, new_device, add_session, store,
  enter, do_open,
}
use sxaurora_unvme.Session.Lookup.{lookup, search-lookup, lookup-absent, lookup-session}
use sxaurora_unvme.Session.Refs.{
  refs, returned, exited, hung, if-Ends, on_zero-Ends, IsTable, IsDriver, log_users, Ends, Ends-any,
  then_do-Ends, IsTable-relog,
}
use sxaurora_unvme.Session.Join.{IsJoinable, join-Joined}

-- The addresses that zalloc returns are not in use.
pub record Fresh (i : OpenInput) (d : Driver) (xs : List ℕ) : Type 0 where
  pub live : i.fresh_ses ≢ 0
  pub ses : has i.fresh_ses xs ≡ false
  pub dev : (x : ℕ) → has x xs ≡ true → (d.session x).dev ≢ i.fresh_dev

-- The end of a call: the new session is the last of the ring; or NULL, with the lock still taken.
abbrev pub After : OpenInput → List ℕ → Option ℕ → Driver → Type 0
After i xs none t = t.locked ≡ true
After i xs (some x) t = (x ≡ i.fresh_ses) × IsDriver t (xs ++ x ∷ [])

abbrev pub Opens : OpenInput → List ℕ → Opened → Type 0
Opens i xs o = After i xs o.ret o.driver

pub users-snoc : (xs : List ℕ) (x : ℕ) → log_users (xs ++ x ∷ []) ≡ 1
users-snoc [] x = refl
users-snoc (y ∷ ys) x = refl

-- The device that is set up.
abbrev IsNew : ℕ → Option NewDevice → Type 0
IsNew pci none = Unit {0}
IsNew pci (some n) = (n.dev.refcount ≡ 0) × (n.dev.pci ≡ pci) × (n.dev.ns.pci ≡ pci % 2 ^ 32)

ready :
    (n : NvmeDevice) (pci : ℕ) (ns : NsInfo) (adminq : Queue) (o : Outcome Ioqs)
    → ns.pci ≡ pci % 2 ^ 32
    → Ends (IsNew pci) (then_do o (λ q. returns (some (build n pci ns adminq q))))
unfolding build
ready n pci ns adminq o e =
    then_do-Ends (λ q. Unit {0}) (IsNew pci) o (λ q. returns (some (build n pci ns adminq q)))
      (Ends-any o) (λ q u. returned _ (refl, refl, e))

set_up-IsNew :
    (c : Controller) (n : NvmeDevice) (old : Queue) (pci nsid qcount : ℕ) (a : Created)
    → Ends (IsNew pci) (set_up c n old pci nsid qcount a)
unfolding set_up ctlr_ns set_queues
set_up-IsNew c n old pci nsid qcount a =
    let w = nvme_acmd_identify c.identify a.queue.nvmeq n.rdtsec 0 c.identify_dma 0 in
    let f = nvme_acmd_get_features c.features c.after w.queue n.rdtsec 0 0x7 0 0 in
    let ns = set_queues (ctlr_ns pci n c.idc) f.res qcount in
    on_zero-Ends (IsNew pci) w.ret _ (
      if-Ends (IsNew pci) (ltb c.idc.nn nsid) _ _ (returned none tt) (
        on_zero-Ends (IsNew pci) f.waited.ret _ (
          ready n pci ns a.queue
            (create_ioqs ns.qcount 0 n c.ioq old f.waited.queue ns.qsize a.last_id) refl)))

new_device-IsNew :
    (i : OpenInput) (old : Queue) (last_id pci nsid qcount : ℕ)
    → Ends (IsNew pci) (new_device i old last_id pci nsid qcount)
unfolding new_device
new_device-IsNew i old last_id pci nsid qcount =
    let c = i.controller in
    let n = nvme_create c.cap c.rdtsec in
    let a = adminq_create n c old 64 last_id in
    if-Ends (IsNew pci) i.init_ok (then_do a (set_up c n old pci nsid qcount)) exits
      (then_do-Ends (λ a. Unit {0}) (IsNew pci) a (set_up c n old pci nsid qcount) (Ends-any a)
        (λ a u. set_up-IsNew c n old pci nsid qcount a))
      exited

module _ (i : OpenInput) (t : Driver) (xs : List ℕ) (k : IsTable t xs) (fresh : Fresh i t xs)
    (log : IsLog t.log) (one : t.log.count ≡ 1) where
  add-Opens : (p nsid : ℕ) → IsJoinable t xs p → Ends (Opens i xs) (add_session i t p nsid)
  unfolding add_session
  add-Opens p nsid can =
      let dev = t.device p in
      let w = nvme_acmd_identify i.ns.polls dev.adminq.nvmeq dev.nvmedev.rdtsec nsid i.ns.dma 0 in
      let j = join-Joined i t xs p nsid k can fresh.live fresh.ses w.queue in
      on_zero-Ends (Opens i xs) w.ret
        (returns (record { ret = some i.fresh_ses; driver = join i t w.queue p nsid }))
        (returned _ (
          refl,
          record {
            table = j.table;
            log = subst IsLog (sym j.log) log;
            users = ap (λ l. l.count) j.log ∙ one ∙ sym (users-snoc xs i.fresh_ses);
            quiet = j.free;
          },
        ))

  pub joinable :
      (pci nsid x : ℕ) → lookup t pci nsid xs ≡ session x → IsJoinable t xs (t.session x).dev
  joinable pci nsid x e =
      let f = lookup-session t pci nsid xs x e in
      record {
        known = sym (k.each x f.0).copied ∙ (k.each x f.0).same;
        only = λ y on same. k.shared y x on f.0 (same ∙ sym (k.each x f.0).copied);
      }

-- A device that is stored where no session's device is.
module _ (i : OpenInput) (t : Driver) (xs : List ℕ) (k : IsTable t xs) (fresh : Fresh i t xs)
    (n : NewDevice) (pci : ℕ) (is : IsNew pci (some n)) where
  stored : Driver
  stored = record (set_device t i.fresh_dev n.dev) { last_id = n.last_id }

  unused : total (refs t i.fresh_dev) xs ≡ 0
  unfolding refs
  unused = elim (dec_lt 0 (total (refs t i.fresh_dev) xs)) [
    | yes some_ref ↦
        let (x, on, is_ref) = total-pos _ xs some_ref in
        absurd (fresh.dev x on (ground (arith, is_ref)))
    | no none_ref ↦ omega arith
  ]

  spared : (x : ℕ) → has x xs ≡ true → stored.device (t.session x).dev ≡ t.device (t.session x).dev
  unfolding stored
  spared x on = rw (ne→==-false (t.session x).dev i.fresh_dev (fresh.dev x on)) refl

  stored-IsTable : IsTable stored xs
  unfolding stored refs
  stored-IsTable = record {
    ring = k.ring;
    counted = λ q. elim (Bool-cases (q == i.fresh_dev)) [
      | inl e ↦ rw (e, is.0, ==→eq q i.fresh_dev e) (sym unused)
      | inr e ↦ rw e (k.counted q)
    ];
    each = λ x on. record {
      same = (k.each x on).same ∙ ap (λ (v : Device). v.pci % 2 ^ 32) (sym (spared x on));
      copied = (k.each x on).copied ∙ ap (λ (v : Device). v.ns.pci) (sym (spared x on));
    };
    shared = k.shared;
  }

  stored-IsJoinable :
      ((x : ℕ) → has x xs ≡ true → (t.session x).ns.pci ≢ pci % 2 ^ 32)
      → IsJoinable stored xs i.fresh_dev
  unfolding stored
  stored-IsJoinable none_of = record {
    known = rw (eq→== i.fresh_dev i.fresh_dev refl) (is.2 ∙ ap (λ n. n % 2 ^ 32) (sym is.1));
    only = λ y on same. absurd (none_of y on (same ∙ rw (eq→== i.fresh_dev i.fresh_dev refl) is.2));
  }

  stored-Fresh : Fresh i stored xs
  unfolding stored
  stored-Fresh = record { live = fresh.live; ses = fresh.ses; dev = fresh.dev }

-- The part behind the search.
module _ (i : OpenInput) (t : Driver) (xs : List ℕ) (k : IsTable t xs) (fresh : Fresh i t xs)
    (log : IsLog t.log) (one : t.log.count ≡ 1) (held : t.locked ≡ true) (pci nsid qcount : ℕ) where
  store-Opens :
      ((x : ℕ) → has x xs ≡ true → (t.session x).ns.pci ≢ pci % 2 ^ 32)
      → (o : Option NewDevice) → IsNew pci o
      → Ends (Opens i xs) (store i t nsid o)
  unfolding store stored
  store-Opens none_of none is = returned _ held
  store-Opens none_of (some n) is =
      add-Opens i (stored i t xs k fresh n pci is) xs (stored-IsTable i t xs k fresh n pci is)
        (stored-Fresh i t xs k fresh n pci is) log one i.fresh_dev nsid
        (stored-IsJoinable i t xs k fresh n pci is none_of)

  enter-Opens :
      (found : Found)
      → lookup t pci nsid xs ≡ found
      → Ends (Opens i xs) (enter i t pci nsid qcount (some found))
  unfolding enter
  enter-Opens refused e = returned _ held
  enter-Opens (session x) e =
      add-Opens i t xs k fresh log one (t.session x).dev nsid
        (joinable i t xs k fresh log one pci nsid x e)
  enter-Opens absent e =
      let o = new_device i (t.device i.fresh_dev).adminq t.last_id pci nsid qcount in
      then_do-Ends (IsNew pci) (Opens i xs) o (store i t nsid)
        (new_device-IsNew i _ _ pci nsid qcount)
        (store-Opens (λ x. lookup-absent t pci nsid xs x e))

-- The log behind the first part of unvme_do_open.
abbrev pub IsLogged : Driver → Driver → Type 0
IsLogged d t = (l : Log) × (t ≡ record d { log = l; locked = true }) × IsLog l × (l.count ≡ 1)

pub open_log-IsLogged :
    (opens : Bool) (d : Driver) (xs : List ℕ)
    → IsDriver d xs
    → Ends (IsLogged d) (open_log opens (record d { locked = true }))
unfolding open_log
open_log-IsLogged true d [] inv =
    let (ok, is, one) = log_open-first d.log inv.log inv.users in
    rw (eq→== d.ses 0 inv.table.ring, ok) (returned _ (_, refl, is, one))
open_log-IsLogged false d [] inv =
    rw (eq→== d.ses 0 inv.table.ring, log_open-refused d.log inv.log inv.users) exited
open_log-IsLogged opens d (x ∷ xs) inv =
    let some_ses : (d.ses == 0) ≡ false = ground (arith, inv.table.ring.0, inv.table.ring.1) in
    rw some_ses (returned _ (d.log, refl, inv.log, inv.users))

-- However the device answers, unvme_do_open of a valid driver, if it returns, returns a new session,
-- which is the last of the ring of a driver that is valid again; or it returns NULL and leaves the
-- lock taken.
pub do_open-Opens :
    (i : OpenInput) (d : Driver) (xs : List ℕ) (pci nsid qcount qsize : ℕ)
    → IsDriver d xs
    → Fresh i d xs
    → length xs < i.sessions
    → Ends (Opens i xs) (do_open i d pci nsid qcount qsize)
unfolding do_open
do_open-Opens i d xs pci nsid qcount qsize inv fresh few = if-Ends (Opens i xs) d.locked _ _ hung (
    then_do-Ends (IsLogged d) (Opens i xs) _ _ (open_log-IsLogged i.log_opens d xs inv)
      (λ t (l, e, is, one).
        subst
          (λ u. Ends (Opens i xs) (enter i u pci nsid qcount (search i.sessions u pci nsid u.ses)))
          (sym e)
          (let u = record d { log = l; locked = true } in
            let k = IsTable-relog d xs l true inv.table in
            rw (search-lookup i.sessions u pci nsid xs few k.ring) (
              enter-Opens i u xs k (record { live = fresh.live; ses = fresh.ses; dev = fresh.dev })
                is one refl pci nsid qcount _ refl))))
