-- ===== src/Session/Closing.antt =====
-- What unvme_do_close, in src/unvme_core.c, does to the sessions.
use sxaurora_unvme.Base.{
  ℕ, ◌+◌, ◌%◌, ◌^◌, ◌<◌, ◌≡◌, ◌≢◌, Bool, true, false, List, [], ◌∷◌, ◌++◌, ◌==◌, arith, refl, sym,
  ap, ◌∙◌, Bool-cases, inl, inr, ==→eq, eq→==, ==-false→ne, ne→==-false, pos, dec_lt,
}
use sxaurora_unvme.Log.Count.{IsLog, log_close-last}
use sxaurora_unvme.Ring.{Links, list_del}
use sxaurora_unvme.Ring.Shape.{has, has-append, erase, IsRing}
use sxaurora_unvme.Ring.Del.{list_del-IsRing, has-erase-le}
use sxaurora_unvme.Core.Total.{total, total-erase, total-ge, total-pos}
use sxaurora_unvme.Session.Types.{Driver, Device, exits, returns, hangs, then_do}
use sxaurora_unvme.Session.Queues.{Closing, delete_queues}
use sxaurora_unvme.Session.Close.{Closed, delete_device, leave, cleanup, unlock, do_close}
use sxaurora_unvme.Session.Refs.{
  refs, IsTable, IsDriver, log_users, Ends, Ends-any, then_do-Ends, if-Ends, returned, exited, hung,
  IsTable-relog,
}

-- unvme_do_close of session `x`: it leaves the ring, and a device that has no session left is freed.
pub record Closes (d : Driver) (xs : List ℕ) (x : ℕ) (c : Closed) : Type 0 where
  pub ret : c.ret ≡ pos 0
  pub driver : IsDriver c.driver (erase x xs)
  pub freed :
      ((y : ℕ) → has y (erase x xs) ≡ true → (d.session y).dev ≢ (d.session x).dev)
      → has (d.session x).dev c.freed ≡ true
  pub kept :
      (y : ℕ) → has y (erase x xs) ≡ true → (d.session y).dev ≡ (d.session x).dev → c.freed ≡ x ∷ []

module _ (d : Driver) (xs : List ℕ) (x : ℕ) (t : IsTable d xs) (on : has x xs ≡ true) where
  p : ℕ
  p = (d.session x).dev

  own : refs d p x ≡ 1
  unfolding refs p
  own = rw (eq→== (d.session x).dev (d.session x).dev refl) refl

  positive : 0 < (d.device p).refcount
  positive = omega (arith, own, total-ge (refs d p) x xs on, t.counted p)

  devices :
      (q : ℕ)
      → (((leave d x).device q).pci ≡ (d.device q).pci)
        × (((leave d x).device q).ns ≡ (d.device q).ns)
        × (((leave d x).device q).refcount + refs d q x ≡ (d.device q).refcount)
  unfolding leave refs p
  devices q = elim (Bool-cases (q == p)) [
    | inl e ↦ rw (e, ==→eq q p e, eq→== p p refl) (refl, refl, omega (arith, positive))
    | inr e ↦ rw (e, ne→==-false p q (λ k. ground arith)) (refl, refl, omega arith)
  ]

  leave-IsTable : IsTable (leave d x) (erase x xs)
  unfolding leave refs
  leave-IsTable = record {
    ring = list_del-IsRing d.links d.ses x xs t.ring on;
    counted =
        λ q. let k = total-erase (refs d q) x xs on in omega (arith, k, (devices q).2, t.counted q);
    each = λ y on'.
        let s = t.each y (has-erase-le y x xs on') in
        record {
          same = s.same ∙ ap (λ n. n % 2 ^ 32) (sym (devices (d.session y).dev).0);
          copied = s.copied ∙ ap (λ n. n.pci) (sym (devices (d.session y).dev).1);
        };
    shared = λ y z on' on''. t.shared y z (has-erase-le y x xs on') (has-erase-le z x xs on'');
  }

  -- The sessions of the device but this one.
  rest : total (refs d p) (erase x xs) + 1 ≡ (d.device p).refcount
  rest = omega (arith, total-erase (refs d p) x xs on, own, t.counted p)

  alone : ((y : ℕ) → has y (erase x xs) ≡ true → (d.session y).dev ≢ p) → (d.device p).refcount ≡ 1
  unfolding refs
  alone none_other = elim (dec_lt 0 (total (refs d p) (erase x xs))) [
    | yes some_ref ↦
        let (y, on', is_ref) = total-pos _ (erase x xs) some_ref in
        absurd (none_other y on' (ground (arith, is_ref)))
    | no none_ref ↦ omega (arith, rest)
  ]

  in_use : (y : ℕ) → has y (erase x xs) ≡ true → (d.session y).dev ≡ p → (d.device p).refcount ≢ 1
  unfolding refs
  in_use y on' e one =
      let k = total-ge (refs d p) y (erase x xs) on' in
      let r : refs d p y ≡ 1 = rw (eq→== (d.session y).dev p e) refl in
      absurd (omega (arith, k, r, rest))

-- What delete_device frees.
abbrev Frees : Device → (p : ℕ) → List ℕ → Type 0
Frees dev p freed = (dev.refcount ≡ 1 → has p freed ≡ true) × (dev.refcount ≢ 1 → freed ≡ [])

delete_device-Frees :
    (c : Closing) (release_ok : Bool) (dev : Device) (p : ℕ)
    → Ends (Frees dev p) (delete_device c release_ok dev p)
unfolding delete_device
delete_device-Frees c release_ok dev p = elim (Bool-cases (dev.refcount == 1)) [
  | inl e ↦ rw e (
      then_do-Ends (λ freed. Unit {0}) (Frees dev p) (delete_queues c dev) _
        (Ends-any (delete_queues c dev))
        (λ freed u.
          if-Ends (Frees dev p) release_ok (returns (freed ++ p ∷ [])) exits
            (returned _ (
              λ k. ground (arith, has-append p freed (p ∷ [])),
              λ k. absurd (k (==→eq dev.refcount 1 e)),
            ))
            exited))
  | inr e ↦ rw e (returned [] (λ k. ground arith, λ k. refl))
]

users-erase : (xs : List ℕ) (x : ℕ) → has x xs ≡ true → log_users xs ≡ 1
users-erase [] x on = ground arith
users-erase (y ∷ ys) x on = refl

nonempty-users :
    (l : Links) (head : ℕ) (zs : List ℕ) → IsRing l head zs → (head ≢ 0) → log_users zs ≡ 1
nonempty-users l head [] ring ne = absurd (ne ring)
nonempty-users l head (z ∷ zs) ring ne = refl

empty-users : (l : Links) (head : ℕ) (zs : List ℕ) → IsRing l head zs → head ≡ 0 → log_users zs ≡ 0
empty-users l head [] ring e = refl
empty-users l head (z ∷ zs) ring e = ground (arith, ring.0, ring.1)

module _ (d : Driver) (xs : List ℕ) (x : ℕ) (inv : IsDriver d xs) (on : has x xs ≡ true) where
  -- The driver behind unvme_cleanup.
  locked : Driver
  locked = record d { locked = true }

  locked-IsTable : IsTable locked xs
  unfolding locked
  locked-IsTable = IsTable-relog d xs d.log true inv.table

  left : Driver
  left = record (leave locked x) { locked = false }

  ring : IsRing left.links left.ses (erase x xs)
  unfolding left
  ring = (leave-IsTable locked xs x locked-IsTable on).ring

  logged : IsLog left.log × (left.log.count ≡ log_users (erase x xs))
  unfolding left leave locked
  logged =
      let one : d.log.count ≡ 1 = inv.users ∙ users-erase xs x on in
      let head = (list_del d.links d.ses x).head in
      elim (Bool-cases (head == 0)) [
        | inl e ↦
            let (is, none_left) = log_close-last d.log inv.log one in
            rw (e, empty-users left.links left.ses (erase x xs) ring (==→eq head 0 e))
              (is, none_left)
        | inr e ↦
            rw (e, nonempty-users left.links left.ses (erase x xs) ring (==-false→ne head 0 e))
              (inv.log, one)
      ]

  left-IsDriver : IsDriver left (erase x xs)
  unfolding left
  left-IsDriver = record {
    table =
        IsTable-relog (leave locked x) (erase x xs) (leave locked x).log false
          (leave-IsTable locked xs x locked-IsTable on);
    log = logged.0;
    users = logged.1;
    quiet = refl;
  }

  closed : List ℕ → Closed
  closed freed = record { ret = pos 0; freed = freed ++ x ∷ []; driver = left }

  closed-Closes :
      (freed : List ℕ)
      → Frees (d.device (d.session x).dev) (d.session x).dev freed
      → Closes d xs x (closed freed)
  unfolding closed locked p
  closed-Closes freed f = record {
    ret = refl;
    driver = left-IsDriver;
    freed = λ none_other.
        let k = f.0 (alone locked xs x locked-IsTable on none_other) in
        ground (arith, k, has-append (d.session x).dev freed (x ∷ []));
    kept = λ y on' e. rw (f.1 (in_use locked xs x locked-IsTable on y on' e)) refl;
  }

  -- However the device answers, unvme_do_close of an open session, if it returns, returns 0: the
  -- session has left the ring, the driver is valid again, and the device is freed if no other session
  -- uses it; else nothing is freed but the session.
  pub do_close-Closes :
      (c : Closing) (release_ok : Bool) → Ends (Closes d xs x) (do_close c release_ok d x)
  unfolding do_close cleanup closed left locked
  do_close-Closes c release_ok =
      let P = Closes d xs x in
      let p = (d.session x).dev in
      let fs = delete_device c release_ok (d.device p) p in
      let end = λ (freed : List ℕ). record (closed freed) { driver = leave locked x } in
      rw (eq→== _ _ (inv.table.each x on).same) (
        if-Ends P d.locked hangs _ hung (
          then_do-Ends (λ r. P (record r { driver = record r.driver { locked = false } })) P
            (then_do fs (λ freed. returns (end freed))) unlock
            (then_do-Ends (Frees (d.device p) p) _ fs (λ freed. returns (end freed))
              (delete_device-Frees c release_ok (d.device p) p)
              (λ freed f. returned _ (closed-Closes freed f)))
            (λ r h. returned _ h)))

  -- While another session uses the device, unvme_do_close of an open session returns 0 without asking
  -- the device anything: it frees the session and nothing else, and the driver is valid again.
  pub do_close-shared :
      (c : Closing) (release_ok : Bool) (y : ℕ)
      → has y (erase x xs) ≡ true
      → (d.session y).dev ≡ (d.session x).dev
      → (r : Closed) × (do_close c release_ok d x ≡ returns r)
        × (r.ret ≡ pos 0)
        × (r.freed ≡ x ∷ [])
        × IsDriver r.driver (erase x xs)
  unfolding do_close cleanup closed left locked delete_device p
  do_close-shared c release_ok y on' e =
      let more = ne→==-false _ 1 (in_use locked xs x locked-IsTable on y on' e) in
      (
        closed [],
        rw (eq→== _ _ (inv.table.each x on).same, more, inv.quiet) refl,
        refl,
        refl,
        left-IsDriver,
      )
