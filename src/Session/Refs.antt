-- ===== src/Session/Refs.antt =====
-- What holds of the sessions and devices of src/unvme_core.c, and the list operations on them.
use sxaurora_unvme.Base.{
  ℕ, ◌%◌, ◌^◌, ◌≡◌, Bool, true, false, List, [], ◌∷◌, ◌==◌, if◌then◌else◌, Option, some, none, ℤ,
  pos, negsuc,
}
use sxaurora_unvme.Ring.Shape.{has, IsRing}
use sxaurora_unvme.Core.Total.{total}
use sxaurora_unvme.Log.{Log}
use sxaurora_unvme.Log.Count.{IsLog}
use sxaurora_unvme.Session.Open.{on_zero}
use sxaurora_unvme.Session.Types.{Driver, Outcome, returns, aborts, exits, faults, hangs, then_do}

-- 1 if session `x` is of device `p`, and else 0
unfoldable pub refs : Driver → (p x : ℕ) → ℕ
refs d p x = if (d.session x).dev == p then 1 else 0

-- A session knows the PCI number of its device, which is also in the namespace that it is copied from.
pub record IsSession (d : Driver) (x : ℕ) : Type 0 where
  pub same : (d.session x).ns.pci ≡ (d.device (d.session x).dev).pci % 2 ^ 32
  pub copied : (d.session x).ns.pci ≡ (d.device (d.session x).dev).ns.pci

-- `xs` are the sessions, in the order of the ring: each device counts its sessions, and sessions with
-- the same PCI number share their device.
pub record IsTable (d : Driver) (xs : List ℕ) : Type 0 where
  pub ring : IsRing d.links d.ses xs
  pub counted : (p : ℕ) → (d.device p).refcount ≡ total (refs d p) xs
  pub each : (x : ℕ) → has x xs ≡ true → IsSession d x
  pub shared :
      (x y : ℕ)
      → has x xs ≡ true
      → has y xs ≡ true
      → (d.session x).ns.pci ≡ (d.session y).ns.pci
      → (d.session x).dev ≡ (d.session y).dev

-- The log is open once if there are sessions, and not if there are none.
abbrev pub log_users : List ℕ → ℕ
log_users [] = 0
log_users (x ∷ xs) = 1

-- What holds of the driver between calls.
pub record IsDriver (d : Driver) (xs : List ℕ) : Type 0 where
  pub table : IsTable d xs
  pub log : IsLog d.log
  pub users : d.log.count ≡ log_users xs
  pub quiet : d.locked ≡ false

-- The property holds of what a call returns, if it returns.
pub data Ends {A : Type 0} (P : A → Type 0) : Outcome A → Type 0 where
  returned : (a : A) → P a → Ends P (returns a)
  aborted : Ends P aborts
  exited : Ends P exits
  faulted : Ends P faults
  hung : Ends P hangs

pub of_Ends : {A : Type 0} (P : A → Type 0) (a : A) → Ends P (returns a) → P a
of_Ends P a (returned _ h) = h

pub then_do-Ends :
    {A B : Type 0} (P : A → Type 0) (Q : B → Type 0) (o : Outcome A) (k : A → Outcome B)
    → Ends P o
    → ((a : A) → P a → Ends Q (k a))
    → Ends Q (then_do o k)
then_do-Ends P Q _ k (returned a h) next = next a h
then_do-Ends P Q _ k aborted next = aborted
then_do-Ends P Q _ k exited next = exited
then_do-Ends P Q _ k faulted next = faulted
then_do-Ends P Q _ k hung next = hung

pub Ends-any : {A : Type 0} (o : Outcome A) → Ends (λ a. Unit {0}) o
Ends-any (returns a) = returned a tt
Ends-any aborts = aborted
Ends-any exits = exited
Ends-any faults = faulted
Ends-any hangs = hung

module _ {A : Type 0} (P : A → Type 0) where
  pub if-Ends : (b : Bool) (o o' : Outcome A) → Ends P o → Ends P o' → Ends P (if b then o else o')
  if-Ends true o o' h h' = h
  if-Ends false o o' h h' = h'

  pub on_zero-Ends : (r : Option ℤ) (o : Outcome A) → Ends P o → Ends P (on_zero r o)
  on_zero-Ends none o h = hung
  on_zero-Ends (some (pos n)) o h = if-Ends (n == 0) o aborts h aborted
  on_zero-Ends (some (negsuc n)) o h = aborted

-- A call returns, and the property holds of what it returns.
pub data Returns {A : Type 0} (P : A → Type 0) : Outcome A → Type 0 where
  did : (a : A) → P a → Returns P (returns a)

pub of_Returns : {A : Type 0} (P : A → Type 0) (a : A) → Returns P (returns a) → P a
of_Returns P a (did _ h) = h

pub both-Returns :
    {A : Type 0} (P Q : A → Type 0) (o : Outcome A)
    → Returns P o
    → Returns Q o
    → Returns (λ a. P a × Q a) o
both-Returns P Q _ (did a h) (did _ k) = did a (h, k)

pub map-Returns :
    {A : Type 0} (P Q : A → Type 0) (o : Outcome A)
    → Returns P o
    → ((a : A) → P a → Q a)
    → Returns Q o
map-Returns P Q _ (did a h) f = did a (f a h)

pub then_do-Returns :
    {A B : Type 0} (P : A → Type 0) (Q : B → Type 0) (o : Outcome A) (k : A → Outcome B)
    → Returns P o
    → ((a : A) → P a → Returns Q (k a))
    → Returns Q (then_do o k)
then_do-Returns P Q _ k (did a h) next = next a h

pub if-Returns :
    {A : Type 0} (P : A → Type 0) (b : Bool) (o o' : Outcome A)
    → Returns P o
    → Returns P o'
    → Returns P (if b then o else o')
if-Returns P true o o' h h' = h
if-Returns P false o o' h h' = h'

-- The lock and the log are no part of the table.
pub IsTable-relog :
    (d : Driver) (xs : List ℕ) (l : Log) (b : Bool)
    → IsTable d xs
    → IsTable (record d { log = l; locked = b }) xs
unfolding refs
IsTable-relog d xs l b t = record {
  ring = t.ring;
  counted = t.counted;
  each = λ x on. let k = t.each x on in record { same = k.same; copied = k.copied };
  shared = t.shared;
}
