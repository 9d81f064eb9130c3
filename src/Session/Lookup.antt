-- ===== src/Session/Lookup.antt =====
-- The search of unvme_do_open, in src/unvme_core.c, over the ring of sessions is one over a list.
use sxaurora_unvme.Base.{
  Bool, ℕ, zero, suc, ◌%◌, ◌^◌, ◌<◌, ◌≤◌, ◌≡◌, ◌≢◌, true, false, List, [], ◌∷◌, some, ◌==◌,
  if◌then◌else◌, arith, refl, length, sym, subst,
}
use sxaurora_unvme.Log.{Log}
use sxaurora_unvme.Ring.Shape.{has, Chain, IsRing}
use sxaurora_unvme.Session.Types.{Driver}
use sxaurora_unvme.Session.Table.{Found, session, absent, admit, search}

-- The first session of the device, if it is open.
unfoldable pub lookup : Driver → (pci nsid : ℕ) → List ℕ → Found
lookup d pci nsid [] = absent
lookup d pci nsid (x ∷ xs) =
    let rest = lookup d pci nsid xs in
    if (d.session x).ns.pci == pci % 2 ^ 32 then admit (d.session x) nsid x else rest

search-Chain :
    (f : ℕ) (d : Driver) (pci nsid x : ℕ) (xs : List ℕ)
    → length xs < f
    → has 0 (x ∷ xs) ≡ false
    → has d.ses xs ≡ false
    → Chain d.links x xs d.ses
    → search f d pci nsid x ≡ some (lookup d pci nsid (x ∷ xs))
unfolding search lookup
search-Chain zero d pci nsid x xs few live out c = absurd (omega arith)
search-Chain (suc f) d pci nsid x [] few live out c = ground (arith, c)
search-Chain (suc f) d pci nsid x (y ∷ ys) few live out c =
    rw (c.0) (
      ground
        (arith, search-Chain f d pci nsid y ys (omega arith) (ground arith) (ground arith) c.2))

-- With more rounds than there are sessions open, the search ends, with the first session of the list
-- that is of the device.
pub search-lookup :
    (f : ℕ) (d : Driver) (pci nsid : ℕ) (xs : List ℕ)
    → length xs < f
    → IsRing d.links d.ses xs
    → search f d pci nsid d.ses ≡ some (lookup d pci nsid xs)
unfolding search lookup
search-lookup zero d pci nsid xs few ring = absurd (omega arith)
search-lookup (suc f) d pci nsid [] few ring = rw ring refl
search-lookup (suc f) d pci nsid (x ∷ xs) few ring =
    subst (λ a. search (suc f) d pci nsid a ≡ some (lookup d pci nsid (x ∷ xs))) (sym ring.0)
      (search-Chain (suc f) d pci nsid x xs (omega arith) ring.1 (ground (arith, ring.2.0))
        (subst (λ b. Chain d.links x xs b) (sym ring.0) ring.3))

pub lookup-absent :
    (d : Driver) (pci nsid : ℕ) (xs : List ℕ) (x : ℕ)
    → lookup d pci nsid xs ≡ absent
    → has x xs ≡ true
    → (d.session x).ns.pci ≢ pci % 2 ^ 32
unfolding lookup
lookup-absent d pci nsid [] x e on = ground arith
lookup-absent d pci nsid (y ∷ ys) x e on = ground (arith, lookup-absent d pci nsid ys x)

pub lookup-session :
    (d : Driver) (pci nsid : ℕ) (xs : List ℕ) (x : ℕ)
    → lookup d pci nsid xs ≡ session x
    → (has x xs ≡ true)
      × ((d.session x).ns.pci ≡ pci % 2 ^ 32)
      × (nsid ≤ (d.session x).ns.nscount)
      × ((d.session x).ns.id ≢ nsid)
unfolding lookup
lookup-session d pci nsid [] x e = ground arith
lookup-session d pci nsid (y ∷ ys) x e = ground (arith, lookup-session d pci nsid ys x)

-- The lock and the log are no matter.
pub lookup-relog :
    (d : Driver) (pci nsid : ℕ) (l : Log) (b : Bool) (xs : List ℕ)
    → lookup (record d { log = l; locked = b }) pci nsid xs ≡ lookup d pci nsid xs
unfolding lookup
lookup-relog d pci nsid l b [] = refl
lookup-relog d pci nsid l b (x ∷ xs) = rw (lookup-relog d pci nsid l b xs) refl
