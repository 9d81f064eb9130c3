-- ===== src/Session/Join.antt =====
-- The new session of unvme_do_open, in src/unvme_core.c.
use sxaurora_unvme.Base.{
  ℕ, ◌+◌, ◌%◌, ◌^◌, ◌≡◌, ◌≢◌, true, false, List, [], ◌∷◌, ◌++◌, ◌==◌, if◌then◌else◌, arith, refl,
  sym, ap, ◌∙◌, ◌⊎◌, inl, inr, Bool-cases, ==→eq, eq→==, ne→==-false,
}
use sxaurora_unvme.Ring.Shape.{has, has-append}
use sxaurora_unvme.Ring.Add.{list_add-IsRing}
use sxaurora_unvme.Core.Total.{total, total-append, total-same}
use sxaurora_unvme.Nvme.Types.{NvmeQueue}
use sxaurora_unvme.Session.Types.{Driver, OpenInput}
use sxaurora_unvme.Session.Limits.{ns_init}
use sxaurora_unvme.Session.Open.{join}
use sxaurora_unvme.Session.Refs.{refs, IsSession, IsTable}

-- A device that a session may join: it has its PCI number in its namespace, and is the one of all
-- sessions with that number.
pub record IsJoinable (d : Driver) (xs : List ℕ) (p : ℕ) : Type 0 where
  pub known : (d.device p).ns.pci ≡ (d.device p).pci % 2 ^ 32
  pub only :
      (y : ℕ) → has y xs ≡ true → (d.session y).ns.pci ≡ (d.device p).ns.pci → (d.session y).dev ≡ p

pub record Joined (d : Driver) (xs : List ℕ) (p fresh : ℕ) (o : Driver) : Type 0 where
  pub table : IsTable o (xs ++ fresh ∷ [])
  pub free : o.locked ≡ false
  pub log : o.log ≡ d.log
  pub dev : (o.session fresh).dev ≡ p
  pub more : (o.device p).refcount ≡ (d.device p).refcount + 1
  pub others : (x : ℕ) → x ≢ fresh → o.session x ≡ d.session x

module _ (i : OpenInput) (d : Driver) (xs : List ℕ) (p nsid : ℕ) (t : IsTable d xs)
    (can : IsJoinable d xs p) (live : i.fresh_ses ≢ 0) (new : has i.fresh_ses xs ≡ false)
    (adminq : NvmeQueue) where
  after : Driver
  unfolding join
  after = join i d adminq p nsid

  newest :
      ((after.session i.fresh_ses).dev ≡ p)
      × ((after.session i.fresh_ses).ns.pci ≡ (d.device p).ns.pci)
  unfolding after ns_init
  newest = rw (eq→== i.fresh_ses i.fresh_ses refl) (refl, refl)

  devices :
      (q : ℕ)
      → ((after.device q).pci ≡ (d.device q).pci)
        × ((after.device q).ns ≡ (d.device q).ns)
        × ((after.device q).refcount ≡ (d.device q).refcount + (if p == q then 1 else 0))
  unfolding after
  devices q = elim (Bool-cases (q == p)) [
    | inl e ↦ rw (e, ==→eq q p e, eq→== p p refl) (refl, refl, refl)
    | inr e ↦ rw (e, ne→==-false p q (λ k. ground arith)) (refl, refl, omega arith)
  ]

  kept : (x : ℕ) → x ≢ i.fresh_ses → after.session x ≡ d.session x
  unfolding after
  kept x ne = rw (ne→==-false x i.fresh_ses ne) refl

  counted : (q : ℕ) → (after.device q).refcount ≡ total (refs after q) (xs ++ i.fresh_ses ∷ [])
  unfolding refs
  counted q =
      let k = total-append (refs after q) xs i.fresh_ses in
      let k' = total-same (refs d q) (refs after q) xs (λ x on. rw (kept x (ground arith)) refl) in
      ground (arith, k, k', t.counted q, (devices q).2, newest.0)

  cases :
      (x : ℕ)
      → has x (xs ++ i.fresh_ses ∷ []) ≡ true
      → (x ≡ i.fresh_ses) ⊎ ((x ≢ i.fresh_ses) × (has x xs ≡ true))
  cases x on = ground (arith, has-append x xs (i.fresh_ses ∷ []))

  each : (x : ℕ) → has x (xs ++ i.fresh_ses ∷ []) ≡ true → IsSession after x
  each x on = elim (cases x on) [
    | inl e ↦ rw e (record {
      same = rw (newest.0, newest.1, (devices p).0) can.known;
      copied = rw (newest.0, newest.1, (devices p).1) refl;
    })
    | inr (ne, old) ↦ record {
      same = rw (kept x ne, (devices (d.session x).dev).0) (t.each x old).same;
      copied = rw (kept x ne, (devices (d.session x).dev).1) (t.each x old).copied;
    }
  ]

  number : ℕ → ℕ
  number x = (after.session x).ns.pci

  pci_kept : (x : ℕ) → x ≢ i.fresh_ses → number x ≡ (d.session x).ns.pci
  unfolding number after
  pci_kept x ne = ap (λ s. s.ns.pci) (kept x ne)

  mixed :
      (y : ℕ)
      → y ≢ i.fresh_ses
      → has y xs ≡ true
      → number y ≡ (d.device p).ns.pci
      → (after.session y).dev ≡ p
  mixed y ne old e = rw (kept y ne) (can.only y old (sym (pci_kept y ne) ∙ e))

  shared :
      (x y : ℕ)
      → has x (xs ++ i.fresh_ses ∷ []) ≡ true
      → has y (xs ++ i.fresh_ses ∷ []) ≡ true
      → (after.session x).ns.pci ≡ (after.session y).ns.pci
      → (after.session x).dev ≡ (after.session y).dev
  unfolding number after
  shared x y on on' e = elim (cases x on) [
    | inl a ↦ elim (cases y on') [
      | inl b ↦ rw (a, b) refl
      | inr (ne, old) ↦ rw (a, newest.0) (sym (mixed y ne old (sym e ∙ ap number a ∙ newest.1)))
    ]
    | inr (ne, old) ↦ elim (cases y on') [
      | inl b ↦ rw (b, newest.0) (mixed x ne old (e ∙ ap number b ∙ newest.1))
      | inr (ne', old') ↦
          rw (kept x ne, kept y ne')
            (t.shared x y old old' (sym (pci_kept x ne) ∙ e ∙ pci_kept y ne'))
    ]
  ]

  pub join-Joined : Joined d xs p i.fresh_ses (join i d adminq p nsid)
  unfolding join ns_init after
  join-Joined = record {
    table = record {
      ring = list_add-IsRing d.links d.ses i.fresh_ses xs t.ring live new;
      counted = counted;
      each = each;
      shared = shared;
    };
    free = refl;
    log = refl;
    dev = newest.0;
    more = rw ((devices p).2, eq→== p p refl) refl;
    others = kept;
  }
