-- ===== src/Core/Keep/Walk.antt =====
-- The two walks of unvme_check_completion round the ring of descriptors in use.
use sxaurora_unvme.Base.{
  ℕ, zero, suc, ◌<◌, ◌≡◌, ◌≢◌, true, false, List, [], ◌∷◌, length, arith, ◌==◌, refl, Bool-cases,
  inl, inr, ◌∙◌, none, some, sym,
}
use sxaurora_unvme.Ring.Shape.{has, Chain, IsRing}
use sxaurora_unvme.Ring.Rotate.{rotate}
use sxaurora_unvme.CidMask.{mask_test}
use sxaurora_unvme.Core.State.{Queue}
use sxaurora_unvme.Core.Complete.{find_owner, skip_done}

module _ (q : Queue) (i : ℕ) where
  find-Chain :
      (zs : List ℕ) (x f r : ℕ)
      → Chain q.links x zs r
      → r ≡ q.descpend
      → has r zs ≡ false
      → length zs < f
      → ((y : ℕ) → has y (x ∷ zs) ≡ true → mask_test (q.desc y).cidmask i ≡ false)
      → find_owner f q i x ≡ none
  unfolding find_owner
  find-Chain zs x zero r c e out fuel unowned = absurd (omega arith)
  find-Chain [] x (suc f) r c e out fuel unowned = ground (arith, unowned x)
  find-Chain (z ∷ zs) x (suc f) r c e out fuel unowned = ground (
    arith,
    unowned x,
    find-Chain zs z f r c.2 e (ground arith) (omega arith) (λ y h. unowned y (ground arith)),
  )

  find-owner_on :
      (zs : List ℕ) (x f r y : ℕ)
      → Chain q.links x zs r
      → r ≡ q.descpend
      → has r zs ≡ false
      → length zs < f
      → has y (x ∷ zs) ≡ true
      → mask_test (q.desc y).cidmask i ≡ true
      → (p : ℕ) × (find_owner f q i x ≡ some p)
        × (has p (x ∷ zs) ≡ true)
        × (mask_test (q.desc p).cidmask i ≡ true)
  unfolding find_owner
  find-owner_on zs x zero r y c e out fuel on own = absurd (omega arith)
  find-owner_on [] x (suc f) r y c e out fuel on own = (x, ground arith, ground arith, ground arith)
  find-owner_on (z ∷ zs) x (suc f) r y c e out fuel on own =
      elim (Bool-cases (mask_test (q.desc x).cidmask i)) [
        | inl here ↦ (x, rw here, ground arith, here)
        | inr there ↦
            let (p, found, at, has') =
              find-owner_on zs z f r y c.2 e (ground arith) (omega arith) (ground arith) own in
            (p, ground arith, ground arith, has')
      ]

module _ (q : Queue) where
  skip-Chain :
      (zs : List ℕ) (x f r y : ℕ)
      → Chain q.links x zs r
      → length zs < f
      → has y (x ∷ zs) ≡ true
      → (q.desc y).cidcount ≢ 0
      → (p : ℕ) × (skip_done f q x ≡ some p) × (has p (x ∷ zs) ≡ true) × ((q.desc p).cidcount ≢ 0)
  unfolding skip_done
  skip-Chain zs x zero r y c fuel on busy = absurd (omega arith)
  skip-Chain [] x (suc f) r y c fuel on busy = (x, ground arith, ground arith, ground arith)
  skip-Chain (z ∷ zs) x (suc f) r y c fuel on busy = elim (Bool-cases ((q.desc x).cidcount == 0)) [
    | inr here ↦ (x, rw here, ground arith, ground arith)
    | inl there ↦
        let (p, found, at, busy') = skip-Chain zs z f r y c.2 (omega arith) (ground arith) busy in
        (p, ground arith, ground arith, busy')
  ]

module _ (q : Queue) (xs : List ℕ) (head : ℕ) (ring : IsRing q.links head xs)
    (number : q.desccount ≡ length xs) (on_ring : has q.descpend xs ≡ true) where
  -- Started at the pending head, the search finds an owner on the ring, if there is one.
  pub find_owner-some :
      (i y : ℕ)
      → has y xs ≡ true
      → mask_test (q.desc y).cidmask i ≡ true
      → (p : ℕ) × (find_owner q.desccount q i q.descpend ≡ some p)
        × (has p xs ≡ true)
        × (mask_test (q.desc p).cidmask i ≡ true)
  find_owner-some i y on own =
      let (zs, r) = rotate q.links head xs q.descpend ring on_ring in
      let (p, found, at, own') =
        find-owner_on q i zs q.descpend q.desccount q.descpend y r.chain refl r.once
          (omega (arith, r.size)) (r.same y ∙ on) own in
      (p, found, sym (r.same p) ∙ at, own')

  -- It finds none, if there is none.
  pub find_owner-none :
      (i : ℕ)
      → ((y : ℕ) → has y xs ≡ true → mask_test (q.desc y).cidmask i ≡ false)
      → find_owner q.desccount q i q.descpend ≡ none
  find_owner-none i unowned =
      let (zs, r) = rotate q.links head xs q.descpend ring on_ring in
      find-Chain q i zs q.descpend q.desccount q.descpend r.chain refl r.once
        (omega (arith, r.size)) (λ y h. unowned y (sym (r.same y) ∙ h))

  -- The step to the next busy descriptor ends on one, if there is one.
  pub skip_done-some :
      (y : ℕ)
      → has y xs ≡ true
      → (q.desc y).cidcount ≢ 0
      → (p : ℕ) × (skip_done q.desccount q q.descpend ≡ some p)
        × (has p xs ≡ true)
        × ((q.desc p).cidcount ≢ 0)
  skip_done-some y on busy =
      let (zs, r) = rotate q.links head xs q.descpend ring on_ring in
      let (p, found, at, busy') =
        skip-Chain q zs q.descpend q.desccount q.descpend y r.chain (omega (arith, r.size))
          (r.same y ∙ on) busy in
      (p, found, sym (r.same p) ∙ at, busy')
