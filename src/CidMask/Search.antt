-- ===== src/CidMask/Search.antt =====
-- The search for a free id ends, and finds one, if an id is free.
use sxaurora_unvme.Base.{
  ℕ, zero, suc, ◌+◌, ◌-◌, ◌^◌, ◌≤◌, ◌<◌, ◌≡◌, true, false, arith, refl, some, Bool-cases, inl, inr,
  ◌⊎◌, dec_lt,
}
use sxaurora_unvme.CidMask.{Mask, mask_test, next_cid, find_cid}
use sxaurora_unvme.CidMask.Count.{count, count-free}

pub next_cid-lt : (size cid : ℕ) → 0 < size → next_cid size cid < size
unfolding next_cid
next_cid-lt size cid h = ground arith

pub next_inside : (size c : ℕ) → size ≤ 2 ^ 16 → c + 1 < size → next_cid size c ≡ c + 1
unfolding next_cid
next_inside size c small h = ground arith

next_last : (size c : ℕ) → size ≤ 2 ^ 16 → c + 1 ≡ size → next_cid size c ≡ 0
unfolding next_cid
next_last size c small h = ground arith

step_round :
    (size c d j : ℕ)
    → size ≤ 2 ^ 16
    → c < size
    → j < size
    → 0 < d
    → (c + d ≡ j) ⊎ (c + d ≡ j + size)
    → (next_cid size c + (d - 1) ≡ j) ⊎ (next_cid size c + (d - 1) ≡ j + size)
step_round size c d j small hc hj h (inl e) =
    inl (omega (arith, next_inside size c small (omega arith)))
step_round size c d j small hc hj h (inr e) = elim (dec_lt (c + 1) size) [
  | yes inside ↦ inr (omega (arith, next_inside size c small inside))
  | no over ↦ inl (omega (arith, next_last size c small (omega arith)))
]

-- The free id `j` lies `d` steps after `c`, round a queue of `size`.
find_cid-from :
    (f size c d j : ℕ) (m : Mask)
    → size ≤ 2 ^ 16
    → c < size
    → j < size
    → d < f
    → (c + d ≡ j) ⊎ (c + d ≡ j + size)
    → mask_test m j ≡ false
    → (r : ℕ) × (find_cid f size m c ≡ some r) × (r < size) × (mask_test m r ≡ false)
unfolding find_cid
find_cid-from zero size c d j m small hc hj fuel step free = absurd (omega arith)
find_cid-from (suc f) size c d j m small hc hj fuel step free = elim (Bool-cases (mask_test m c)) [
  | inl used ↦ rw used (
      find_cid-from f size (next_cid size c) (d - 1) j m small (next_cid-lt size c (omega arith)) hj
        (ground (arith, moved used)) (next_step (moved used)) free)
  | inr free' ↦ rw free' (c, refl, hc, free')
]
  where
    moved : mask_test m c ≡ true → 0 < d
    moved used = ground arith

    next_step : 0 < d → (next_cid size c + (d - 1) ≡ j) ⊎ (next_cid size c + (d - 1) ≡ j + size)
    next_step h = ground (arith, step_round size c d j small hc hj h step)

-- If fewer than `size` ids are in use, the search from any id ends within `size` rounds, and the
-- id that it finds is in range and free.
pub find_cid-total :
    (size c : ℕ) (m : Mask)
    → size ≤ 2 ^ 16
    → c < size
    → count size m < size
    → (r : ℕ) × (find_cid size size m c ≡ some r) × (r < size) × (mask_test m r ≡ false)
find_cid-total size c m small hc room =
    let (j, hj, free) = count-free size m room in
    elim (dec_lt j c) [
      | yes wrap ↦
          find_cid-from size size c (j + size - c) j m small hc hj (omega arith) (inr (omega arith))
            free
      | no ahead ↦
          find_cid-from size size c (j - c) j m small hc hj (omega arith) (inl (omega arith)) free
    ]

-- A free id is what the search from it finds.
pub find_cid-here :
    (size c : ℕ) (m : Mask) → 0 < size → mask_test m c ≡ false → find_cid size size m c ≡ some c
unfolding find_cid
find_cid-here zero c m h free = absurd (omega arith)
find_cid-here (suc n) c m h free = rw free refl
