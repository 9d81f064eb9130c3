-- ===== src/CidMask/Count.antt =====
-- How many ids of a mask are in use.
use sxaurora_unvme.Base.{
  ℕ, zero, suc, ◌+◌, ◌*◌, ◌≤◌, ◌<◌, ◌≡◌, true, false, arith, if◌then◌else◌, length, refl,
  Bool-cases, inl, inr, ℕ_discrete,
}
use sxaurora_unvme.CidMask.{Mask, mask_test, mask_set, mask_clear, mask_test-set, mask_test-clear}

-- The number of ids below `n` whose bit is set.
unfoldable pub count : ℕ → Mask → ℕ
count zero m = 0
count (suc n) m = count n m + (if mask_test m n then 1 else 0)

pub count-le : (n : ℕ) (m : Mask) → count n m ≤ n
unfolding count
count-le zero m = omega arith
count-le (suc n) m = ground (arith, count-le n m)

-- If not all of `n` ids are in use, one is free.
pub count-free : (n : ℕ) (m : Mask) → count n m < n → (i : ℕ) × (i < n) × (mask_test m i ≡ false)
unfolding count
count-free zero m h = absurd (omega arith)
count-free (suc n) m h = elim (Bool-cases (mask_test m n)) [
  | inl used ↦ let (i, below, free) = count-free n m (ground arith) in (i, omega arith, free)
  | inr free ↦ (n, omega arith, free)
]

count-same :
    (n : ℕ) (m m' : Mask)
    → ((i : ℕ) → i < n → mask_test m' i ≡ mask_test m i)
    → count n m' ≡ count n m
unfolding count
count-same zero m m' same = refl
count-same (suc n) m m' same =
    ground (arith, same n, count-same n m m' (λ i h. same i (omega arith)))

-- In a mask of at least `n` bits, setting the bit of an id below `n` that is not in use
-- makes one more of the `n` ids used.
pub count-set :
    (n i : ℕ) (m : Mask)
    → i < n
    → n ≤ 64 * length m
    → mask_test m i ≡ false
    → count n (mask_set m i) ≡ suc (count n m)
unfolding count
count-set zero i m h fits free = absurd (omega arith)
count-set (suc n) i m h fits free = elim (ℕ_discrete i n) [
  | yes e ↦ ground (
    arith,
    mask_test-set m i n,
    count-same n m (mask_set m i) (λ j q. ground (arith, mask_test-set m i j)),
  )
  | no ne ↦ ground (arith, mask_test-set m i n, count-set n i m)
]

-- In a mask of at least `n` bits, clearing the bit of an id below `n` in use makes one fewer of the
-- `n` ids used.
pub count-clear :
    (n i : ℕ) (m : Mask)
    → i < n
    → n ≤ 64 * length m
    → mask_test m i ≡ true
    → suc (count n (mask_clear m i)) ≡ count n m
unfolding count
count-clear zero i m h fits used = absurd (omega arith)
count-clear (suc n) i m h fits used = elim (ℕ_discrete i n) [
  | yes e ↦ ground (
    arith,
    mask_test-clear m i n,
    count-same n m (mask_clear m i) (λ j q. ground (arith, mask_test-clear m i j)),
  )
  | no ne ↦ ground (arith, mask_test-clear m i n, count-clear n i m)
]

pub count-zero : (n : ℕ) (m : Mask) → ((i : ℕ) → mask_test m i ≡ false) → count n m ≡ 0
unfolding count
count-zero zero m h = refl
count-zero (suc n) m h = ground (arith, h n, count-zero n m h)

-- An id in use is counted.
pub count-pos : (n i : ℕ) (m : Mask) → i < n → mask_test m i ≡ true → 0 < count n m
unfolding count
count-pos zero i m h used = absurd (omega arith)
count-pos (suc n) i m h used = elim (ℕ_discrete i n) [
  | yes e ↦ ground arith
  | no ne ↦ ground (arith, count-pos n i m)
]

-- A positive count has an id in use.
pub count-some : (n : ℕ) (m : Mask) → 0 < count n m → (i : ℕ) × (i < n) × (mask_test m i ≡ true)
unfolding count
count-some zero m h = absurd (omega arith)
count-some (suc n) m h = elim (Bool-cases (mask_test m n)) [
  | inl used ↦ (n, omega arith, used)
  | inr free ↦ let (i, below, used) = count-some n m (ground arith) in (i, omega arith, used)
]
