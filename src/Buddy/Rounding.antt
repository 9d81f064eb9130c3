-- ===== src/Buddy/Rounding.antt =====
-- The size that aurora_mem_alloc of src/aurora_pci.c asks buddy_malloc for.
use sxaurora_unvme.Base.{
  ℕ, zero, suc, ◌*◌, ◌%◌, ◌^◌, ◌<◌, ◌≤◌, ◌≡◌, ◌⊎◌, inl, inr, some, ltb, arith, refl, Bool-cases,
  ltb→lt, ltb-false→le, le→ltb-false, ap, ◌∙◌,
}
use native.Mathlib.Nat.{pow-succ', mul_assoc}
use sxaurora_unvme.Buddy.Memory.{round_loop, round_size}

-- From 4096 on, the doubling ends with the first size that is enough.
round_loop-least :
    (n t size : ℕ)
    → size ≤ 2 ^ 63
    → size ≤ t * 2 ^ n
    → (v : ℕ) × (round_loop (suc n) t size ≡ some v) × (size ≤ v) × ((v ≡ t) ⊎ (v < 2 * size))
unfolding round_loop
round_loop-least zero t size small h =
    rw (le→ltb-false t size (omega (arith, h))) (t, refl, omega (arith, h), inl refl)
round_loop-least (suc n) t size small h = elim (Bool-cases (ltb t size)) [
  | inl less ↦
      let under = ltb→lt t size less in
      let same : t * 2 % 2 ^ 64 ≡ t * 2 = omega arith in
      let more : size ≤ t * 2 * 2 ^ n =
        omega (arith, h, pow-succ' 2 n, mul_assoc t 2 (2 ^ n), ap (λ k. t * k) (pow-succ' 2 n)) in
      let (v, e, big, least) = round_loop-least n (t * 2) size small more in
      let doubled : round_loop (suc (suc n)) t size ≡ round_loop (suc n) (t * 2) size =
        rw (less, same) refl in
      (v, doubled ∙ e, big, inr (ground (arith, least)))
  | inr enough ↦ rw (round_loop, enough) (t, refl, ltb-false→le t size enough, inl refl)
]

-- For a size of at most 2 ^ 63, the doubling of aurora_mem_alloc ends, with a size that is at least
-- the one asked for, and that is 4096 or less than twice the one asked for.
pub round_size-least :
    (size : ℕ)
    → size ≤ 2 ^ 63
    → (v : ℕ) × (round_size size ≡ some v) × (size ≤ v) × ((v ≡ 4096) ⊎ (v < 2 * size))
unfolding round_size
round_size-least size small = round_loop-least 52 4096 size small (omega arith)
