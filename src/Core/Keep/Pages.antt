-- ===== src/Core/Keep/Pages.antt =====
-- unvme_map_prps, in src/unvme_core.c: the pages of a transfer.
use sxaurora_unvme.Base.{
  ℕ, zero, suc, ◌+◌, ◌-◌, ◌*◌, ◌/◌, ◌%◌, ◌^◌, ◌<◌, ◌≤◌, ◌≡◌, ◌≢◌, ◌⊎◌, inl, inr, true, false, arith,
  ◌==◌, ltb, ◌&&◌, refl, if◌then◌else◌, dec_lt,
}
use native.Mathlib.Nat.{mul-le-mul_right, mul_left_comm}
use sxaurora_unvme.Core.State.{Queue}
use sxaurora_unvme.Core.Prps.{Namespace, write_prps, numpages, prps_at}

write_prps-frame :
    (count pagesize idx addr : ℕ) (mem : ℕ → ℕ) (j : ℕ)
    → (j < idx) ⊎ (idx + count ≤ j)
    → write_prps count pagesize idx addr mem j ≡ mem j
unfolding write_prps
write_prps-frame zero pagesize idx addr mem j out = refl
write_prps-frame (suc count) pagesize idx addr mem j out = ground (
  arith,
  write_prps-frame count pagesize (idx + 1) ((addr + pagesize) % 2 ^ 64)
      (λ i. if i == idx then (addr + pagesize) % 2 ^ 64 else mem i) j (ground arith),
)

one_more : (i p : ℕ) → (suc i + 1) * p ≡ p + (i + 1) * p
one_more i p = omega arith

here :
    (count pagesize idx addr : ℕ) (mem : ℕ → ℕ) (j : ℕ)
    → j ≡ idx
    → write_prps (suc count) pagesize idx addr mem j ≡ (addr + pagesize) % 2 ^ 64
unfolding write_prps
here count pagesize idx addr mem j e = ground (
  arith,
  write_prps-frame count pagesize (idx + 1) ((addr + pagesize) % 2 ^ 64)
      (λ i. if i == idx then (addr + pagesize) % 2 ^ 64 else mem i) j (inl (omega arith)),
)

write_prps-entry :
    (count pagesize idx addr : ℕ) (mem : ℕ → ℕ) (i j : ℕ)
    → i < count
    → j ≡ idx + i
    → write_prps count pagesize idx addr mem j ≡ (addr + (i + 1) * pagesize) % 2 ^ 64
unfolding write_prps
write_prps-entry zero pagesize idx addr mem i j h e = absurd (omega arith)
write_prps-entry (suc count) pagesize idx addr mem zero j h e =
    omega (arith, here count pagesize idx addr mem j (omega arith))
write_prps-entry (suc count) pagesize idx addr mem (suc i) j h e =
    let a = (addr + pagesize) % 2 ^ 64 in
    omega (
      arith,
      one_more i pagesize,
      write_prps-entry count pagesize (idx + 1) a (λ k. if k == idx then a else mem k) i j
          (omega arith) (omega arith),
    )

-- The pages of the command ids do not overlap: page `c`, of `w` entries, and page `d`.
apart : (c d w j : ℕ) → c ≢ d → j < w → (c * w + j < d * w) ⊎ (d * w + w ≤ c * w + j)
apart c d w j ne h = elim (dec_lt c d) [
  | yes low ↦
      let k : (c + 1) * w ≤ d * w = mul-le-mul_right w (omega arith) in inl (omega (arith, k))
  | no high ↦
      let k : (d + 1) * w ≤ c * w = mul-le-mul_right w (omega arith) in inr (omega (arith, k))
]

module _ (ns : Namespace) (q : Queue) (cid addr bufsz w : ℕ) (shift : 2 ^ ns.pageshift ≡ 8 * w)
    (many : 2 < numpages ns bufsz) (some_limit : numpages ns bufsz ≤ w + 1)
    (sane : w < 2 ^ 30) where
  start : cid * 2 ^ ns.pageshift / 8 ≡ cid * w
  start = rw shift (omega (arith, mul_left_comm cid 8 w))

  not_two : (numpages ns bufsz == 2) ≡ false
  not_two = ground arith

  is_list : (ltb 2 (numpages ns bufsz) && ltb (numpages ns bufsz) (2 ^ 31)) ≡ true
  is_list = ground arith

  -- A transfer of more than two pages, which fit in the page of PRP entries of its command id: entry
  -- `i` of that page is the DMA address of page `i + 1` of the buffer.
  pub prps_at-entries :
      (i : ℕ)
      → i + 1 < numpages ns bufsz
      → (prps_at ns q cid addr bufsz).mem (cid * w + i) ≡ (addr + (i + 1) * ns.pagesize) % 2 ^ 64
  unfolding prps_at
  prps_at-entries i h =
      rw (not_two, is_list, start)
        (write_prps-entry (numpages ns bufsz - 1) ns.pagesize (cid * w) addr q.prpmem i _
          (omega arith) refl)

  -- For such a transfer, the entries of the pages of all other command ids are as they were.
  pub prps_at-others :
      (d j : ℕ)
      → d ≢ cid
      → j < w
      → (prps_at ns q cid addr bufsz).mem (d * w + j) ≡ q.prpmem (d * w + j)
  unfolding prps_at
  prps_at-others d j ne h =
      rw (not_two, is_list, start)
        (write_prps-frame (numpages ns bufsz - 1) ns.pagesize (cid * w) addr q.prpmem _
          (ground (arith, apart d cid w j ne h)))
