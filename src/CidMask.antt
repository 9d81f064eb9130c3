-- ===== src/CidMask.antt =====
-- The masks of command ids in src/unvme_core.c: an array of u64 words, one bit for each id.
-- An index past the array, where C is undefined, reads 0 and writes nothing.
pub mod Count
pub mod Search
mod Tests
use sxaurora_unvme.Base.{
  ℕ, zero, suc, ◌+◌, ◌-◌, ◌*◌, ◌/◌, ◌%◌, ◌^◌, ◌<◌, ◌≡◌, bit_and, bit_or, Bool, not, ◌&&◌, ◌||◌,
  Option, none, some, List, arith, ◌==◌, leb, if◌then◌else◌, length, get_or, set, get_or-set_self,
  get_or-set_ne, length-set, dec_lt, ℕ_discrete, replicate, get_or-replicate, sym, ap, refl,
  Bool-cases, inl, inr, false,
}
use sxaurora_unvme.Base.Bits.{
  bit, bit-or, bit-and, bit-pow, bit-not, bit_and-pow, pow-pos, pow-lt, bit-zero,
}

abbrev pub Mask : Type 0
Mask = List ℕ

-- `cidmask[cid >> 6] & ((u64)1 << (cid & 63))`, as a test. A word past the end reads as 0 here, and a
-- write to it is lost: with the ids of the driver that is never reached, and a completion of such an id
-- ends as undefined before its word is read (Core.Complete).
unfoldable pub mask_test : Mask → ℕ → Bool
mask_test m cid = not (bit_and (get_or m (cid / 64) 0) (2 ^ (cid % 64)) == 0)

-- `cidmask[b] |= mask`
unfoldable pub mask_set : Mask → ℕ → Mask
mask_set m cid = set m (cid / 64) (bit_or (get_or m (cid / 64) 0) (2 ^ (cid % 64)))

-- `cidmask[b] &= ~mask`
unfoldable pub mask_clear : Mask → ℕ → Mask
mask_clear m cid = set m (cid / 64) (bit_and (get_or m (cid / 64) 0) (2 ^ 64 - 1 - 2 ^ (cid % 64)))

-- The id after `cid` in a queue of `size`: `if (++cid >= size) cid = 0` on a u16.
unfoldable pub next_cid : ℕ → ℕ → ℕ
next_cid size cid = let c = (cid + 1) % 2 ^ 16 in if leb size c then 0 else c

-- The loop of unvme_get_cid that looks for a free id; `none` if no id is free within the fuel.
unfoldable pub find_cid : ℕ → ℕ → Mask → ℕ → Option ℕ
unfolding mask_test next_cid
find_cid zero size m cid = none
find_cid (suc f) size m cid =
    let rest = find_cid f size m (next_cid size cid) in if mask_test m cid then rest else some cid

-- The mask is one bit per id.
mask_test-bit : (m : Mask) (cid : ℕ) → mask_test m cid ≡ bit (get_or m (cid / 64) 0) (cid % 64)
unfolding mask_test
mask_test-bit m cid =
    ground (arith, bit_and-pow (cid % 64) (get_or m (cid / 64) 0), pow-pos (cid % 64))

or-bit : (w a b : ℕ) → bit (bit_or w (2 ^ a)) b ≡ ((a == b) || bit w b)
or-bit w a b = ground (arith, bit-or b w (2 ^ a), bit-pow a b)

and-bit :
    (w a b : ℕ)
    → a < 64
    → b < 64
    → bit (bit_and w (2 ^ 64 - 1 - 2 ^ a)) b ≡ (not (a == b) && bit w b)
and-bit w a b ha hb =
    let low : 2 ^ a < 2 ^ 64 = pow-lt 64 a ha in
    ground (arith, bit-and b w (2 ^ 64 - 1 - 2 ^ a), bit-not 64 b (2 ^ a) hb low, bit-pow a b)

set_word :
    (m : Mask) (i j : ℕ)
    → i < 64 * length m
    → bit (get_or (mask_set m i) (j / 64) 0) (j % 64)
      ≡ ((i == j) || bit (get_or m (j / 64) 0) (j % 64))
unfolding mask_set
set_word m i j h = elim (ℕ_discrete (i / 64) (j / 64)) [
  | yes e ↦
      let w = get_or m (i / 64) 0 in
      rw (← e, get_or-set_self m (i / 64) (bit_or w (2 ^ (i % 64))) 0 (omega arith))
        (ground (arith, or-bit w (i % 64) (j % 64)))
  | no e ↦ rw (get_or-set_ne m (i / 64) (j / 64) _ 0 e) (ground arith)
]

clear_word :
    (m : Mask) (i j : ℕ)
    → i < 64 * length m
    → bit (get_or (mask_clear m i) (j / 64) 0) (j % 64)
      ≡ (not (i == j) && bit (get_or m (j / 64) 0) (j % 64))
unfolding mask_clear
clear_word m i j h = elim (ℕ_discrete (i / 64) (j / 64)) [
  | yes e ↦
      let w = get_or m (i / 64) 0 in
      rw (← e, get_or-set_self m (i / 64) (bit_and w (2 ^ 64 - 1 - 2 ^ (i % 64))) 0 (omega arith))
        (ground (arith, and-bit w (i % 64) (j % 64)))
  | no e ↦ rw (get_or-set_ne m (i / 64) (j / 64) _ 0 e) (ground arith)
]

-- Setting the bit of an id within the mask sets that bit and no other.
pub mask_test-set :
    (m : Mask) (i j : ℕ)
    → i < 64 * length m
    → mask_test (mask_set m i) j ≡ ((i == j) || mask_test m j)
mask_test-set m i j h = rw (mask_test-bit (mask_set m i) j, mask_test-bit m j) (set_word m i j h)

-- Clearing the bit of an id within the mask clears that bit and no other.
pub mask_test-clear :
    (m : Mask) (i j : ℕ)
    → i < 64 * length m
    → mask_test (mask_clear m i) j ≡ (not (i == j) && mask_test m j)
mask_test-clear m i j h =
    rw (mask_test-bit (mask_clear m i) j, mask_test-bit m j) (clear_word m i j h)

pub mask_test-zero : (n j : ℕ) → mask_test (replicate n 0) j ≡ false
mask_test-zero n j =
    rw (mask_test-bit (replicate n 0) j, get_or-replicate {A = ℕ} n (j / 64) 0) (bit-zero (j % 64))

pub length-mask_set : (m : Mask) (i : ℕ) → length (mask_set m i) ≡ length m
unfolding mask_set
length-mask_set m i = length-set m _ _

pub length-mask_clear : (m : Mask) (i : ℕ) → length (mask_clear m i) ≡ length m
unfolding mask_clear
length-mask_clear m i = length-set m _ _
