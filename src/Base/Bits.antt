-- ===== src/Base/Bits.antt =====
-- The bits of a word, and how `&`, `|` and complement act on them.
use Prim.Native.Nat.{
  ℕ, zero, suc, ◌+◌, ◌-◌, ◌*◌, ◌/◌, ◌%◌, ◌^◌, ◌≤◌, ◌<◌, min, max, digits, bit_and, bit_or,
  bit_and-bitwise, bit_or-bitwise,
}
use mathlib.Core.Path.{◌≡◌, refl, ap}
use mathlib.Core.Bool.{Bool, false, ◌&&◌, ◌||◌, not}
use native.Mathlib.Omega.{arith}
use native.Mathlib.Decide.{ℕ_discrete}
use native.Mathlib.Nat.{pow-suc, one-le-pow}
use mathlib.Core.Path.{◌∙◌}
use sxaurora_unvme.Base.Tests.{◌==◌, if◌then◌else◌}

-- One round more than is needed changes nothing.
round_more :
    (g : ℕ → ℕ) (h : ℕ → ℕ → ℕ) (k x y : ℕ) → x ≤ k → digits g h (suc k) x y ≡ digits g h k x y
round_more g h zero zero y small = refl
round_more g h (suc k) zero y small = refl
round_more g h zero (suc x) y small = absurd (omega arith)
round_more g h (suc k) (suc x) y small =
    ap (λ r. r * 2 + h (suc x % 2) (y % 2)) (round_more g h k (suc x / 2) (y / 2) (omega arith))

-- As many rounds as the number itself are enough.
rounds_enough :
    (g : ℕ → ℕ) (h : ℕ → ℕ → ℕ) (k x y : ℕ) → x ≤ k → digits g h k x y ≡ digits g h x x y
rounds_enough g h zero x y small = let e : x ≡ 0 = omega arith in rw e refl
rounds_enough g h (suc k) x y small = elim (ℕ_discrete x (suc k)) [
  | yes last ↦ rw last refl
  | no before ↦ round_more g h k x y (omega arith) ∙ rounds_enough g h k x y (omega arith)
]

below_pow : (x : ℕ) → x < 2 ^ x
below_pow zero = omega arith
below_pow (suc x) = omega (arith, pow-suc 2 x, below_pow x)

-- The lowest digit of `|` and of `&`, and what is above it.
bit_or_step : (x y : ℕ) → bit_or x y ≡ bit_or (x / 2) (y / 2) * 2 + max (x % 2) (y % 2)
bit_or_step zero y = simp bit_or-bitwise (omega arith)
bit_or_step (suc x) y =
    simp bit_or-bitwise
      (omega (arith, rounds_enough (λ r. r) max x (suc x / 2) (y / 2) (omega arith)))

bit_and_step : (x y : ℕ) → bit_and x y ≡ bit_and (x / 2) (y / 2) * 2 + min (x % 2) (y % 2)
bit_and_step zero y = simp bit_and-bitwise (omega arith)
bit_and_step (suc x) y =
    simp bit_and-bitwise
      (omega (arith, rounds_enough (λ r. 0) min x (suc x / 2) (y / 2) (omega arith)))

-- Bit `i` of `w`, counted from the lowest.
pub bit : ℕ → ℕ → Bool
bit w zero = w % 2 == 1
bit w (suc i) = bit (w / 2) i

half-or : (a b : ℕ) → bit_or a b / 2 ≡ bit_or (a / 2) (b / 2)
half-or a b = omega (arith, bit_or_step a b)

half-and : (a b : ℕ) → bit_and a b / 2 ≡ bit_and (a / 2) (b / 2)
half-and a b = omega (arith, bit_and_step a b)

pub bit-or : (i a b : ℕ) → bit (bit_or a b) i ≡ (bit a i || bit b i)
unfolding bit
bit-or zero a b = ground (arith, bit_or_step a b)
bit-or (suc i) a b = rw half-or (bit-or i (a / 2) (b / 2))

pub bit-and : (i a b : ℕ) → bit (bit_and a b) i ≡ (bit a i && bit b i)
unfolding bit
bit-and zero a b = ground (arith, bit_and_step a b)
bit-and (suc i) a b = rw half-and (bit-and i (a / 2) (b / 2))

pub bit-zero : (i : ℕ) → bit 0 i ≡ false
unfolding bit
bit-zero zero = refl
bit-zero (suc i) = bit-zero i

half-pow : (b : ℕ) → 2 ^ suc b / 2 ≡ 2 ^ b
half-pow b = omega (arith, pow-suc 2 b)

pub bit-pow : (b i : ℕ) → bit (2 ^ b) i ≡ (b == i)
unfolding bit
bit-pow zero zero = refl
bit-pow zero (suc i) = rw (bit-zero i) (ground arith)
bit-pow (suc b) zero = ground (arith, pow-suc 2 b)
bit-pow (suc b) (suc i) = rw (half-pow b, bit-pow b i) (ground arith)

-- `~ m` in `n` bits, written as a subtraction, has the other bits.
pub bit-not : (n i m : ℕ) → i < n → m < 2 ^ n → bit (2 ^ n - 1 - m) i ≡ not (bit m i)
unfolding bit
bit-not zero i m h k = absurd (omega arith)
bit-not (suc n) zero m h k = ground (arith, pow-suc 2 n, one-le-pow n 2)
bit-not (suc n) (suc i) m h k =
    let e : (2 ^ suc n - 1 - m) / 2 ≡ 2 ^ n - 1 - m / 2 = omega (arith, pow-suc 2 n) in
    rw e (bit-not n i (m / 2) (omega arith) (omega (arith, pow-suc 2 n)))

and_nothing_below : (k x : ℕ) → x < 2 ^ k → bit_and x 0 ≡ 0
and_nothing_below zero x small = let e : x ≡ 0 = omega arith in rw e refl
and_nothing_below (suc k) x small =
    let upper = and_nothing_below k (x / 2) (omega (arith, pow-suc 2 k)) in
    omega (arith, upper, bit_and_step x 0)

and_nothing : (x : ℕ) → bit_and x 0 ≡ 0
and_nothing x = and_nothing_below x x (below_pow x)

-- A mask without the lowest bit does not see the lowest bit.
pub bit_and-even : (a m : ℕ) → m % 2 ≡ 0 → bit_and a m ≡ bit_and (a / 2) (m / 2) * 2
bit_and-even a m h = omega (arith, bit_and_step a m)

-- `w & (1 << b)` is nonzero exactly if the bit is set.
pub bit_and-pow : (b w : ℕ) → bit_and w (2 ^ b) ≡ (if bit w b then 2 ^ b else 0)
unfolding bit
bit_and-pow zero w = ground (arith, bit_and_step w 1, and_nothing (w / 2))
bit_and-pow (suc b) w = ground (
  arith,
  pow-suc 2 b,
  half-pow b,
  bit_and_step w (2 ^ suc b),
  ap (bit_and (w / 2)) (half-pow b),
  bit_and-pow b (w / 2),
)

pub pow-pos : (b : ℕ) → 0 < 2 ^ b
pow-pos b = one-le-pow b 2 (omega arith)

-- The powers of two grow.
pub pow-lt : (n b : ℕ) → b < n → 2 ^ b < 2 ^ n
pow-lt zero b h = absurd (omega arith)
pow-lt (suc n) zero h = omega (arith, pow-suc 2 n, pow-pos n)
pow-lt (suc n) (suc b) h = omega (arith, pow-suc 2 n, pow-suc 2 b, pow-lt n b (omega arith))

bit_and-low_step :
    (m k a : ℕ)
    → ((b : ℕ) → bit_and b m ≡ b % k)
    → 0 < k
    → bit_and a (m * 2 + 1) ≡ a / 2 % k * 2 + a % 2
bit_and-low_step m k a low pos =
    let e : (m * 2 + 1) / 2 ≡ m = omega arith in
    let e' : (m * 2 + 1) % 2 ≡ 1 = omega arith in rw (bit_and_step, e, e', low) (omega arith)

pub bit_and-byte : (a : ℕ) → bit_and a 255 ≡ a % 256
bit_and-byte a = by8 a
  where
    by1 : (b : ℕ) → bit_and b 1 ≡ b % 2
    by1 b = omega (arith, bit_and_step b 1, and_nothing (b / 2))

    by2 : (b : ℕ) → bit_and b 3 ≡ b % 4
    by2 b = omega (arith, bit_and-low_step 1 2 b by1 (omega arith))

    by3 : (b : ℕ) → bit_and b 7 ≡ b % 8
    by3 b = omega (arith, bit_and-low_step 3 4 b by2 (omega arith))

    by4 : (b : ℕ) → bit_and b 15 ≡ b % 16
    by4 b = omega (arith, bit_and-low_step 7 8 b by3 (omega arith))

    by5 : (b : ℕ) → bit_and b 31 ≡ b % 32
    by5 b = omega (arith, bit_and-low_step 15 16 b by4 (omega arith))

    by6 : (b : ℕ) → bit_and b 63 ≡ b % 64
    by6 b = omega (arith, bit_and-low_step 31 32 b by5 (omega arith))

    by7 : (b : ℕ) → bit_and b 127 ≡ b % 128
    by7 b = omega (arith, bit_and-low_step 63 64 b by6 (omega arith))

    by8 : (b : ℕ) → bit_and b 255 ≡ b % 256
    by8 b = omega (arith, bit_and-low_step 127 128 b by7 (omega arith))
