-- ===== src/Base/Modular.antt =====
-- Counters round a ring of `s` slots: the slot of the n-th item is `n % s`, its lap `n / s`.
use Prim.Native.Nat.{ℕ, suc, ◌+◌, ◌/◌, ◌%◌, ◌<◌}
use mathlib.Core.Path.{◌≡◌, ◌∙◌, ap}
use mathlib.Core.Logic.{◌≢◌}
use native.Mathlib.Omega.{arith}
use native.Mathlib.Decide.{dec_lt}
use native.Mathlib.Nat.{
  div-add-mod, mod-lt, suc-mod, mod-eq_of_lt, mod_self, mul-add-div, div-eq_of_lt, div_self,
}
use sxaurora_unvme.Base.Tests.{◌==◌, if◌then◌else◌}

-- Two different positions less than a lap apart have different slots.
pub slot-ne : (s j k : ℕ) → 0 < s → j < k → k < j + s → j % s ≢ k % s
slot-ne s j k p h q e = grind (arith, div-add-mod j s, div-add-mod k s)

pub slot-lap : (s k : ℕ) → 0 < s → (k + s) % s ≡ k % s
slot-lap s k p = grind arith

pub lap-lap : (s k : ℕ) → 0 < s → (k + s) / s ≡ k / s + 1
lap-lap s k p = grind arith

pub slot-suc : (s k : ℕ) → 0 < s → suc k % s ≡ (if k % s + 1 == s then 0 else k % s + 1)
slot-suc s k p = elim (dec_lt (k % s + 1) s) [
  | yes h ↦ ground (arith, suc-mod k s, mod-eq_of_lt {n = suc (k % s)} {m = s} (omega arith))
  | no h ↦ ground (arith, suc-mod k s, last h, ap (λ (t : ℕ). t % s) (last h), mod_self s)
]
  where
    last : ¬ (k % s + 1 < s) → suc (k % s) ≡ s
    last h = omega (arith, mod-lt k p)

pub lap-suc : (s k : ℕ) → 0 < s → suc k / s ≡ (if k % s + 1 == s then k / s + 1 else k / s)
lap-suc s k p = elim (dec_lt (k % s + 1) s) [
  | yes h ↦ ground (arith, split, div-eq_of_lt {n = suc (k % s)} {m = s} (omega arith))
  | no h ↦ ground (arith, split, mod-lt k p, ap (λ (t : ℕ). t / s) (last h), div_self p)
]
  where
    split : suc k / s ≡ k / s + suc (k % s) / s
    split =
        ap (λ (t : ℕ). t / s) (omega (arith, div-add-mod k s)) ∙ mul-add-div p (k / s) (suc (k % s))

    last : ¬ (k % s + 1 < s) → suc (k % s) ≡ s
    last h = omega (arith, mod-lt k p)
