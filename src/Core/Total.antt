-- ===== src/Core/Total.antt =====
-- Sums over the descriptors of a ring.
use sxaurora_unvme.Base.{
  ℕ, ◌+◌, ◌<◌, ◌≤◌, ◌≡◌, ◌≢◌, true, List, [], ◌∷◌, ◌++◌, arith, ◌==◌, refl, Bool-cases, inl, inr,
  dec_lt,
}
use sxaurora_unvme.Ring.Shape.{has, erase, Distinct}

unfoldable pub total : (ℕ → ℕ) → List ℕ → ℕ
total f [] = 0
total f (x ∷ xs) = f x + total f xs

pub total-same :
    (f g : ℕ → ℕ) (xs : List ℕ) → ((x : ℕ) → has x xs ≡ true → g x ≡ f x) → total g xs ≡ total f xs
unfolding total
total-same f g [] same = refl
total-same f g (x ∷ xs) same =
    ground (arith, same x, total-same f g xs (λ y h. same y (ground arith)))

pub total-update :
    (f g : ℕ → ℕ) (p : ℕ) (xs : List ℕ)
    → ((x : ℕ) → x ≢ p → g x ≡ f x)
    → Distinct xs
    → has p xs ≡ true
    → total g xs + f p ≡ total f xs + g p
unfolding total
total-update f g p [] same d h = ground arith
total-update f g p (x ∷ xs) same d h = elim (Bool-cases (p == x)) [
  | inl e ↦ ground (arith, total-same f g xs (λ y i. same y (ground arith)))
  | inr e ↦ ground (arith, same x, total-update f g p xs same d.1)
]

pub total-append : (f : ℕ → ℕ) (xs : List ℕ) (p : ℕ) → total f (xs ++ p ∷ []) ≡ total f xs + f p
unfolding total
total-append f [] p = omega arith
total-append f (x ∷ xs) p = omega (arith, total-append f xs p)

pub total-erase :
    (f : ℕ → ℕ) (p : ℕ) (xs : List ℕ) → has p xs ≡ true → total f (erase p xs) + f p ≡ total f xs
unfolding total
total-erase f p [] h = ground arith
total-erase f p (x ∷ xs) h = ground (arith, total-erase f p xs)

-- A positive sum has a positive term.
pub total-pos : (f : ℕ → ℕ) (xs : List ℕ) → 0 < total f xs → (p : ℕ) × (has p xs ≡ true) × (0 < f p)
unfolding total
total-pos f [] h = ground arith
total-pos f (x ∷ xs) h = elim (dec_lt 0 (f x)) [
  | yes here ↦ (x, ground arith, here)
  | no next ↦ let (p, on, pos) = total-pos f xs (omega arith) in (p, ground arith, pos)
]

pub total-ge : (f : ℕ → ℕ) (p : ℕ) (xs : List ℕ) → has p xs ≡ true → f p ≤ total f xs
total-ge f p xs h = omega (arith, total-erase f p xs h)
