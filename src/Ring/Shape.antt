-- ===== src/Ring/Shape.antt =====
-- What a ring of nodes stands for: the list of its addresses, from the head on.
use sxaurora_unvme.Base.{
  ℕ, ◌≡◌, Bool, true, false, ◌||◌, List, [], ◌∷◌, ◌++◌, arith, ◌==◌, refl, if◌then◌else◌,
}
use sxaurora_unvme.Ring.{Links}

abbrev pub has : ℕ → List ℕ → Bool
has a [] = false
has a (x ∷ xs) = (a == x) || has a xs

abbrev pub Distinct : List ℕ → Type 0
Distinct [] = Unit {0}
Distinct (x ∷ xs) = (has x xs ≡ false) × Distinct xs

abbrev pub erase : ℕ → List ℕ → List ℕ
erase a [] = []
erase a (x ∷ xs) = if x == a then xs else x ∷ erase a xs

-- From `a` the `next` pointers lead through `xs` to `b`, and the `prev` pointers lead back.
abbrev pub Chain : Links → ℕ → List ℕ → ℕ → Type 0
Chain l a [] b = (l.next a ≡ b) × (l.prev b ≡ a)
Chain l a (x ∷ xs) b = (l.next a ≡ x) × (l.prev x ≡ a) × Chain l x xs b

-- `head` is the head of a ring of the distinct nodes `xs`, in order; NULL, if there are none.
abbrev pub IsRing : Links → ℕ → List ℕ → Type 0
IsRing l head [] = head ≡ 0
IsRing l head (p ∷ xs) = (head ≡ p) × (has 0 (p ∷ xs) ≡ false) × Distinct (p ∷ xs) × Chain l p xs p

pub has-append : (a : ℕ) (xs ys : List ℕ) → has a (xs ++ ys) ≡ (has a xs || has a ys)
has-append a [] ys = refl
has-append a (x ∷ xs) ys = ground (arith, has-append a xs ys)

pub Distinct-snoc : (xs : List ℕ) (a : ℕ) → Distinct xs → has a xs ≡ false → Distinct (xs ++ a ∷ [])
Distinct-snoc [] a d h = (refl, tt)
Distinct-snoc (x ∷ xs) a d h =
    (ground (arith, has-append x xs (a ∷ [])), Distinct-snoc xs a d.1 (ground arith))

-- The node before the end of a chain is on the chain.
pub last-has :
    (l : Links) (a : ℕ) (xs : List ℕ) (b : ℕ) → Chain l a xs b → has (l.prev b) (a ∷ xs) ≡ true
last-has l a [] b c = ground arith
last-has l a (x ∷ xs) b c = ground (arith, last-has l x xs b c.2)

-- A chain survives any change that spares the pointers along it.
pub Chain-frame :
    (l g : Links) (a : ℕ) (xs : List ℕ) (b : ℕ)
    → ((x : ℕ) → has x (a ∷ xs) ≡ true → g.next x ≡ l.next x)
    → ((x : ℕ) → has x (xs ++ b ∷ []) ≡ true → g.prev x ≡ l.prev x)
    → Chain l a xs b
    → Chain g a xs b
Chain-frame l g a [] b hn hp c = (ground (arith, hn a), ground (arith, hp b))
Chain-frame l g a (x ∷ xs) b hn hp c = (
  ground (arith, hn a),
  ground (arith, hp x),
  Chain-frame l g x xs b (λ y h. hn y (ground arith)) (λ y h. hp y (ground arith)) c.2,
)

-- A ring survives any change that spares its own nodes.
pub IsRing-frame :
    (l g : Links) (head : ℕ) (xs : List ℕ)
    → ((x : ℕ) → has x xs ≡ true → (g.next x ≡ l.next x) × (g.prev x ≡ l.prev x))
    → IsRing l head xs
    → IsRing g head xs
IsRing-frame l g head [] same ring = ring
IsRing-frame l g head (p ∷ xs) same ring = (
  ring.0,
  ring.1,
  ring.2,
  Chain-frame l g p xs p (λ x h. (same x h).0)
      (λ x h. (same x (ground (arith, has-append x xs (p ∷ [])))).1) ring.3,
)
