-- ===== src/Ring/Rotate.antt =====
-- A ring can be read from any of its nodes.
use sxaurora_unvme.Base.{
  ℕ, suc, ◌≡◌, true, false, ◌||◌, List, [], ◌∷◌, ◌++◌, arith, ◌==◌, refl, length, length-append,
  ◌+◌, Bool-cases, inl, inr, subst, ==→eq, sym,
}
use sxaurora_unvme.Ring.{Links}
use sxaurora_unvme.Ring.Shape.{has, Distinct, Chain, IsRing, has-append}

-- `zs` are the other nodes of the ring `xs`, from the node after `r` on.
pub record Rotated (l : Links) (r : ℕ) (xs zs : List ℕ) : Type 0 where
  pub chain : Chain l r zs r
  pub same : (a : ℕ) → has a (r ∷ zs) ≡ has a xs
  pub size : length xs ≡ suc (length zs)
  pub once : has r zs ≡ false

Chain-append :
    (l : Links) (a : ℕ) (us : List ℕ) (b : ℕ) (vs : List ℕ) (c : ℕ)
    → Chain l a us b
    → Chain l b vs c
    → Chain l a (us ++ b ∷ vs) c
Chain-append l a [] b vs c s t = (s.0, s.1, t)
Chain-append l a (u ∷ us) b vs c s t = (s.0, s.1, Chain-append l u us b vs c s.2 t)

-- A chain through `r`, cut at `r`.
record Cut (l : Links) (a : ℕ) (xs : List ℕ) (b r : ℕ) (us vs : List ℕ) : Type 0 where
  front : Chain l a us r
  back : Chain l r vs b
  same : (x : ℕ) → has x xs ≡ (has x us || (x == r) || has x vs)
  size : length xs ≡ suc (length us + length vs)
  fresh : (has r us || has r vs) ≡ false

cut :
    (l : Links) (a : ℕ) (xs : List ℕ) (b r : ℕ)
    → Chain l a xs b
    → Distinct xs
    → has r xs ≡ true
    → (us : List ℕ) × (vs : List ℕ) × Cut l a xs b r us vs
cut l a [] b r c d h = ground arith
cut l a (x ∷ xs) b r c d h = elim (Bool-cases (r == x)) [
  | inl e ↦
      let ex = ==→eq r x e in
      (
        [],
        xs,
        record {
          front = ground arith;
          back = subst (λ z. Chain l z xs b) (sym ex) c.2;
          same = λ y. ground arith;
          size = ground (arith);
          fresh = ground arith;
        },
      )
  | inr e ↦
      let (us, vs, k) = cut l x xs b r c.2 d.1 (ground arith) in
      (
        x ∷ us,
        vs,
        record {
          front = (c.0, c.1, k.front);
          back = k.back;
          same = λ y. ground (arith, k.same y);
          size = ground (arith, k.size);
          fresh = ground (arith, k.fresh);
        },
      )
]

pub rotate :
    (l : Links) (head : ℕ) (xs : List ℕ) (r : ℕ)
    → IsRing l head xs
    → has r xs ≡ true
    → (zs : List ℕ) × Rotated l r xs zs
rotate l head [] r ring h = ground arith
rotate l head (p ∷ xs) r ring h = elim (Bool-cases (r == p)) [
  | inl e ↦ (
    xs,
    rw (==→eq r p e) (record { chain = ring.3; same = λ a. refl; size = refl; once = ring.2.0 }),
  )
  | inr e ↦
      let (us, vs, k) = cut l p xs p r ring.3 ring.2.1 (ground arith) in
      (
        vs ++ p ∷ us,
        record {
          chain = Chain-append l r vs p us r k.back k.front;
          same = λ a. ground (arith, k.same a, has-append a vs (p ∷ us));
          size = ground (arith, k.size, length-append vs (p ∷ us));
          once = ground (arith, k.fresh, has-append r vs (p ∷ us));
        },
      )
]
