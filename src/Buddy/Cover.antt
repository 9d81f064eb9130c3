-- ===== src/Buddy/Cover.antt =====
-- buddy_malloc and buddy_free of src/aurora_pci.c: no byte of the region is lost or free twice.
use sxaurora_unvme.Base.{
  ℕ, zero, suc, ◌+◌, ◌*◌, ◌≡◌, List, [], ◌∷◌, Bool, true, false, ◌&&◌, Option, none, some, ltb, leb,
  if◌then◌else◌, arith, refl, inl, inr, subst, ◌⊎◌,
}
use sxaurora_unvme.Buddy.{
  Got, spins, got, front, behind, refill, halve, buddy_malloc, walk, buddy_free,
}

-- 1 if the block of `size` at `p` has the byte at `a`, and else 0
abbrev pub covers : (size a p : ℕ) → ℕ
covers size a p = if leb p a && ltb a (p + size) then 1 else 0

abbrev pub covers_option : (size a : ℕ) → Option ℕ → ℕ
covers_option size a none = 0
covers_option size a (some p) = covers size a p

-- How many blocks of one list, and of all lists from that of `size` on, have the byte.
abbrev pub cover_list : (size a : ℕ) → List ℕ → ℕ
cover_list size a [] = 0
cover_list size a (p ∷ ps) = covers size a p + cover_list size a ps

abbrev pub cover : (size a : ℕ) → List (List ℕ) → ℕ
cover size a [] = 0
cover size a (l ∷ ls) = cover_list size a l + cover (2 * size) a ls

-- The size of the last list.
abbrev pub top : ℕ → List (List ℕ) → ℕ
top size [] = size
top size (l ∷ []) = size
top size (l ∷ l' ∷ ls) = top (2 * size) (l' ∷ ls)

-- What buddy_malloc leaves, and what it hands out, have together each byte as often as it was free
-- before.
abbrev pub Kept : (size last a before : ℕ) → Got → Type 0
Kept size last a before spins = Unit {0}
Kept size last a before (got p h) =
    cover size a h.lists + cover_list last a h.global + covers_option size a p ≡ before

Kept-same : (size last a b b' : ℕ) (g : Got) → b ≡ b' → Kept size last a b g → Kept size last a b' g
Kept-same size last a b b' g e = subst (λ n. Kept size last a n g) e

front-behind :
    (n size a : ℕ) (xs : List ℕ)
    → cover_list size a (front n xs) + cover_list size a (behind n xs) ≡ cover_list size a xs
unfolding front behind
front-behind zero size a xs = omega arith
front-behind (suc n) size a [] = refl
front-behind (suc n) size a (x ∷ xs) = omega (arith, front-behind n size a xs)

refill-Kept :
    (size a : ℕ) (global : List ℕ) (locked : Bool)
    → Kept size size a (cover_list size a global) (refill global locked)
unfolding refill
refill-Kept size a [] true = tt
refill-Kept size a (p ∷ ps) true = tt
refill-Kept size a [] false = refl
refill-Kept size a (p ∷ ps) false = omega (arith, front-behind 65 size a ps)

halve-cover : (size a p : ℕ) → covers size a p + covers size a (p + size) ≡ covers (2 * size) a p
halve-cover size a p = ground arith

halve-Kept :
    (size last a before : ℕ) (g : Got)
    → Kept (2 * size) last a before g
    → Kept size last a before (halve size g)
unfolding halve
halve-Kept size last a before spins k = tt
halve-Kept size last a before (got none h) k = omega (arith, k)
halve-Kept size last a before (got (some p) h) k = omega (arith, k, halve-cover size a p)

-- buddy_malloc, if it returns, hands out a block or NULL, and each byte is in what it hands out and
-- in the free blocks that it leaves together as often as it was in the free blocks before.
pub buddy_malloc-Kept :
    (size a : ℕ) (lists : List (List ℕ)) (global : List ℕ) (locked : Bool)
    → Kept size
        (top size lists)
        a
        (cover size a lists + cover_list (top size lists) a global)
        (buddy_malloc size lists global locked)
unfolding buddy_malloc
buddy_malloc-Kept size a [] global locked = omega arith
buddy_malloc-Kept size a ((p ∷ ps) ∷ ls) global locked = omega arith
buddy_malloc-Kept size a ([] ∷ []) global locked =
    Kept-same size size a _ _ (refill global locked) (omega arith)
      (refill-Kept size a global locked)
buddy_malloc-Kept size a ([] ∷ l ∷ ls) global locked =
    Kept-same size (top (2 * size) (l ∷ ls)) a _ _
      (halve size (buddy_malloc (2 * size) (l ∷ ls) global locked)) (omega arith)
      (halve-Kept size _ a _ _ (buddy_malloc-Kept (2 * size) a (l ∷ ls) global locked))

walk-cover :
    (start size : ℕ) (compact : Bool) (buf a : ℕ) (xs : List ℕ)
    → cover_list size a (walk start size compact buf xs).list
        + covers_option (2 * size) a (walk start size compact buf xs).joined
      ≡ cover_list size a xs + covers size a buf
unfolding walk
walk-cover start size compact buf a [] = omega arith
walk-cover start size compact buf a (x ∷ xs) =
    ground (arith, walk-cover start size compact buf a xs)

walk_plain : (start size buf : ℕ) (xs : List ℕ) → (walk start size false buf xs).joined ≡ none
unfolding walk
walk_plain start size buf [] = refl
walk_plain start size buf (x ∷ xs) = ground (arith, walk_plain start size buf xs)

option-cases : (o : Option ℕ) → (o ≡ none) ⊎ ((p : ℕ) × (o ≡ some p))
option-cases none = inl refl
option-cases (some p) = inr (p, refl)

-- buddy_free of a block whose size has a list: each byte of the block is in the free blocks once more
-- than before, and each other byte as often as before.
pub buddy_free-cover :
    (start size buf a : ℕ) (l : List ℕ) (ls : List (List ℕ))
    → cover size a (buddy_free start size buf (l ∷ ls)) ≡ cover size a (l ∷ ls) + covers size a buf
unfolding buddy_free
buddy_free-cover start size buf a l [] =
    let k = walk-cover start size false buf a l in
    let e = walk_plain start size buf l in
    let k' =
      subst
        (λ o.
          cover_list size a (walk start size false buf l).list + covers_option (2 * size) a o
          ≡ cover_list size a l + covers size a buf)
        e k in
    rw (buddy_free, e) (omega (arith, k'))
buddy_free-cover start size buf a l (l' ∷ ls) =
    let k = walk-cover start size true buf a l in
    elim (option-cases (walk start size true buf l).joined) [
      | inl e ↦
          let k' =
            subst
              (λ o.
                cover_list size a (walk start size true buf l).list + covers_option (2 * size) a o
                ≡ cover_list size a l + covers size a buf)
              e k in
          rw (buddy_free, e) (omega (arith, k'))
      | inr (p, e) ↦
          let k' =
            subst
              (λ o.
                cover_list size a (walk start size true buf l).list + covers_option (2 * size) a o
                ≡ cover_list size a l + covers size a buf)
              e k in
          rw (buddy_free, e) (omega (arith, k', buddy_free-cover start (2 * size) p a l' ls))
    ]
