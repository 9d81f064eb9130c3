-- ===== src/Buddy/Behind.antt =====
-- The free lists of src/aurora_pci.c from one size on, and what buddy_malloc makes of them.
use sxaurora_unvme.Base.{
  ℕ, zero, suc, ◌+◌, ◌*◌, ◌^◌, ◌<◌, ◌≡◌, length, inl, inr, List, [], ◌∷◌, ◌++◌, Bool, true, false,
  some, none, leb, ◌==◌, arith, refl, Bool-cases, ==→eq, ap, ◌∙◌, sym, subst,
}
use native.Mathlib.Nat.{pow-succ', mul_assoc, mul_comm}
use sxaurora_unvme.Buddy.{Heap, Got, spins, got, front, behind, refill, halve, buddy_malloc}
use sxaurora_unvme.Buddy.Cover.{cover, cover_list, top}
use sxaurora_unvme.Buddy.Memory.{maxbytes, index_loop}

-- How many free blocks have the byte at `a`; `last` is the size of the blocks of the global list.
unfoldable pub free_at : (last a : ℕ) → Heap → ℕ
free_at last a h = cover 512 a h.lists + cover_list last a h.global

pub index_loop-size :
    (n i r size j : ℕ) → index_loop n i r size ≡ some j → (m : ℕ) × (j ≡ r + m) × (size ≡ i * 2 ^ m)
unfolding index_loop
index_loop-size zero i r size j e = ground arith
index_loop-size (suc n) i r size j e = elim (Bool-cases (leb i maxbytes)) [
  | inl low ↦ elim (Bool-cases (i == size)) [
    | inl here ↦ (0, ground arith, ground (arith, ==→eq i size here))
    | inr next ↦
        let k : index_loop n (i * 2) (r + 1) size ≡ some j = ground arith in
        let (m, at, is) = index_loop-size n (i * 2) (r + 1) size j k in
        (
          suc m,
          omega (arith, at),
          is ∙ mul_assoc i 2 (2 ^ m) ∙ ap (λ k. i * k) (sym (pow-succ' 2 m)),
        )
  ]
  | inr high ↦ absurd (ground arith)
]

module _ {ℓ} {A : Type ℓ} where
  pub behind-front :
      (i : ℕ) (ls ms : List A) (l : A) (rest : List A)
      → behind i ls ≡ l ∷ rest
      → behind i (front i ls ++ ms) ≡ ms
  unfolding front behind
  behind-front zero ls ms l rest e = refl
  behind-front (suc i) [] ms l rest e = ground arith
  behind-front (suc i) (x ∷ ls) ms l rest e = behind-front i ls ms l rest e

  pub front-front :
      (i : ℕ) (ls ms : List A) (l : A) (rest : List A)
      → behind i ls ≡ l ∷ rest
      → front i (front i ls ++ ms) ≡ front i ls
  unfolding front behind
  front-front zero ls ms l rest e = refl
  front-front (suc i) [] ms l rest e = ground arith
  front-front (suc i) (x ∷ ls) ms l rest e = ap (λ zs. x ∷ zs) (front-front i ls ms l rest e)

  pub length-front :
      (i : ℕ) (ls ms : List A)
      → length ms ≡ length (behind i ls)
      → length (front i ls ++ ms) ≡ length ls
  unfolding front behind
  length-front zero ls ms e = e
  length-front (suc i) [] ms e = e
  length-front (suc i) (x ∷ ls) ms e = ap suc (length-front i ls ms e)

  pub behind-lt :
      (i : ℕ) (ls : List A) (l : A) (rest : List A) → behind i ls ≡ l ∷ rest → i < length ls
  unfolding behind
  behind-lt zero [] l rest e = ground arith
  behind-lt zero (x ∷ ls) l rest e = omega arith
  behind-lt (suc i) [] l rest e = ground arith
  behind-lt (suc i) (x ∷ ls) l rest e = omega (arith, behind-lt i ls l rest e)

  pub lt-behind :
      (i : ℕ) (ls : List A) → i < length ls → (l : A) × (rest : List A) × (behind i ls ≡ l ∷ rest)
  unfolding behind
  lt-behind i [] e = absurd (omega arith)
  lt-behind zero (x ∷ ls) e = (x, ls, refl)
  lt-behind (suc i) (x ∷ ls) e = lt-behind i ls (omega arith)

double_pow : (s i : ℕ) → 2 * s * 2 ^ i ≡ s * 2 ^ suc i
double_pow s i =
    ap (λ k. k * 2 ^ i) (mul_comm 2 s)
    ∙ mul_assoc s 2 (2 ^ i)
    ∙ ap (λ k. s * k) (sym (pow-succ' 2 i))

-- Other lists from size `s * 2 ^ i` on.
pub cover-front :
    (i s a : ℕ) (ls ms : List (List ℕ)) (l : List ℕ) (rest : List (List ℕ))
    → behind i ls ≡ l ∷ rest
    → cover s a (front i ls ++ ms) + cover (s * 2 ^ i) a (behind i ls)
      ≡ cover s a ls + cover (s * 2 ^ i) a ms
unfolding front behind
cover-front zero s a ls ms l rest e = let k : s * 2 ^ 0 ≡ s = omega arith in rw k (omega arith)
cover-front (suc i) s a [] ms l rest e = ground arith
cover-front (suc i) s a (x ∷ ls) ms l rest e =
    let k = cover-front i (2 * s) a ls ms l rest e in
    let k' =
      subst
        (λ t.
          cover (2 * s) a (front i ls ++ ms) + cover t a (behind i ls)
          ≡ cover (2 * s) a ls + cover t a ms)
        (double_pow s i) k in
    omega (arith, k')

pub top-behind :
    (i s : ℕ) (ls : List (List ℕ)) (l : List ℕ) (rest : List (List ℕ))
    → behind i ls ≡ l ∷ rest
    → top (s * 2 ^ i) (behind i ls) ≡ top s ls
unfolding behind
top-behind zero s ls l rest e = ap (λ t. top t ls) (omega arith)
top-behind (suc i) s [] l rest e = ground arith
top-behind (suc zero) s (x ∷ []) l rest e = ground arith
top-behind (suc (suc i)) s (x ∷ []) l rest e = ground arith
top-behind (suc i) s (x ∷ y ∷ ls) l rest e =
    subst (λ t. top t (behind i (y ∷ ls)) ≡ top (2 * s) (y ∷ ls)) (double_pow s i)
      (top-behind i (2 * s) (y ∷ ls) l rest e)

-- A block comes from lists of which there is one, and leaves one.
abbrev pub Lent : List (List ℕ) → Got → Type 0
Lent ls spins = Unit {0}
Lent ls (got none h) = Unit {0}
Lent ls (got (some p) h) =
    ((l : List ℕ) × (rest : List (List ℕ)) × (ls ≡ l ∷ rest))
    × ((l : List ℕ) × (rest : List (List ℕ)) × (h.lists ≡ l ∷ rest))

pub buddy_malloc-Lent :
    (size : ℕ) (ls : List (List ℕ)) (global : List ℕ) (locked : Bool)
    → Lent ls (buddy_malloc size ls global locked)
unfolding buddy_malloc refill
buddy_malloc-Lent size [] global locked = tt
buddy_malloc-Lent size ((p ∷ ps) ∷ ls) global locked = ((_, _, refl), (_, _, refl))
buddy_malloc-Lent size ([] ∷ []) global true = tt
buddy_malloc-Lent size ([] ∷ []) [] false = tt
buddy_malloc-Lent size ([] ∷ []) (p ∷ ps) false = ((_, _, refl), (_, _, refl))
buddy_malloc-Lent size ([] ∷ l ∷ ls) global locked =
    halved (buddy_malloc (2 * size) (l ∷ ls) global locked)
  where
    halved : (g : Got) → Lent ([] ∷ l ∷ ls) (halve size g)
    halved spins = tt
    halved (got none h) = tt
    halved (got (some p) h) = ((_, _, refl), (_, _, refl))

-- There are as many lists as before.
abbrev pub SameLength : List (List ℕ) → Got → Type 0
SameLength ls spins = Unit {0}
SameLength ls (got p h) = length h.lists ≡ length ls

pub buddy_malloc-SameLength :
    (size : ℕ) (ls : List (List ℕ)) (global : List ℕ) (locked : Bool)
    → SameLength ls (buddy_malloc size ls global locked)
unfolding buddy_malloc refill
buddy_malloc-SameLength size [] global locked = refl
buddy_malloc-SameLength size ((p ∷ ps) ∷ ls) global locked = refl
buddy_malloc-SameLength size ([] ∷ []) global true = tt
buddy_malloc-SameLength size ([] ∷ []) [] false = refl
buddy_malloc-SameLength size ([] ∷ []) (p ∷ ps) false = refl
buddy_malloc-SameLength size ([] ∷ l ∷ ls) global locked =
    halved (buddy_malloc (2 * size) (l ∷ ls) global locked)
      (buddy_malloc-SameLength (2 * size) (l ∷ ls) global locked)
  where
    halved : (g : Got) → SameLength (l ∷ ls) g → SameLength ([] ∷ l ∷ ls) (halve size g)
    halved spins e = tt
    halved (got none h) e = ap suc e
    halved (got (some p) h) e = ap suc e
