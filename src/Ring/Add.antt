-- ===== src/Ring/Add.antt =====
-- LIST_ADD appends its node to the list that the ring stands for.
use sxaurora_unvme.Base.{ℕ, ◌≡◌, ◌≢◌, true, false, List, [], ◌∷◌, ◌++◌, arith, ◌==◌}
use sxaurora_unvme.Ring.{Links, link_before, list_add}
use sxaurora_unvme.Ring.Shape.{
  has, Distinct, Chain, IsRing, IsRing-frame, has-append, Distinct-snoc, last-has,
}

link_before-Chain :
    (l : Links) (a : ℕ) (xs : List ℕ) (b node : ℕ)
    → Chain l a xs b
    → Distinct (a ∷ xs)
    → has b xs ≡ false
    → has node (a ∷ xs) ≡ false
    → node ≢ b
    → Chain (link_before l b node) a (xs ++ node ∷ []) b
unfolding link_before
link_before-Chain l a [] b node c d out new ne = ground arith
link_before-Chain l a (x ∷ xs) b node c d out new ne = (
  ground (arith, last-has l x xs b c.2),
  ground (arith, last-has l x xs b c.2),
  link_before-Chain l x xs b node c.2 d.1 (ground arith) (ground arith) ne,
)

-- LIST_ADD puts a node that is not NULL, and is not on the ring, at the end of the ring.
pub list_add-IsRing :
    (l : Links) (head node : ℕ) (xs : List ℕ)
    → IsRing l head xs
    → node ≢ 0
    → has node xs ≡ false
    → IsRing (list_add l head node).links (list_add l head node).head (xs ++ node ∷ [])
unfolding list_add link_before
list_add-IsRing l head node [] ring ne new = ground arith
list_add-IsRing l head node (p ∷ xs) ring ne new =
    let e : (head == 0) ≡ false = ground arith in
    rw e (
      ring.0,
      ground (arith, has-append 0 xs (node ∷ [])),
      Distinct-snoc (p ∷ xs) node ring.2 new,
      rw ring.0 (link_before-Chain l p xs p node ring.3 ring.2 ring.2.0 new (ground arith)),
    )

-- LIST_ADD leaves alone a ring that shares no node with the one that it extends.
pub list_add-frame :
    (l : Links) (head node : ℕ) (xs : List ℕ) (other : ℕ) (ys : List ℕ)
    → has node ys ≡ false
    → ((x : ℕ) → has x ys ≡ true → has x xs ≡ false)
    → IsRing l head xs
    → IsRing l other ys
    → IsRing (list_add l head node).links other ys
unfolding list_add link_before
list_add-frame l head node [] other ys new apart ring ring' =
    IsRing-frame l _ other ys (λ x h. ground arith) ring'
list_add-frame l head node (p ∷ xs) other ys new apart ring ring' =
    IsRing-frame l _ other ys (λ x h. ground (arith, apart x, last-has l p xs p ring.3)) ring'
