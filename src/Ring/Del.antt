-- ===== src/Ring/Del.antt =====
-- LIST_DEL removes its node from the list that the ring stands for.
use sxaurora_unvme.Base.{
  ℕ, ◌≡◌, ◌≢◌, true, false, ◌||◌, List, [], ◌∷◌, ◌++◌, arith, ◌==◌, refl, Bool-cases, inl, inr,
  subst, ==→eq, ==-false→ne, length, suc,
}
use sxaurora_unvme.Ring.{Links, unlink, list_del}
use sxaurora_unvme.Ring.Shape.{
  has, erase, Distinct, Chain, IsRing, IsRing-frame, has-append, Chain-frame, last-has,
}

prev-has :
    (l : Links) (a : ℕ) (xs : List ℕ) (b node : ℕ)
    → Chain l a xs b
    → has node xs ≡ true
    → has (l.prev node) (a ∷ xs) ≡ true
prev-has l a [] b node c h = ground arith
prev-has l a (x ∷ xs) b node c h = ground (arith, prev-has l x xs b node c.2)

next-has :
    (l : Links) (a : ℕ) (xs : List ℕ) (b node : ℕ)
    → Chain l a xs b
    → has node xs ≡ true
    → has (l.next node) (xs ++ b ∷ []) ≡ true
next-has l a [] b node c h = ground arith
next-has l a (x ∷ []) b node c h = ground (arith)
next-has l a (x ∷ y ∷ xs) b node c h = ground (arith, next-has l x (y ∷ xs) b node c.2)

-- On a chain of distinct nodes no node is its own successor.
next-ne :
    (l : Links) (a : ℕ) (xs : List ℕ) (b node : ℕ)
    → Chain l a xs b
    → Distinct xs
    → has b xs ≡ false
    → has node xs ≡ true
    → l.next node ≢ node
next-ne l a [] b node c d outb h = ground arith
next-ne l a (x ∷ []) b node c d outb h = ground arith
next-ne l a (x ∷ y ∷ xs) b node c d outb h = ground (arith, next-ne l x (y ∷ xs) b node c.2 d.1)

pub has-erase-le : (a node : ℕ) (xs : List ℕ) → has a (erase node xs) ≡ true → has a xs ≡ true
has-erase-le a node [] h = h
has-erase-le a node (x ∷ xs) h = ground (arith, has-erase-le a node xs)

pub has-erase :
    (a node : ℕ) (xs : List ℕ)
    → Distinct xs
    → has node xs ≡ true
    → has a xs ≡ (has a (erase node xs) || (a == node))
has-erase a node [] d h = ground arith
has-erase a node (x ∷ xs) d h = ground (arith, has-erase a node xs)

pub Distinct-erase : (node : ℕ) (xs : List ℕ) → Distinct xs → Distinct (erase node xs)
Distinct-erase node [] d = d
Distinct-erase node (x ∷ xs) d = elim (Bool-cases (x == node)) [
  | inl e ↦ rw e d.1
  | inr e ↦ rw e (ground (arith, has-erase-le x node xs), Distinct-erase node xs d.1)
]

pub not-has-erase : (node : ℕ) (xs : List ℕ) → Distinct xs → has node (erase node xs) ≡ false
not-has-erase node [] d = refl
not-has-erase node (x ∷ xs) d = ground (arith, not-has-erase node xs)

pub length-erase :
    (node : ℕ) (xs : List ℕ) → has node xs ≡ true → suc (length (erase node xs)) ≡ length xs
length-erase node [] h = ground arith
length-erase node (x ∷ xs) h = ground (arith, length-erase node xs)

-- The node after `a` on a chain is spliced out.
splice :
    (l : Links) (a node : ℕ) (xs : List ℕ) (b : ℕ)
    → l.next a ≡ node
    → l.prev node ≡ a
    → Chain l node xs b
    → Distinct xs
    → has a xs ≡ false
    → has b xs ≡ false
    → Chain (unlink l node) a xs b
unfolding unlink
splice l a node [] b na pn c d out outb = ground arith
splice l a node (y ∷ xs) b na pn c d out outb = (
  ground arith,
  ground arith,
  Chain-frame l (unlink l node) y xs b (λ x h. ground arith)
      (λ x h. ground (arith, has-append x xs (b ∷ []))) c.2,
)

unlink-Chain :
    (l : Links) (a node : ℕ) (xs : List ℕ) (b : ℕ)
    → Chain l a xs b
    → Distinct (a ∷ xs)
    → has b xs ≡ false
    → has node xs ≡ true
    → Chain (unlink l node) a (erase node xs) b
unfolding unlink
unlink-Chain l a node [] b c d outb h = ground arith
unlink-Chain l a node (x ∷ xs) b c d outb h = elim (Bool-cases (x == node)) [
  | inl e ↦ rw e (
      splice l a node xs b (ground arith) (ground arith)
        (subst (λ z. Chain l z xs b) (==→eq x node e) c.2) d.1.1 (ground arith) (ground arith))
  | inr e ↦ rw e (
    ground (arith, prev-has l x xs b node c.2),
    ground (arith, next-has l x xs b node c.2, has-append x xs (b ∷ [])),
    unlink-Chain l x node xs b c.2 d.1 (ground arith) (ground arith),
  )
]

-- The head `p` is spliced out of its ring, which then closes at the next node `x`.
reclose :
    (l : Links) (p x a : ℕ) (xs : List ℕ)
    → Chain l a xs p
    → l.next p ≡ x
    → p ≢ x
    → has x xs ≡ false
    → has p (a ∷ xs) ≡ false
    → Distinct (a ∷ xs)
    → Chain (unlink l p) a xs x
unfolding unlink
reclose l p x a [] c np ne outx outp d = ground arith
reclose l p x a (y ∷ xs) c np ne outx outp d = (
  ground (arith, last-has l y xs p c.2),
  ground (arith, last-has l y xs p c.2),
  reclose l p x y xs c.2 np ne (ground arith) (ground arith) d.1,
)

del_head :
    (l : Links) (p x : ℕ) (xs : List ℕ)
    → IsRing l p (p ∷ x ∷ xs)
    → IsRing (list_del l p p).links (list_del l p p).head (x ∷ xs)
unfolding list_del
del_head l p x xs ring =
    let ne : (l.next p == p) ≡ false = ground arith in
    let same : (p == p) ≡ true = ground arith in
    rw (ne, same)
      (
        ground (arith, last-has l p (x ∷ xs) p ring.3),
        ground arith,
        ring.2.1,
        reclose l p x x xs ring.3.2 ring.3.0 (ground arith) ring.2.1.0 ring.2.0 ring.2.1,
      )

del_other :
    (l : Links) (p node : ℕ) (xs : List ℕ)
    → IsRing l p (p ∷ xs)
    → p ≢ node
    → has node xs ≡ true
    → IsRing (list_del l p node).links (list_del l p node).head (p ∷ erase node xs)
unfolding list_del
del_other l p node xs ring pn h =
    let ne : (l.next node == node) ≡ false =
      ground (arith, next-ne l p xs p node ring.3 ring.2.1 ring.2.0 h) in
    let other : (p == node) ≡ false = ground arith in
    rw (ne, other)
      (
        refl,
        ground (arith, has-erase-le 0 node xs),
        (ground (arith, has-erase-le p node xs), Distinct-erase node xs ring.2.1),
        unlink-Chain l p node xs p ring.3 ring.2 ring.2.0 h,
      )

del_first :
    (l : Links) (p : ℕ) (xs : List ℕ)
    → IsRing l p (p ∷ xs)
    → IsRing (list_del l p p).links (list_del l p p).head xs
unfolding list_del
del_first l p [] ring = ground arith
del_first l p (x ∷ xs) ring = del_head l p x xs ring

-- The neighbours of a node of a ring are on the ring.
pub ring-next :
    (l : Links) (p : ℕ) (xs : List ℕ) (node : ℕ)
    → Chain l p xs p
    → has node (p ∷ xs) ≡ true
    → has (l.next node) (p ∷ xs) ≡ true
ring-next l p [] node c h = ground arith
ring-next l p (x ∷ xs) node c h =
    ground (arith, next-has l p (x ∷ xs) p node c, has-append (l.next node) xs (p ∷ []))

pub ring-prev :
    (l : Links) (p : ℕ) (xs : List ℕ) (node : ℕ)
    → Chain l p xs p
    → has node (p ∷ xs) ≡ true
    → has (l.prev node) (p ∷ xs) ≡ true
ring-prev l p xs node c h = ground (arith, prev-has l p xs p node c, last-has l p xs p c)

-- LIST_DEL of a node of the ring leaves the other nodes, in order.
pub list_del-IsRing :
    (l : Links) (head node : ℕ) (xs : List ℕ)
    → IsRing l head xs
    → has node xs ≡ true
    → IsRing (list_del l head node).links (list_del l head node).head (erase node xs)
list_del-IsRing l head node [] ring h = ground arith
list_del-IsRing l head node (p ∷ xs) ring h = elim (Bool-cases (p == node)) [
  | inl e ↦
      rw (e, ring.0, ← ==→eq p node e)
        (del_first l p xs (subst (λ a. IsRing l a (p ∷ xs)) ring.0 ring))
  | inr e ↦
      rw (e, ring.0)
        (del_other l p node xs (subst (λ a. IsRing l a (p ∷ xs)) ring.0 ring) (==-false→ne p node e)
          (ground arith))
]

-- LIST_DEL leaves alone a ring that shares no node with the one that it shortens.
pub list_del-frame :
    (l : Links) (head node : ℕ) (xs : List ℕ) (other : ℕ) (ys : List ℕ)
    → has node xs ≡ true
    → ((x : ℕ) → has x ys ≡ true → has x xs ≡ false)
    → IsRing l head xs
    → IsRing l other ys
    → IsRing (list_del l head node).links other ys
unfolding list_del unlink
list_del-frame l head node [] other ys h apart ring ring' = ground arith
list_del-frame l head node (p ∷ xs) other ys h apart ring ring' =
    IsRing-frame l _ other ys
      (λ x i. ground (arith, apart x, ring-next l p xs node ring.3, ring-prev l p xs node ring.3))
      ring'
