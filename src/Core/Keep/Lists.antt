-- ===== src/Core/Keep/Lists.antt =====
-- Taking a descriptor into use, and putting it back.
use sxaurora_unvme.Base.{
  ℕ, zero, suc, ◌/◌, ◌≡◌, ◌≢◌, Bool, true, false, List, [], ◌∷◌, ◌++◌, if◌then◌else◌, length, arith,
  ◌==◌, refl, Bool-cases, inl, inr, ==→eq, sym, length-append, length-replicate, subst, replicate,
}
use sxaurora_unvme.Ring.{list_add, Links}
use sxaurora_unvme.Ring.Shape.{has, IsRing, has-append}
use sxaurora_unvme.Ring.Add.{list_add-IsRing, list_add-frame}
use sxaurora_unvme.CidMask.{Mask, mask_test, mask_test-zero}
use sxaurora_unvme.CidMask.Count.{count-zero}
use sxaurora_unvme.Core.State.{Queue, Descriptor}
use sxaurora_unvme.Core.Total.{total-append}
use sxaurora_unvme.Core.Desc.{clear_words, enlist}
use sxaurora_unvme.Core.Invariant.{owns, IsDesc, IsShared, IsLinked, IsQueue, IsPending}

length-clear_words : (n : ℕ) (m : Mask) → length (clear_words n m) ≡ length m
unfolding clear_words
length-clear_words zero m = refl
length-clear_words (suc n) [] = refl
length-clear_words (suc n) (w ∷ m) = omega (arith, length-clear_words n m)

-- Clearing all words leaves a zero mask.
pub clear_words-all : (m : Mask) → clear_words (length m) m ≡ replicate (length m) 0
unfolding clear_words
clear_words-all [] = refl
clear_words-all (w ∷ m) = rw (clear_words-all m)

-- A descriptor with no ids is well-formed.
pub empty-IsDesc :
    (q : Queue) (d : Descriptor)
    → d.cidmask ≡ replicate (q.masksize / 8) 0
    → d.cidcount ≡ 0
    → IsDesc q d
empty-IsDesc q d e z = record {
  width = rw e (length-replicate (q.masksize / 8) 0);
  each = rw (e, z) (sym (count-zero q.size _ (mask_test-zero (q.masksize / 8))));
  low = λ i h. ground (arith, mask_test-zero (q.masksize / 8) i, e);
}

-- The pending head after a node is added: it moves if the ring was empty.
enlist_head :
    (xs : List ℕ) (p pend : ℕ) (alone : Bool)
    → IsPending pend xs
    → (xs ≡ [] → alone ≡ true)
    → IsPending (if alone then p else pend) (xs ++ p ∷ [])
enlist_head [] p pend alone h e = rw (e refl) (ground arith)
enlist_head (x ∷ xs) p pend true h e = ground (arith, has-append p xs (p ∷ []))
enlist_head (x ∷ xs) p pend false h e = ground (arith, has-append pend xs (p ∷ []))

add-alone :
    (l : Links) (head p : ℕ) → IsRing l head [] → ((list_add l head p).links.next p == p) ≡ true
unfolding list_add
add-alone l head p ring = ground arith

-- LIST_ADD to the ring in use, of a node that is in neither ring and has an empty descriptor.
module _ (q : Queue) (xs ys : List ℕ) (p : ℕ) (linked : IsLinked q xs ys) (shared : IsShared q xs)
    (descs : (x : ℕ) → has x xs ≡ true → IsDesc q (q.desc x))
    (spare : (x : ℕ) → has x ys ≡ true → length (q.desc x).cidmask ≡ q.masksize / 8) (ne : p ≢ 0)
    (new : has p xs ≡ false) (new' : has p ys ≡ false) (empty : IsDesc q (q.desc p))
    (none_set : (i : ℕ) → mask_test (q.desc p).cidmask i ≡ false) where
  enlist-IsPending : IsPending (enlist q p).descpend (xs ++ p ∷ [])
  unfolding enlist
  enlist-IsPending =
      enlist_head xs p q.descpend ((list_add q.links q.desclist p).links.next p == p) linked.pending
        (λ e. add-alone q.links q.desclist p (subst (IsRing q.links q.desclist) e linked.used))

  enlist-IsDesc : (x : ℕ) → has x (xs ++ p ∷ []) ≡ true → IsDesc (enlist q p) ((enlist q p).desc x)
  unfolding enlist
  enlist-IsDesc x h = elim (Bool-cases (x == p)) [
    | inl e ↦ rw (==→eq x p e) (record { width = empty.width; each = empty.each; low = empty.low })
    | inr e ↦
        let d = descs x (ground (arith, has-append x xs (p ∷ []))) in
        record { width = d.width; each = d.each; low = d.low }
  ]

  pub enlist-IsQueue : IsQueue (enlist q p) (xs ++ p ∷ []) ys
  unfolding enlist
  enlist-IsQueue = record {
    linked = record {
      used = list_add-IsRing q.links q.desclist p xs linked.used ne new;
      free =
          list_add-frame q.links q.desclist p xs q.descfree ys new' linked.apart linked.used
            linked.free;
      apart = λ x h. ground (arith, linked.apart x h, has-append x xs (p ∷ []));
      number = omega (arith, linked.number, length-append xs (p ∷ []));
      pending = enlist-IsPending;
    };
    shared = record {
      width = shared.width;
      fits = shared.fits;
      bound = shared.bound;
      next = shared.next;
      room = shared.room;
      counted = shared.counted;
      owned = λ i. ground (arith, total-append (owns q i) xs p, shared.owned i, none_set i);
      low = shared.low;
    };
    descs = enlist-IsDesc;
    spare = spare;
  }
