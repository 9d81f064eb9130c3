-- ===== src/Buddy/Loan.antt =====
-- aurora_mem_alloc and aurora_mem_free of src/aurora_pci.c: a buffer comes from the free bytes, and
-- goes back to them.
use sxaurora_unvme.Base.{
  ℕ, ◌+◌, ◌-◌, ◌*◌, ◌%◌, ◌^◌, ◌<◌, ◌≤◌, ◌≡◌, inl, inr, List, ◌∷◌, ◌++◌, Bool, true, false, ◌||◌,
  length, some, none, ltb, arith, refl, Option-cases, ap, ◌∙◌, sym, subst,
}
use sxaurora_unvme.Base.Bits.{pow-pos}
use sxaurora_unvme.Core.Prps.{Region, max_size, resolve_addr}
use sxaurora_unvme.Buddy.{Heap, Got, spins, got, front, behind, buddy_malloc, buddy_free}
use sxaurora_unvme.Buddy.Cover.{
  covers, cover, cover_list, top, Kept, buddy_malloc-Kept, buddy_free-cover,
}
use sxaurora_unvme.Buddy.Memory.{
  get_index_from_size, round_size, Dma, Alloced, waits, doubles, exhausted, alloced, given,
  mem_alloc, mem_free,
}
use sxaurora_unvme.Buddy.Behind.{
  SameLength, buddy_malloc-SameLength, behind-lt, length-front, free_at, index_loop-size,
  behind-front, front-front, cover-front, top-behind, Lent, buddy_malloc-Lent,
}

-- What an allocation of size `t`, with index `i`, has done.
module _ (r : Region) (h : Heap) (t i : ℕ) (size_of : t ≡ 512 * 2 ^ i) where
  last : ℕ
  last = top 512 h.lists

  gave : Got
  gave = buddy_malloc t (behind i h.lists) h.global h.locked

  changed :
      (ms : List (List ℕ)) (a : ℕ) (l : List ℕ) (rest : List (List ℕ))
      → behind i h.lists ≡ l ∷ rest
      → cover 512 a (front i h.lists ++ ms) + cover t a (behind i h.lists)
        ≡ cover 512 a h.lists + cover t a ms
  changed ms a l rest cons =
      subst
        (λ u.
          cover 512 a (front i h.lists ++ ms) + cover u a (behind i h.lists)
          ≡ cover 512 a h.lists + cover u a ms)
        (sym size_of) (cover-front i 512 a h.lists ms l rest cons)

  -- How often a byte is free before and after.
  lent :
      (a p : ℕ) (h' : Heap)
      → gave ≡ got (some p) h'
      → free_at last a (record h' { lists = front i h.lists ++ h'.lists }) + covers t a p
        ≡ free_at last a h
  unfolding last gave free_at
  lent a p h' e =
      let n =
        subst (λ g. Lent (behind i h.lists) g) e
          (buddy_malloc-Lent t (behind i h.lists) h.global h.locked) in
      let (l, rest, cons) = n.0 in
      let k =
        subst
          (λ g.
            Kept t (top t (behind i h.lists)) a
              (cover t a (behind i h.lists) + cover_list (top t (behind i h.lists)) a h.global) g)
          e (buddy_malloc-Kept t a (behind i h.lists) h.global h.locked) in
      let same : top t (behind i h.lists) ≡ top 512 h.lists =
        ap (λ u. top u (behind i h.lists)) size_of ∙ top-behind i 512 h.lists l rest cons in
      let k' =
        subst
          (λ u.
            cover t a h'.lists + cover_list u a h'.global + covers t a p
            ≡ cover t a (behind i h.lists) + cover_list u a h.global)
          same k in
      let c = changed h'.lists a l rest cons in omega (arith, k', c)

  -- And after it is freed again.
  paid :
      (a p : ℕ) (h' : Heap)
      → gave ≡ got (some p) h'
      → (let ms = front i h.lists ++ h'.lists in
          free_at last a (record h' { lists = front i ms ++ buddy_free r.vemva t p (behind i ms) }))
        ≡ free_at last a h
  unfolding free_at gave
  paid a p h' e =
      let n =
        subst (λ g. Lent (behind i h.lists) g) e
          (buddy_malloc-Lent t (behind i h.lists) h.global h.locked) in
      let (l, rest, cons) = n.0 in
      let (l', rest', cons') = n.1 in
      let back = λ (ms : List (List ℕ)). buddy_free r.vemva t p ms in
      let f =
        subst (λ ms. cover t a (back ms) ≡ cover t a ms + covers t a p) (sym cons')
          (buddy_free-cover r.vemva t p a l' rest') in
      let c = changed (back h'.lists) a l rest cons in
      let c' = changed h'.lists a l rest cons in
      rw (behind-front i h.lists h'.lists l rest cons, front-front i h.lists h'.lists l rest cons)
        (omega (arith, f, c, c', lent a p h' e))

-- What an allocation that gives a buffer has done.
pub record Parts (r : Region) (h : Heap) (size : ℕ) (d : Dma) (h' : Heap) : Type 0 where
  pub i : ℕ
  pub index : get_index_from_size d.size ≡ some i
  pub rounded : round_size size ≡ some d.size
  pub left : Heap
  pub gave_it : buddy_malloc d.size (behind i h.lists) h.global h.locked ≡ got (some d.buf) left
  pub heap : h' ≡ record left { lists = front i h.lists ++ left.lists }
  pub dma : d.addr ≡ (r.pci_vhsaa + (d.buf - r.vemva)) % 2 ^ 64

abbrev dma_of : Dma → Alloced → Dma
dma_of o waits = o
dma_of o doubles = o
dma_of o exhausted = o
dma_of o (alloced d h) = d

abbrev heap_of : Heap → Alloced → Heap
heap_of o waits = o
heap_of o doubles = o
heap_of o exhausted = o
heap_of o (alloced d h) = h

given-Parts :
    (r : Region) (h : Heap) (size t i : ℕ) (g : Got) (d : Dma) (h' : Heap)
    → round_size size ≡ some t
    → get_index_from_size t ≡ some i
    → buddy_malloc t (behind i h.lists) h.global h.locked ≡ g
    → given r h i t g ≡ alloced d h'
    → Parts r h size d h'
unfolding given
given-Parts r h size t i spins d h' rounded index m e = ground arith
given-Parts r h size t i (got none u) d h' rounded index m e = ground arith
given-Parts r h size t i (got (some p) u) d h' rounded index m e =
    let made : Dma = record { buf = p; size = t; addr = (r.pci_vhsaa + (p - r.vemva)) % 2 ^ 64 } in
    let same : made ≡ d = ap (dma_of made) e in
    let heap : record u { lists = front i h.lists ++ u.lists } ≡ h' = ap (heap_of h) e in
    subst (λ (k : Dma). Parts r h size k h') same
      (record {
        i = i;
        index = index;
        rounded = rounded;
        left = u;
        gave_it = m;
        heap = sym heap;
        dma = refl;
      })

abbrev gives : Alloced → Bool
gives waits = false
gives doubles = false
gives exhausted = false
gives (alloced d h) = true

not_given : {B : Type 0} (o : Alloced) (d : Dma) (h : Heap) → gives o ≡ false → o ≡ alloced d h → B
not_given o d h refused e = let k = sym (ap gives e) ∙ refused in ground arith

pub mem_alloc-Parts :
    (r : Region) (h : Heap) (size : ℕ) (d : Dma) (h' : Heap)
    → mem_alloc r h size ≡ alloced d h'
    → Parts r h size d h'
unfolding mem_alloc
mem_alloc-Parts r h size d h' e = elim (Option-cases (round_size size)) [
  | inl over ↦
      let k : mem_alloc r h size ≡ doubles = rw (mem_alloc, over) refl in
      not_given doubles d h' refl (sym k ∙ e)
  | inr (t, rounded) ↦ elim (Option-cases (get_index_from_size t)) [
    | inl none_such ↦
        let k : mem_alloc r h size ≡ exhausted = rw (mem_alloc, rounded, none_such) refl in
        not_given exhausted d h' refl (sym k ∙ e)
    | inr (i, index) ↦
        let g = buddy_malloc t (behind i h.lists) h.global h.locked in
        let k : mem_alloc r h size ≡ given r h i t g = rw (mem_alloc, rounded, index) refl in
        given-Parts r h size t i g d h' rounded index refl (sym k ∙ e)
  ]
]

pub mem_free-index :
    (r : Region) (h : Heap) (d : Dma) (i : ℕ)
    → get_index_from_size d.size ≡ some i
    → mem_free r h d
      ≡ record h { lists = front i h.lists ++ buddy_free r.vemva d.size d.buf (behind i h.lists) }
unfolding mem_free front
mem_free-index r h d i e = rw (mem_free, e) refl

-- The buffer's size has an index, of a list of the thread, and each byte is in the buffer or free as
-- often as it was free before; there are as many lists as before.
pub record Taken (h h' : Heap) (d : Dma) : Type 0 where
  pub i : ℕ
  pub index : get_index_from_size d.size ≡ some i
  pub small : i < length h.lists
  pub lists : length h'.lists ≡ length h.lists
  pub bytes :
      (a : ℕ)
      → free_at (top 512 h.lists) a h' + covers d.size a d.buf ≡ free_at (top 512 h.lists) a h

-- The size that an index stands for.
pub size-index : (size i : ℕ) → get_index_from_size size ≡ some i → size ≡ 512 * 2 ^ i
unfolding get_index_from_size
size-index size i e =
    let (m, at, is) = index_loop-size 14 512 0 size i e in
    is ∙ ap (λ j. 512 * 2 ^ j) (omega (arith, at))

pub mem_alloc-Taken :
    (r : Region) (h : Heap) (size : ℕ) (d : Dma) (h' : Heap)
    → mem_alloc r h size ≡ alloced d h'
    → Taken h h' d
unfolding gave last
mem_alloc-Taken r h size d h' e =
    let k = mem_alloc-Parts r h size d h' e in
    let n =
      subst (λ g. Lent (behind k.i h.lists) g) k.gave_it
        (buddy_malloc-Lent d.size (behind k.i h.lists) h.global h.locked) in
    let (l, rest, cons) = n.0 in
    let same =
      subst (λ g. SameLength (behind k.i h.lists) g) k.gave_it
        (buddy_malloc-SameLength d.size (behind k.i h.lists) h.global h.locked) in
    subst (λ (u : Heap). Taken h u d) (sym k.heap)
      (record {
        i = k.i;
        index = k.index;
        small = behind-lt k.i h.lists l rest cons;
        lists = length-front k.i h.lists k.left.lists same;
        bytes = λ a. lent r h d.size k.i (size-index d.size k.i k.index) a d.buf k.left k.gave_it;
      })

-- A buffer that aurora_mem_alloc gives and aurora_mem_free takes back: each byte is free as often as it
-- was before.
pub mem_free-mem_alloc :
    (r : Region) (h : Heap) (size : ℕ) (d : Dma) (h' : Heap) (a : ℕ)
    → mem_alloc r h size ≡ alloced d h'
    → free_at (top 512 h.lists) a (mem_free r h' d) ≡ free_at (top 512 h.lists) a h
unfolding gave last
mem_free-mem_alloc r h size d h' a e =
    let k = mem_alloc-Parts r h size d h' e in
    let size_of = size-index d.size k.i k.index in
    let given_back =
      λ (u : Heap). free_at (top 512 h.lists) a (mem_free r u d) ≡ free_at (top 512 h.lists) a h in
    subst given_back (sym k.heap) (
      ap (free_at (top 512 h.lists) a) (mem_free-index r _ d k.i k.index)
      ∙ paid r h d.size k.i size_of a d.buf k.left k.gave_it)

-- The DMA address of a buffer that aurora_mem_alloc gives is the one that aurora_resolve_addr finds
-- for it, if all free bytes are in the I/O region.
pub mem_alloc-resolve :
    (r : Region) (h : Heap) (size : ℕ) (d : Dma) (h' : Heap)
    → ((a : ℕ) → 0 < free_at (top 512 h.lists) a h → (r.vemva ≤ a) × (a < r.vemva + max_size))
    → mem_alloc r h size ≡ alloced d h'
    → resolve_addr r d.buf ≡ some d.addr
unfolding resolve_addr gave last
mem_alloc-resolve r h size d h' region e =
    let k = mem_alloc-Parts r h size d h' e in
    let size_of = size-index d.size k.i k.index in
    let pos : 0 < d.size = omega (arith, size_of, pow-pos k.i) in
    let own : covers d.size d.buf d.buf ≡ 1 = ground (arith, pos) in
    let (low, high) =
      region d.buf (omega (arith, own, lent r h d.size k.i size_of d.buf d.buf k.left k.gave_it)) in
    let inside : (ltb d.buf r.vemva || ltb max_size (d.buf - r.vemva)) ≡ false =
      ground (arith, low, high) in
    rw inside (ap some (sym k.dma))
