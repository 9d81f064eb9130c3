-- ===== src/Buddy/Owned.antt =====
-- The allocator of src/aurora_pci.c over a run of aurora_mem_alloc and aurora_mem_free: no two
-- buffers share a byte.
use sxaurora_unvme.Base.{
  ℕ, suc, ◌+◌, ◌*◌, ◌<◌, ◌≡◌, List, [], ◌∷◌, ◌++◌, some, arith, refl, length, ap, sym, subst, ◌∙◌,
  replicate, inl, inr, ◌%◌, Option-cases, false, eq→==, ◌/◌,
}
use sxaurora_unvme.Core.Prps.{Region}
use sxaurora_unvme.Buddy.{Heap, front, behind, walk, not_last, buddy_free}
use sxaurora_unvme.Buddy.Cover.{covers, cover, top, buddy_free-cover}
use sxaurora_unvme.Buddy.Memory.{
  blocks, maxbytes, entry_max, get_index_from_size, Dma, alloced, mem_alloc, mem_free, buddy_init,
}
use sxaurora_unvme.Buddy.Behind.{free_at, length-front, lt-behind, cover-front}
use sxaurora_unvme.Buddy.Loan.{Taken, size-index, mem_alloc-Taken, mem_free-index}
use sxaurora_unvme.Buddy.Init.{within, buddy_init-within}

-- A run of one thread: the heap, and the buffers that it has.
pub data Reached (r : Region) (start : Heap) : Heap → List Dma → Type 0 where
  begin : Reached r start start []
  alloc :
      (h h' : Heap) (ds : List Dma) (size : ℕ) (d : Dma)
      → Reached r start h ds
      → mem_alloc r h size ≡ alloced d h'
      → Reached r start h' (d ∷ ds)
  free :
      (h : Heap) (before after all : List Dma) (d : Dma)
      → Reached r start h all
      → all ≡ before ++ d ∷ after
      → Reached r start (mem_free r h d) (before ++ after)

-- How many of the buffers have the byte at `a`.
abbrev pub held : (a : ℕ) → List Dma → ℕ
held a [] = 0
held a (d ∷ ds) = covers d.size a d.buf + held a ds

-- Each buffer's size has a list.
abbrev pub Sized : (n : ℕ) → List Dma → Type 0
Sized n [] = Unit {0}
Sized n (d ∷ ds) = ((i : ℕ) × (get_index_from_size d.size ≡ some i) × (i < n)) × Sized n ds

pub held-append : (a : ℕ) (xs ys : List Dma) → held a (xs ++ ys) ≡ held a xs + held a ys
held-append a [] ys = omega arith
held-append a (x ∷ xs) ys = omega (arith, held-append a xs ys)

pub Sized-middle :
    (n : ℕ) (xs ys : List Dma) (d : Dma) → Sized n (xs ++ d ∷ ys) → Sized n (xs ++ ys)
Sized-middle n [] ys d s = s.1
Sized-middle n (x ∷ xs) ys d s = (s.0, Sized-middle n xs ys d s.1)

pub Sized-at :
    (n : ℕ) (xs ys : List Dma) (d : Dma)
    → Sized n (xs ++ d ∷ ys)
    → (i : ℕ) × (get_index_from_size d.size ≡ some i) × (i < n)
Sized-at n [] ys d s = s.0
Sized-at n (x ∷ xs) ys d s = Sized-at n xs ys d s.1

length-buddy_free :
    (start size buf : ℕ) (ls : List (List ℕ)) → length (buddy_free start size buf ls) ≡ length ls
unfolding buddy_free
length-buddy_free start size buf [] = refl
length-buddy_free start size buf (l ∷ ls) =
    elim (Option-cases (walk start size (not_last ls) buf l).joined) [
      | inl alone ↦ rw (length, buddy_free, alone) refl
      | inr (p, joined) ↦
          rw (length, buddy_free, joined) (ap suc (length-buddy_free start (2 * size) p ls))
    ]

-- aurora_mem_free of a buffer whose size has a list: its bytes are free once more.
module _ (r : Region) (h : Heap) (d : Dma) (i : ℕ) (index : get_index_from_size d.size ≡ some i)
    (small : i < length h.lists) where
  pub freed-length : length (mem_free r h d).lists ≡ length h.lists
  freed-length =
      ap (λ (u : Heap). length u.lists) (mem_free-index r h d i index)
      ∙ length-front i h.lists _ (length-buddy_free r.vemva d.size d.buf (behind i h.lists))

  pub freed_bytes :
      (last a : ℕ) → free_at last a (mem_free r h d) ≡ free_at last a h + covers d.size a d.buf
  unfolding free_at
  freed_bytes last a =
      let (l, rest, cons) = lt-behind i h.lists small in
      let size_of = size-index d.size i index in
      let back = buddy_free r.vemva d.size d.buf (behind i h.lists) in
      let f =
        subst
          (λ ms.
            cover d.size a (buddy_free r.vemva d.size d.buf ms)
            ≡ cover d.size a ms + covers d.size a d.buf)
          (sym cons) (buddy_free-cover r.vemva d.size d.buf a l rest) in
      let c =
        subst
          (λ u.
            cover 512 a (front i h.lists ++ back) + cover u a (behind i h.lists)
            ≡ cover 512 a h.lists + cover u a back)
          (sym size_of) (cover-front i 512 a h.lists back l rest cons) in
      rw (mem_free-index r h d i index) (omega (arith, f, c))

pub top-length : (s : ℕ) (ls ms : List (List ℕ)) → length ls ≡ length ms → top s ls ≡ top s ms
top-length s [] [] e = refl
top-length s [] (m ∷ ms) e = absurd (omega arith)
top-length s (l ∷ ls) [] e = absurd (omega arith)
top-length s (l ∷ []) (m ∷ []) e = refl
top-length s (l ∷ []) (m ∷ m' ∷ ms) e = absurd (omega arith)
top-length s (l ∷ l' ∷ ls) (m ∷ []) e = absurd (omega arith)
top-length s (l ∷ l' ∷ ls) (m ∷ m' ∷ ms) e = top-length (2 * s) (l' ∷ ls) (m' ∷ ms) (omega arith)

-- What a run keeps: the number of lists, sizes that have a list, and each byte.
record Kept (start h : Heap) (ds : List Dma) : Type 0 where
  lists : length h.lists ≡ length start.lists
  sized : Sized (length start.lists) ds
  bytes :
      (a : ℕ)
      → free_at (top 512 start.lists) a h + held a ds ≡ free_at (top 512 start.lists) a start

module _ (r : Region) (start : Heap) where
  alloc-Kept :
      (h h' : Heap) (ds : List Dma) (d : Dma)
      → Kept start h ds
      → Taken h h' d
      → Kept start h' (d ∷ ds)
  alloc-Kept h h' ds d k t =
      let tops = top-length 512 h.lists start.lists k.lists in
      record {
        lists = t.lists ∙ k.lists;
        sized = ((t.i, t.index, omega (arith, t.small, k.lists)), k.sized);
        bytes = λ a.
            let b =
              subst (λ u. free_at u a h' + covers d.size a d.buf ≡ free_at u a h) tops
                (t.bytes a) in
            omega (arith, b, k.bytes a);
      }

  free-Kept :
      (h : Heap) (before after : List Dma) (d : Dma)
      → Kept start h (before ++ d ∷ after)
      → Kept start (mem_free r h d) (before ++ after)
  free-Kept h before after d k =
      let (i, index, small) = Sized-at (length start.lists) before after d k.sized in
      let small' : i < length h.lists = omega (arith, small, k.lists) in
      record {
        lists = freed-length r h d i index small' ∙ k.lists;
        sized = Sized-middle (length start.lists) before after d k.sized;
        bytes = λ a. omega (
          arith,
          freed_bytes r h d i index small' (top 512 start.lists) a,
          k.bytes a,
          held-append a before (d ∷ after),
          held-append a before after,
        );
      }

  Reached-Kept : {h : Heap} {ds : List Dma} → Reached r start h ds → Kept start h ds
  Reached-Kept begin = record { lists = refl; sized = tt; bytes = λ a. omega arith }
  Reached-Kept (alloc h h' ds size d reached e) =
      alloc-Kept h h' ds d (Reached-Kept reached) (mem_alloc-Taken r h size d h' e)
  Reached-Kept (free h before after all d reached e) =
      free-Kept h before after d (subst (Kept start h) e (Reached-Kept reached))

top-buddy_init :
    (addr size : ℕ) (h : Heap)
    → size % maxbytes ≡ 0
    → buddy_init addr size false ≡ some h
    → top 512 h.lists ≡ maxbytes
unfolding buddy_init entry_max
top-buddy_init addr size h whole e =
    let made : Heap = record {
      lists = replicate entry_max [];
      global = blocks (size / maxbytes) addr;
      locked = false;
    } in
    let k : buddy_init addr size false ≡ some made = rw (eq→== _ 0 whole) refl in
    let same : made ≡ h = cc in subst (λ (u : Heap). top 512 u.lists ≡ maxbytes) same refl

-- From buddy_init of a region on, in any run of aurora_mem_alloc and aurora_mem_free of buffers that it
-- has, each byte of the region is free once or in one of the buffers, and not both, and no other byte
-- is free or in a buffer.
pub Reached-within :
    (r : Region) (addr size : ℕ) (start h : Heap) (ds : List Dma) (a : ℕ)
    → size % maxbytes ≡ 0
    → buddy_init addr size false ≡ some start
    → Reached r start h ds
    → free_at maxbytes a h + held a ds ≡ within addr size a
Reached-within r addr size start h ds a whole e reached =
    let (s, e', w) = buddy_init-within addr size a false whole in
    let same : s ≡ start = cc in
    let k = Reached-Kept r start reached in
    let tops : top 512 start.lists ≡ maxbytes = top-buddy_init addr size start whole e in
    let b = subst (λ u. free_at u a h + held a ds ≡ free_at u a start) tops (k.bytes a) in
    b ∙ ap (free_at maxbytes a) (sym same) ∙ w
