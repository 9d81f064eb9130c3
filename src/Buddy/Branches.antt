-- ===== src/Buddy/Branches.antt =====
-- aurora_mem_alloc of src/aurora_pci.c in a thread, on every branch: it ends.
use sxaurora_unvme.Base.{
  ℕ, zero, dec_lt, ◌==◌, ==→eq, suc, ◌+◌, ◌*◌, ◌%◌, ◌^◌, ◌<◌, ◌≤◌, ◌≡◌, ◌⊎◌, inl, inr, [], none,
  some, ltb, leb, arith, refl, sym, subst, ◌∙◌, Bool-cases, Option-cases, le→ltb-false,
}
use sxaurora_unvme.Core.Prps.{Region}
use sxaurora_unvme.Buddy.{Heap, Got, behind, buddy_malloc}
use sxaurora_unvme.Buddy.Memory.{
  maxbytes, entry_max, get_index_from_size, index_loop, round_size, round_loop, Dma, given,
  mem_alloc,
}
use sxaurora_unvme.Buddy.Rounding.{round_size-least}
use sxaurora_unvme.Buddy.Behind.{lt-behind}
use sxaurora_unvme.Buddy.Ends.{Fine, gave, empty, buddy_malloc-Fine}
use sxaurora_unvme.Buddy.Threads.{
  Shared, heap_at, freelist_at, ThreadAlloced, out, no_list, gives, of_thread, thread_alloc,
}
use sxaurora_unvme.Buddy.Shared.{IsShared, Listed, Given, freelist_at-Listed, freelist_at-full}

-- A size that has a list.
abbrev HasList : ℕ → Type 0
HasList n = (i : ℕ) × (get_index_from_size n ≡ some i) × (i < entry_max)

-- One round of the doubling.
round_step :
    (n t size : ℕ)
    → HasList t
    → Given HasList (round_loop n (t * 2 % 2 ^ 64) size)
    → Given HasList (round_loop (suc n) t size)
unfolding round_loop
round_step n t size here next = elim (Bool-cases (ltb t size)) [
  | inl less ↦ rw (round_loop, less) next
  | inr enough ↦ rw (round_loop, enough) here
]

round_last : (n size : ℕ) → size ≤ maxbytes → Given HasList (round_loop (suc n) maxbytes size)
unfolding round_loop get_index_from_size entry_max
round_last n size small = rw (round_loop, le→ltb-false maxbytes size small) (12, refl, omega arith)

-- A request of at most the largest block is for a size that has a list.
round_size-HasList : (size : ℕ) → size ≤ maxbytes → Given HasList (round_size size)
unfolding round_size get_index_from_size entry_max
round_size-HasList size small =
    round_step 52 4096 size (3, refl, omega arith)
      (round_step 51 8192 size (4, refl, omega arith)
        (round_step 50 16384 size (5, refl, omega arith)
          (round_step 49 32768 size (6, refl, omega arith)
            (round_step 48 65536 size (7, refl, omega arith)
              (round_step 47 131072 size (8, refl, omega arith)
                (round_step 46 262144 size (9, refl, omega arith)
                  (round_step 45 524288 size (10, refl, omega arith)
                    (round_step 44 1048576 size (11, refl, omega arith)
                      (round_last 43 size small)))))))))

index_loop-small : (n i r size j : ℕ) → index_loop n i r size ≡ some j → size ≤ maxbytes
unfolding index_loop
index_loop-small zero i r size j e = ground arith
index_loop-small (suc n) i r size j e = elim (Bool-cases (leb i maxbytes)) [
  | inl low ↦ elim (Bool-cases (i == size)) [
    | inl here ↦ ground (arith, ==→eq i size here)
    | inr next ↦ index_loop-small n (i * 2) (r + 1) size j (ground arith)
  ]
  | inr high ↦ ground arith
]

index-small : (size i : ℕ) → get_index_from_size size ≡ some i → size ≤ maxbytes
unfolding get_index_from_size
index-small size i e = index_loop-small 14 512 0 size i e

-- How aurora_mem_alloc ends: with a buffer of at least the size asked for; out of memory, which is
-- that the global list is empty or the request above the largest block; or with all 16 indices
-- given out.
pub data Branch (s : Shared) (size : ℕ) : ThreadAlloced → Type 0 where
  served : (d : Dma) (s' : Shared) → size ≤ d.size → Branch s size (gives d s')
  failed : (s.free_list ≡ []) ⊎ (maxbytes < size) → Branch s size out
  crowded : 16 ≤ s.current → Branch s size no_list

given-Branch :
    (r : Region) (s s' : Shared) (h : Heap) (i k n size : ℕ) (g : Got)
    → Fine s'.free_list g
    → s'.free_list ≡ s.free_list
    → size ≤ n
    → Branch s size (of_thread s' k (given r h i n g))
unfolding given of_thread
given-Branch r s s' h i k n size _ (gave p h' free) same enough = served _ _ enough
given-Branch r s s' h i k n size _ (empty h' none_left) same enough =
    failed (inl (sym same ∙ none_left))

module _ (r : Region) (s : Shared) (t size n i : ℕ) (k : IsShared s)
    (rounded : round_size size ≡ some n) (enough : size ≤ n)
    (index : get_index_from_size n ≡ some i) (small : i < entry_max) where
  Listed-Branch :
      (g : record { index : ℕ; state : Shared })
      → Listed t s g
      → Branch s size (of_thread g.state g.index (mem_alloc r (heap_at g.state g.index) size))
  unfolding mem_alloc
  Listed-Branch g l =
      let h = heap_at g.state g.index in
      let (x, rest, cons) =
        lt-behind i h.lists (omega (arith, small, l.shared.used g.index l.small)) in
      let fine : Fine g.state.free_list
          (buddy_malloc n (behind i h.lists) g.state.free_list g.state.lock) =
        rw (cons, l.shared.quiet) (buddy_malloc-Fine n x rest g.state.free_list) in
      rw (mem_alloc, rounded, index)
        (given-Branch r s g.state h i g.index n size _ fine l.global enough)

  index-Branch : Branch s size (thread_alloc r s t size)
  unfolding thread_alloc
  index-Branch = elim (Option-cases (freelist_at t s)) [
    | inl full ↦ rw (thread_alloc, rounded, index, full) (crowded (freelist_at-full t s full))
    | inr (g, listed) ↦
        rw (thread_alloc, rounded, index, listed)
          (Listed-Branch g (subst (Given (Listed t s)) listed (freelist_at-Listed t s k)))
  ]

-- aurora_mem_alloc of at most 2 ^ 63 bytes, in a thread, while the lock is free and each thread
-- has lists of its own: it ends, with a buffer of at least the size asked for; or out of memory,
-- and then the global list is empty or the request above the largest block; or with all 16
-- indices given out.
pub thread_alloc-Branch :
    (r : Region) (s : Shared) (t size : ℕ)
    → IsShared s
    → size ≤ 2 ^ 63
    → Branch s size (thread_alloc r s t size)
unfolding thread_alloc
thread_alloc-Branch r s t size k small =
    let (n, rounded, enough, _) = round_size-least size small in
    elim (Option-cases (get_index_from_size n)) [
      | inl none_such ↦
          rw (thread_alloc, rounded, none_such) (failed (inr (too_large n rounded none_such)))
      | inr (i, index) ↦
          let least = index-small n i index in
          let (j, at, below) =
            subst (Given HasList) rounded
              (round_size-HasList size (omega (arith, enough, least))) in
          index-Branch r s t size n j k rounded enough at below
    ]
  where
    too_large : (n : ℕ) → round_size size ≡ some n → get_index_from_size n ≡ none → maxbytes < size
    too_large n rounded none_such = elim (dec_lt maxbytes size) [
      | yes large ↦ large
      | no fits ↦
          let (j, at, _) =
            subst (Given HasList) rounded (round_size-HasList size (omega (arith, fits))) in
          let bad = sym none_such ∙ at in ground (arith, bad)
    ]
