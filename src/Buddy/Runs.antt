-- ===== src/Buddy/Runs.antt =====
-- The allocator of src/aurora_pci.c in a run of several threads: no two buffers share a byte.
use sxaurora_unvme.Base.{
  ℕ, ◌+◌, ◌<◌, ◌≤◌, ◌≡◌, List, [], ◌∷◌, ◌++◌, ◌∙◌, some, arith, refl, length, sym, subst, replicate,
  inl, inr, Option-cases,
}
use sxaurora_unvme.Core.Prps.{Region, max_size, resolve_addr}
use sxaurora_unvme.Buddy.{Heap}
use sxaurora_unvme.Buddy.Cover.{covers, top}
use sxaurora_unvme.Buddy.Memory.{
  maxbytes, entry_max, get_index_from_size, round_size, Dma, Alloced, waits, doubles, exhausted,
  alloced, mem_alloc, mem_free,
}
use sxaurora_unvme.Buddy.Behind.{free_at}
use sxaurora_unvme.Buddy.Loan.{mem_alloc-Taken, mem_alloc-resolve}
use sxaurora_unvme.Buddy.Owned.{
  held, Sized, Sized-middle, Sized-at, held-append, freed-length, freed_bytes, top-length,
}
use sxaurora_unvme.Buddy.Threads.{
  Shared, heap_at, freelist_at, ThreadAlloced, stays, out, no_list, gives, of_thread, thread_alloc,
  thread_free,
}
use sxaurora_unvme.Buddy.Ends.{mem_alloc-locked, mem_free-locked}
use sxaurora_unvme.Buddy.Shared.{
  shared_free, IsShared, Listed, Given, free_with_heap, free_heap_at, with_heap-IsShared,
  freelist_at-Listed,
}

-- A run of the threads: the state, and the buffers that they have.
pub data Runs (r : Region) (start : Shared) : Shared → List Dma → Type 0 where
  begins : Runs r start start []
  allocs :
      (s s' : Shared) (ds : List Dma) (t size : ℕ) (d : Dma)
      → Runs r start s ds
      → thread_alloc r s t size ≡ gives d s'
      → Runs r start s' (d ∷ ds)
  frees :
      (s s' : Shared) (before after all : List Dma) (t : ℕ) (d : Dma)
      → Runs r start s all
      → all ≡ before ++ d ∷ after
      → thread_free r s t d ≡ some s'
      → Runs r start s' (before ++ after)

top-entry_max : (ls : List (List ℕ)) → length ls ≡ entry_max → top 512 ls ≡ maxbytes
unfolding entry_max
top-entry_max ls e = top-length 512 ls (replicate entry_max []) e

-- What aurora_mem_alloc does in thread `t`, if it gives a buffer.
record Took (r : Region) (s : Shared) (d : Dma) (s' : Shared) : Type 0 where
  shared : IsShared s'
  sized : (i : ℕ) × (get_index_from_size d.size ≡ some i) × (i < entry_max)
  bytes : (a : ℕ) → shared_free a s' + covers d.size a d.buf ≡ shared_free a s
  before : Heap
  after : Heap
  size : ℕ
  in_thread : mem_alloc r before size ≡ alloced d after
  freed : (a : ℕ) → free_at (top 512 before.lists) a before ≤ shared_free a s

abbrev Gives : (Dma → Shared → Type 0) → ThreadAlloced → Type 0
Gives P stays = Unit {0}
Gives P out = Unit {0}
Gives P no_list = Unit {0}
Gives P (gives d s) = P d s

of_thread-Took :
    (r : Region) (s s' : Shared) (i size : ℕ) (o : Alloced)
    → IsShared s'
    → ((a : ℕ) → shared_free a s' ≡ shared_free a s)
    → i < s'.current
    → mem_alloc r (heap_at s' i) size ≡ o
    → Gives (Took r s) (of_thread s' i o)
unfolding of_thread
of_thread-Took r s s' i size waits k same small e = tt
of_thread-Took r s s' i size doubles k same small e = tt
of_thread-Took r s s' i size exhausted k same small e = tt
of_thread-Took r s s' i size (alloced d h) k same small e =
    let t = mem_alloc-Taken r (heap_at s' i) size d h e in
    let n = k.used i small in
    let last = top-entry_max (s'.lists_of i) n in
    let taken : (a : ℕ)
        → free_at maxbytes a h + covers d.size a d.buf ≡ free_at maxbytes a (heap_at s' i) =
      λ a.
        subst (λ u. free_at u a h + covers d.size a d.buf ≡ free_at u a (heap_at s' i)) last
          (t.bytes a) in
    let low : i < 16 = omega (arith, k.few, small) in
    record {
      shared =
          with_heap-IsShared i s' h k small t.lists
            (mem_alloc-locked r (heap_at s' i) size d h k.quiet e);
      sized = (t.i, t.index, omega (arith, t.small, n));
      bytes = λ a. omega (arith, taken a, free_with_heap a i s' h low, same a);
      before = heap_at s' i;
      after = h;
      size = size;
      in_thread = e;
      freed = λ a.
          subst (λ u. free_at u a (heap_at s' i) ≤ shared_free a s) (sym last)
            (omega (arith, free_heap_at a i s' low, same a));
    }

thread_alloc-Took :
    (r : Region) (s : Shared) (t size : ℕ) → IsShared s → Gives (Took r s) (thread_alloc r s t size)
unfolding thread_alloc
thread_alloc-Took r s t size k = elim (Option-cases (round_size size)) [
  | inl over ↦ rw (thread_alloc, over) tt
  | inr (n, rounded) ↦ elim (Option-cases (get_index_from_size n)) [
    | inl none_such ↦ rw (thread_alloc, rounded, none_such) tt
    | inr (i, index) ↦ elim (Option-cases (freelist_at t s)) [
      | inl full ↦ rw (thread_alloc, rounded, index, full) tt
      | inr (g, listed) ↦
          let l = subst (Given (Listed t s)) listed (freelist_at-Listed t s k) in
          rw (thread_alloc, rounded, index, listed)
            (of_thread-Took r s g.state g.index size _ l.shared l.bytes l.small refl)
    ]
  ]
]

-- What aurora_mem_free does in thread `t`, if it returns.
record Gave (s : Shared) (d : Dma) (s' : Shared) : Type 0 where
  shared : IsShared s'
  bytes : (a : ℕ) → shared_free a s' ≡ shared_free a s + covers d.size a d.buf

thread_free-Gave :
    (r : Region) (s : Shared) (t i : ℕ) (d : Dma)
    → IsShared s
    → get_index_from_size d.size ≡ some i
    → i < entry_max
    → Given (Gave s d) (thread_free r s t d)
unfolding thread_free
thread_free-Gave r s t i d k index small = elim (Option-cases (freelist_at t s)) [
  | inl full ↦ rw (thread_free, index, full) tt
  | inr (g, listed) ↦
      let l = subst (Given (Listed t s)) listed (freelist_at-Listed t s k) in
      let h = heap_at g.state g.index in
      let few : g.index < 16 = omega (arith, l.small, l.shared.few) in
      let in_list : i < length h.lists = omega (arith, small, l.shared.used g.index l.small) in
      rw (thread_free, index, listed)
        (record {
          shared =
              with_heap-IsShared g.index g.state (mem_free r h d) l.shared l.small
                (freed-length r h d i index in_list)
                (mem_free-locked r h d i index ∙ l.shared.quiet);
          bytes = λ a. omega (
            arith,
            l.bytes a,
            free_with_heap a g.index g.state (mem_free r h d) few,
            freed_bytes r h d i index in_list maxbytes a,
          );
        })
]

-- aurora_resolve_addr finds the DMA address of each buffer.
abbrev pub Resolves : Region → List Dma → Type 0
Resolves r [] = Unit {0}
Resolves r (d ∷ ds) = (resolve_addr r d.buf ≡ some d.addr) × Resolves r ds

Resolves-middle :
    (r : Region) (xs ys : List Dma) (d : Dma) → Resolves r (xs ++ d ∷ ys) → Resolves r (xs ++ ys)
Resolves-middle r [] ys d s = s.1
Resolves-middle r (x ∷ xs) ys d s = (s.0, Resolves-middle r xs ys d s.1)

-- What a run keeps, from a state whose free bytes are in the region.
module _ (r : Region) (start : Shared)
    (region : (a : ℕ) → 0 < shared_free a start → (r.vemva ≤ a) × (a < r.vemva + max_size)) where
  pub record Kept (s : Shared) (ds : List Dma) : Type 0 where
    pub shared : IsShared s
    pub sized : Sized entry_max ds
    pub bytes : (a : ℕ) → shared_free a s + held a ds ≡ shared_free a start
    pub resolved : Resolves r ds

  alloc-Kept :
      (s s' : Shared) (ds : List Dma) (d : Dma) → Kept s ds → Took r s d s' → Kept s' (d ∷ ds)
  alloc-Kept s s' ds d k t = record {
    shared = t.shared;
    sized = (t.sized, k.sized);
    bytes = λ a. omega (arith, t.bytes a, k.bytes a);
    resolved = (
      mem_alloc-resolve r t.before t.size d t.after
          (λ a free. region a (omega (arith, free, t.freed a, k.bytes a))) t.in_thread,
      k.resolved,
    );
  }

  free-Kept :
      (s s' : Shared) (before after : List Dma) (d : Dma)
      → Kept s (before ++ d ∷ after)
      → Gave s d s'
      → Kept s' (before ++ after)
  free-Kept s s' before after d k g = record {
    shared = g.shared;
    sized = Sized-middle entry_max before after d k.sized;
    bytes = λ a.
        omega (
          arith,
          g.bytes a,
          k.bytes a,
          held-append a before (d ∷ after),
          held-append a before after,
        );
    resolved = Resolves-middle r before after d k.resolved;
  }

  pub Runs-Kept : {s : Shared} {ds : List Dma} → IsShared start → Runs r start s ds → Kept s ds
  Runs-Kept n begins = record { shared = n; sized = tt; bytes = λ a. omega arith; resolved = tt }
  Runs-Kept n (allocs s s' ds t size d runs e) =
      let k = Runs-Kept n runs in
      alloc-Kept s s' ds d k (subst (Gives (Took r s)) e (thread_alloc-Took r s t size k.shared))
  Runs-Kept n (frees s s' before after all t d runs e freed) =
      let k = subst (Kept s) e (Runs-Kept n runs) in
      let (i, index, small) = Sized-at entry_max before after d k.sized in
      free-Kept s s' before after d k
        (subst (Given (Gave s d)) freed (thread_free-Gave r s t i d k.shared index small))
