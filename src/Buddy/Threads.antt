-- ===== src/Buddy/Threads.antt =====
-- The allocator of src/aurora_pci.c under several threads: freelist_list, of which get_freelist gives
-- each thread an entry of its own, and the global list, which they share.
use sxaurora_unvme.Base.{ℕ, List, [], Bool, Option, none, some, ◌==◌, ltb, if◌then◌else◌, replicate}
use sxaurora_unvme.Core.Prps.{Region}
use sxaurora_unvme.Buddy.{Heap}
use sxaurora_unvme.Buddy.Memory.{
  entry_max, get_index_from_size, round_size, buddy_init, get_freelist, Dma, Alloced, waits,
  doubles, exhausted, alloced, mem_alloc, mem_free,
}

-- `freelist_list`, where a null pointer has no lists, with `global_freelist`, `lock`,
-- `freelist_current_index`, and the `freelist_index` of each thread, where it has one.
pub record Shared : Type 0 where
  pub lists_of : ℕ → List (List ℕ)
  pub free_list : List ℕ
  pub lock : Bool
  pub current : ℕ
  pub index_of : ℕ → Option ℕ

-- What the thread with index `i` sees, and the state with what it leaves.
abbrev pub heap_at : Shared → ℕ → Heap
heap_at s i = record { lists = s.lists_of i; global = s.free_list; locked = s.lock }

abbrev pub with_heap : Shared → ℕ → Heap → Shared
with_heap s i h = record s {
  lists_of = λ j. if j == i then h.lists else s.lists_of j;
  free_list = h.global;
  lock = h.locked;
}

-- buddy_init(addr, size): the lists that threads have already are emptied.
unfoldable pub shared_init : (addr size : ℕ) → Shared → Option Shared
shared_init addr size s = elim (buddy_init addr size s.lock) [
  | none ↦ none
  | some h ↦
      some
        (record s { lists_of = λ i. if ltb i s.current then h.lists else []; free_list = h.global })
]

-- get_freelist() in thread `t`: its index, and the state, with new lists where it had none; none where
-- it aborts.
unfoldable pub freelist_at : (t : ℕ) → Shared → Option (record { index : ℕ; state : Shared })
freelist_at t s =
    let g = get_freelist (s.index_of t) s.current in
    elim g.freelist_index [
      | none ↦ none
      | some i ↦ some (record {
        index = i;
        state = elim (s.index_of t) [
          | some j ↦ s
          | none ↦ record s {
            lists_of = λ j. if j == i then replicate entry_max [] else s.lists_of j;
            current = g.current;
            index_of = λ u. if u == t then some i else s.index_of u;
          }
        ];
      })
    ]

-- How aurora_mem_alloc ends in a thread: as in one thread, or it aborts in get_freelist.
pub data ThreadAlloced : Type 0 where
  stays : ThreadAlloced
  out : ThreadAlloced
  no_list : ThreadAlloced
  gives : Dma → Shared → ThreadAlloced

unfoldable pub of_thread : Shared → (i : ℕ) → Alloced → ThreadAlloced
of_thread s i waits = stays
of_thread s i doubles = stays
of_thread s i exhausted = out
of_thread s i (alloced d h) = gives d (with_heap s i h)

-- aurora_mem_alloc(buf, size) in thread `t`
unfoldable pub thread_alloc : Region → Shared → (t size : ℕ) → ThreadAlloced
thread_alloc r s t size = elim (round_size size) [
  | none ↦ stays
  | some n ↦ elim (get_index_from_size n) [
    | none ↦ out
    | some _ ↦ elim (freelist_at t s) [
      | none ↦ no_list
      | some g ↦ of_thread g.state g.index (mem_alloc r (heap_at g.state g.index) size)
    ]
  ]
]

-- aurora_mem_free(dma) in thread `t`, which need not be the one that has allocated it; none where it
-- aborts in get_freelist.
unfoldable pub thread_free : Region → Shared → (t : ℕ) → Dma → Option Shared
thread_free r s t d = elim (get_index_from_size d.size) [
  | none ↦ some s
  | some _ ↦ elim (freelist_at t s) [
    | none ↦ none
    | some g ↦ some (with_heap g.state g.index (mem_free r (heap_at g.state g.index) d))
  ]
]
