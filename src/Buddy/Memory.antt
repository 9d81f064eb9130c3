-- ===== src/Buddy/Memory.antt =====
-- The rest of the allocator in src/aurora_pci.c: get_index_from_size, buddy_init, get_freelist,
-- aurora_mem_alloc and aurora_mem_free; and what src/unvme_vfio.c and src/unvme_core.c make of them.
use sxaurora_unvme.Base.{
  ℕ, zero, suc, ◌+◌, ◌-◌, ◌*◌, ◌/◌, ◌%◌, ◌^◌, List, [], ◌∷◌, ◌++◌, Bool, Option, none, some, ◌==◌,
  ltb, leb, if◌then◌else◌, replicate,
}
use sxaurora_unvme.Core.Prps.{Region}
use sxaurora_unvme.Buddy.{Heap, Got, spins, got, front, behind, buddy_malloc, buddy_free}

-- The largest block, `maxbytes`
abbrev pub maxbytes : ℕ
maxbytes = 2 ^ 21

-- `for (i = 512; i <= maxbytes; i *= 2) { if (i == size) return r; r++; }`; none stands for -1. Past
-- 13 rounds `i` is greater than `maxbytes`.
unfoldable pub index_loop : (rounds i r size : ℕ) → Option ℕ
index_loop zero i r size = none
index_loop (suc n) i r size =
    let rest = index_loop n (i * 2) (r + 1) size in
    if leb i maxbytes then (if i == size then some r else rest) else none

-- get_index_from_size(size)
unfoldable pub get_index_from_size : (size : ℕ) → Option ℕ
unfolding index_loop
get_index_from_size size = index_loop 14 512 0 size

-- `for (i = 512; i <= maxbytes; i *= 2) entry_max++;`
unfoldable pub count_entries : (rounds i entries : ℕ) → ℕ
count_entries zero i entries = entries
count_entries (suc n) i entries =
    let rest = count_entries n (i * 2) (entries + 1) in if leb i maxbytes then rest else entries

unfoldable pub entry_max : ℕ
unfolding count_entries
entry_max = count_entries 14 512 0

-- `for (offset = 0; offset < size; offset += maxbytes)`, `n` blocks from `addr` on
unfoldable pub blocks : (n addr : ℕ) → List ℕ
blocks zero addr = []
blocks (suc n) addr = addr ∷ blocks n (addr + maxbytes)

-- buddy_init(addr, size), and the lists of a thread that get_freelist sets up; none where the size is
-- not a multiple of the largest block, for which the assertion fails. It leaves `lock` as it is.
unfoldable pub buddy_init : (addr size : ℕ) → (locked : Bool) → Option Heap
unfolding entry_max blocks
buddy_init addr size locked =
    if size % maxbytes == 0
    then some (record {
      lists = replicate entry_max [];
      global = blocks (size / maxbytes) addr;
      locked = locked;
    })
    else none

-- get_freelist(): the thread's index, where it has one, or the next; none where all 16 are taken and
-- it aborts.
unfoldable pub get_freelist :
    (freelist_index : Option ℕ) → (current : ℕ) → record { freelist_index : Option ℕ; current : ℕ }
get_freelist (some i) current = record { freelist_index = some i; current = current }
get_freelist none current = record {
  freelist_index = if leb 16 current then none else some current;
  current = current + 1;
}

-- `vfio_dma_t`
pub record Dma : Type 0 where
  pub buf : ℕ
  pub size : ℕ
  pub addr : ℕ

-- `while (tsize < size) tsize *= 2` on 64 bits; none past the fuel
unfoldable pub round_loop : (rounds tsize size : ℕ) → Option ℕ
round_loop zero tsize size = none
round_loop (suc n) tsize size =
    let rest = round_loop n (tsize * 2 % 2 ^ 64) size in if ltb tsize size then rest else some tsize

-- The size that aurora_mem_alloc asks for. After 52 doublings `tsize` is 0 and stays 0, so that what
-- has not ended by then never does.
unfoldable pub round_size : (size : ℕ) → Option ℕ
unfolding round_loop
round_size size = round_loop 53 4096 size

-- How aurora_mem_alloc ends: it waits for the lock for ever; it doubles for ever; it prints that
-- memory is exhausted and aborts; or it gives a buffer.
pub data Alloced : Type 0 where
  waits : Alloced
  doubles : Alloced
  exhausted : Alloced
  alloced : Dma → Heap → Alloced

-- What buddy_malloc gives, where it works on the lists behind the first `i`.
unfoldable pub given : Region → Heap → (i tsize : ℕ) → Got → Alloced
unfolding front
given r h i tsize spins = waits
given r h i tsize (got none h') = exhausted
given r h i tsize (got (some p) h') =
    alloced (record { buf = p; size = tsize; addr = (r.pci_vhsaa + (p - r.vemva)) % 2 ^ 64 })
      (record h' { lists = front i h.lists ++ h'.lists })

-- aurora_mem_alloc(buf, size)
unfoldable pub mem_alloc : Region → Heap → (size : ℕ) → Alloced
unfolding round_size get_index_from_size behind buddy_malloc given
mem_alloc r h size = elim (round_size size) [
  | none ↦ doubles
  | some t ↦ elim (get_index_from_size t) [
    | none ↦ exhausted
    | some i ↦ given r h i t (buddy_malloc t (behind i h.lists) h.global h.locked)
  ]
]

-- aurora_mem_free(dma)
unfoldable pub mem_free : Region → Heap → Dma → Heap
unfolding get_index_from_size front behind buddy_free
mem_free r h d = elim (get_index_from_size d.size) [
  | none ↦ h
  | some i ↦ record h {
    lists = front i h.lists ++ buddy_free r.vemva d.size d.buf (behind i h.lists);
  }
]

-- vfio_dma_alloc(dev, size) and unvme_do_alloc(ns, size): the structure itself comes from malloc; the
-- first of them clears `size` bytes of the buffer.
unfoldable pub vfio_dma_alloc : Region → Heap → (size : ℕ) → Alloced
unfolding mem_alloc
vfio_dma_alloc r h size = mem_alloc r h size

unfoldable pub do_alloc : Region → Heap → (size : ℕ) → Alloced
unfolding mem_alloc
do_alloc r h size = mem_alloc r h size

-- vfio_dma_free(dma) and unvme_do_free(ns, dma)
unfoldable pub vfio_dma_free : Region → Heap → Dma → Heap
unfolding mem_free
vfio_dma_free r h d = mem_free r h d

unfoldable pub do_free : Region → Heap → Dma → Heap
unfolding mem_free
do_free r h d = mem_free r h d

-- unvme_do_alloc2(ns, dma, size) and unvme_do_free2(ns, dma): the structure is the caller's.
unfoldable pub do_alloc2 : Region → Heap → (size : ℕ) → Alloced
unfolding mem_alloc
do_alloc2 r h size = mem_alloc r h size

unfoldable pub do_free2 : Region → Heap → Dma → Heap
unfolding mem_free
do_free2 r h d = mem_free r h d
