-- ===== src/Buddy/Init.antt =====
-- buddy_init of src/aurora_pci.c: at the start, each byte of the region is free once.
use sxaurora_unvme.Base.{
  ℕ, zero, suc, ◌+◌, ◌*◌, ◌/◌, ◌%◌, ◌≡◌, [], Bool, ◌&&◌, some, ltb, leb, if◌then◌else◌, arith, refl,
  replicate, ap, eq→==,
}
use sxaurora_unvme.Buddy.{Heap}
use sxaurora_unvme.Buddy.Cover.{cover, cover_list}
use sxaurora_unvme.Buddy.Memory.{maxbytes, blocks, entry_max, buddy_init}
use sxaurora_unvme.Buddy.Behind.{free_at}

-- 1 in the region of `size` bytes from `addr` on, and else 0
abbrev pub within : (addr size a : ℕ) → ℕ
within addr size a = if leb addr a && ltb a (addr + size) then 1 else 0

pub blocks-cover :
    (n addr a : ℕ) → cover_list maxbytes a (blocks n addr) ≡ within addr (n * maxbytes) a
unfolding blocks
blocks-cover zero addr a = ground arith
blocks-cover (suc n) addr a = ground (arith, blocks-cover n (addr + maxbytes) a)

pub nothing : (n size a : ℕ) → cover size a (replicate n []) ≡ 0
nothing zero size a = refl
nothing (suc n) size a = omega (arith, nothing n (2 * size) a)

-- buddy_init of a region whose size is a multiple of the largest block makes each byte of the region
-- free once, and no other.
pub buddy_init-within :
    (addr size a : ℕ) (locked : Bool)
    → size % maxbytes ≡ 0
    → (h : Heap) × (buddy_init addr size locked ≡ some h)
      × (free_at maxbytes a h ≡ within addr size a)
unfolding buddy_init free_at
buddy_init-within addr size a locked whole =
    let all : size / maxbytes * maxbytes ≡ size = omega arith in
    let h : Heap = record {
      lists = replicate entry_max [];
      global = blocks (size / maxbytes) addr;
      locked = locked;
    } in
    (
      h,
      rw (eq→== _ 0 whole) refl,
      omega (
        arith,
        nothing entry_max 512 a,
        blocks-cover (size / maxbytes) addr a,
        ap (λ (n : ℕ). within addr n a) all,
      ),
    )
