-- ===== src/Buddy/Tests.antt =====
-- The allocator of src/aurora_pci.c with two sizes, 512 and 1024, and one block of 1024.
use sxaurora_unvme.Base.{ℕ, ◌≡◌, List, [], ◌∷◌, false, some, refl}
use sxaurora_unvme.Core.Prps.{Region}
use sxaurora_unvme.Buddy.Memory.{Dma, alloced, mem_alloc}
use sxaurora_unvme.Buddy.{Heap, got, buddy_malloc, buddy_free}

abbrev no_blocks : List (List ℕ)
no_blocks = [] ∷ [] ∷ []

-- An allocation of 512 bytes splits the block.
split :
    buddy_malloc 512 no_blocks (4096 ∷ []) false
    ≡ got (some 4096) (record { lists = (4608 ∷ []) ∷ [] ∷ []; global = []; locked = false })
unfolding buddy_malloc
split = refl

-- Freeing it puts the halves together.
joined : buddy_free 4096 512 4096 ((4608 ∷ []) ∷ [] ∷ []) ≡ [] ∷ (4096 ∷ []) ∷ []
unfolding buddy_free
joined = refl

abbrev region0 : Region
region0 = record { vemva = 4096; pci_vhsaa = 0x80000 }

-- Of 4096 bytes, the smallest that aurora_mem_alloc asks for, from a heap with four sizes.
abbrev free4 : Heap
free4 = record { lists = [] ∷ [] ∷ [] ∷ [] ∷ []; global = 8192 ∷ []; locked = false }

abbrev dma4 : Dma
dma4 = record { buf = 8192; size = 4096; addr = 0x81000 }

abbrev left4 : Heap
left4 = record { lists = [] ∷ [] ∷ [] ∷ [] ∷ []; global = []; locked = false }

gives4 : mem_alloc region0 free4 100 ≡ alloced dma4 left4
unfolding mem_alloc
gives4 = refl
