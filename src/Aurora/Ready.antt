-- ===== src/Aurora/Ready.antt =====
-- The I/O region of src/aurora_pci.c from aurora_init on: what the threads of the program take from it.
use sxaurora_unvme.Base.{
  ◌≢◌, ne→==-false, ℕ, ◌+◌, ◌<◌, ◌≤◌, ◌≡◌, List, Bool, some, arith, refl, subst, sym,
}
use sxaurora_unvme.Core.Prps.{max_size}
use sxaurora_unvme.Session.Types.{returns}
use sxaurora_unvme.Session.Refs.{Returns, did, of_Returns, then_do-Returns}
use sxaurora_unvme.Buddy.Memory.{Dma, entry_max}
use sxaurora_unvme.Buddy.Init.{within}
use sxaurora_unvme.Buddy.Owned.{held, Sized}
use sxaurora_unvme.Buddy.Threads.{Shared}
use sxaurora_unvme.Buddy.Shared.{shared_free, IsShared}
use sxaurora_unvme.Buddy.Runs.{Runs, Resolves, Runs-Kept}
use sxaurora_unvme.Buddy.Start.{Started, shared_init-Started}
use sxaurora_unvme.Aurora.{
  minus_one, Aurora, region_of, vhsa_release, Done, InitInput, Registration, map_region,
  register_region, start_heap, aurora_init,
}

-- What the threads find, and what stays so: each byte of the region is free once or in one of the
-- buffers, no other byte is either, each thread has lists of its own, the DMA address of each buffer is
-- what aurora_resolve_addr finds for it, and its size is one of the allocator's.
pub record Loans (a : Aurora) (s : Shared) (ds : List Dma) : Type 0 where
  pub bytes : (b : ℕ) → shared_free b s + held b ds ≡ within a.vemva max_size b
  pub shared : IsShared s
  pub resolved : Resolves (region_of a) ds
  pub sized : Sized entry_max ds

pub Started-Loans :
    (a : Aurora)
    → Started a.vemva max_size a.heap
    → (s : Shared) (ds : List Dma) → Runs (region_of a) a.heap s ds
    → Loans a s ds
Started-Loans a st s ds runs =
    let region : (b : ℕ) → 0 < shared_free b a.heap → (a.vemva ≤ b) × (b < a.vemva + max_size) =
      λ b free. let w = st.bytes b in ground (arith, free, w) in
    let k = Runs-Kept (region_of a) a.heap region st.shared runs in
    record {
      bytes = λ b. omega (arith, k.bytes b, st.bytes b);
      shared = k.shared;
      resolved = k.resolved;
      sized = k.sized;
    }

-- The call returns 1, with the region as it is mapped and registered, and free.
pub record Serves (i : InitInput) (d : Done) : Type 0 where
  pub one : d.ret ≡ 1
  pub at : d.state.vemva ≡ i.mapped
  pub dma : d.state.pci_vhsaa ≡ i.vhsaa
  pub started : Started d.state.vemva max_size d.state.heap

start_heap-Serves :
    (i : InitInput) (a : Aurora)
    → a.vemva ≡ i.mapped
    → a.pci_vhsaa ≡ i.vhsaa
    → IsShared a.heap
    → Returns (Serves i) (start_heap a)
unfolding start_heap
start_heap-Serves i a at dma k =
    let (h, e, st) = shared_init-Started a.vemva max_size a.heap refl k in
    rw (start_heap, e) (did _ (record { one = refl; at = at; dma = dma; started = st }))

vhsa_release-heap :
    (ok : Registration → Bool) (a : Aurora) (lines : List Registration)
    → a.file ≡ some lines
    → Returns (λ (b : Aurora). b.heap ≡ a.heap) (vhsa_release ok a)
unfolding vhsa_release
vhsa_release-heap ok a lines there = rw (vhsa_release, there) (did _ refl)

pub aurora_init-Serves :
    (i : InitInput) (a : Aurora) (lines : List Registration)
    → IsShared a.heap
    → a.file ≡ some lines
    → i.mapped ≢ 0
    → i.vhsaa ≢ minus_one
    → Returns (Serves i) (aurora_init i a)
unfolding aurora_init map_region register_region
aurora_init-Serves i a lines k there mapped made =
    then_do-Returns _ _ _ _ (vhsa_release-heap i.ok a lines there) (λ b same.
      rw (ne→==-false i.mapped 0 mapped, ne→==-false i.vhsaa minus_one made)
        (start_heap-Serves i _ refl refl (subst IsShared (sym same) k)))

-- With the allocator's lock free and each thread with lists of its own, the file there, and the
-- region mapped and registered: what aurora_init returns is 1; and from then on, in any run of
-- aurora_mem_alloc and aurora_mem_free by up to 16 threads, of buffers that one of them has: each
-- byte of the region is free once or in one of the buffers, and not both, and no other byte is;
-- no two threads share a list; and aurora_resolve_addr finds the DMA address of each buffer.
pub aurora_init-Loans :
    (i : InitInput) (a : Aurora) (lines : List Registration) (d : Done) (s : Shared) (ds : List Dma)
    → IsShared a.heap
    → a.file ≡ some lines
    → i.mapped ≢ 0
    → i.vhsaa ≢ minus_one
    → aurora_init i a ≡ returns d
    → Runs (region_of d.state) d.state.heap s ds
    → (d.ret ≡ 1) × Loans d.state s ds
aurora_init-Loans i a lines d s ds k there mapped made e runs =
    let n =
      of_Returns (Serves i) d
        (subst (Returns (Serves i)) e (aurora_init-Serves i a lines k there mapped made)) in
    (n.one, Started-Loans d.state n.started s ds runs)
