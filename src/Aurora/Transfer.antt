-- ===== src/Aurora/Transfer.antt =====
-- A read or write of src/unvme.c into a buffer that aurora_mem_alloc, in src/aurora_pci.c, has given.
use sxaurora_unvme.Base.{
  ℕ, ◌+◌, ◌-◌, ◌*◌, ◌^◌, ◌<◌, ◌≤◌, ◌≡◌, ◌≢◌, List, [], ◌∷◌, ◌++◌, some, pos, ltb, arith,
}
use sxaurora_unvme.Base.Bits.{pow-pos}
use sxaurora_unvme.Ring.Shape.{has, Distinct}
use sxaurora_unvme.Nvme.Types.{CqEntry}
use sxaurora_unvme.Core.State.{Io, ok}
use sxaurora_unvme.Core.Prps.{Namespace, max_size}
use sxaurora_unvme.Core.Submit.{unvme_timeout}
use sxaurora_unvme.Core.Invariant.{IsQueue}
use sxaurora_unvme.Core.Keep.Chunks.{Inside}
use sxaurora_unvme.Core.Keep.Serve.{Serving}
use sxaurora_unvme.Session.Types.{returns}
use sxaurora_unvme.Session.Ready.{Ready}
use sxaurora_unvme.Buddy.Cover.{covers}
use sxaurora_unvme.Buddy.Memory.{Dma, entry_max}
use sxaurora_unvme.Buddy.Init.{within}
use sxaurora_unvme.Buddy.Loan.{size-index}
use sxaurora_unvme.Buddy.Owned.{held-append, Sized-at}
use sxaurora_unvme.Buddy.Threads.{Shared}
use sxaurora_unvme.Buddy.Shared.{IsShared}
use sxaurora_unvme.Buddy.Runs.{Runs}
use sxaurora_unvme.Api.{read, write}
use sxaurora_unvme.Api.First.{first-Answered}
use sxaurora_unvme.Aurora.{minus_one, Registration, Aurora, region_of, Done, InitInput, aurora_init}
use sxaurora_unvme.Aurora.Ready.{Loans, aurora_init-Loans}

module _ (a : Aurora) (s : Shared) (before after : List Dma) (d : Dma)
    (loans : Loans a s (before ++ d ∷ after)) where
  -- The bytes of a buffer are in the region.
  pub byte-within :
      (b : ℕ) → d.buf ≤ b → b < d.buf + d.size → (a.vemva ≤ b) × (b < a.vemva + max_size)
  byte-within b low high =
      let own : covers d.size b d.buf ≡ 1 = ground (arith, low, high) in
      let some_one : 0 < within a.vemva max_size b =
        omega (arith, own, loans.bytes b, held-append b before (d ∷ after)) in
      ground (arith, some_one)

  pub size-pos : 0 < d.size
  size-pos =
      let (i, index, small) = Sized-at entry_max before after d loans.sized in
      omega (arith, size-index d.size i index, pow-pos i)

  -- A transfer of at most the buffer's size lies in the region.
  buffer-Inside :
      (ns : Namespace) (nlb : ℕ)
      → nlb * 2 ^ ns.blockshift ≤ d.size
      → a.pci_vhsaa + max_size < 2 ^ 64 - 1
      → Inside (region_of a) ns d.buf nlb
  buffer-Inside ns nlb fit top =
      let first = byte-within d.buf (omega arith) (omega (arith, size-pos)) in
      let last =
        byte-within (d.buf + d.size - 1) (omega (arith, size-pos)) (omega (arith, size-pos)) in
      record { above = first.0; below = omega (arith, last.1, fit, size-pos); region = top }

-- From aurora_init to the end of a transfer.
module _ (i : InitInput) (a : Aurora) (lines : List Registration) (d : Done) (s : Shared)
    (before after : List Dma) (buf : Dma) (threads : IsShared a.heap) (there : a.file ≡ some lines)
    (mapped : i.mapped ≢ 0) (made : i.vhsaa ≢ minus_one) (init : aurora_init i a ≡ returns d)
    (runs : Runs (region_of d.state) d.state.heap s (before ++ buf ∷ after))
    (top : d.state.pci_vhsaa + max_size < 2 ^ 64 - 1) where
  -- If aurora_init, called with the allocator's lock free and lists for each thread, and the file
  -- there, has mapped and registered the region, below the end of the device's addresses, and a
  -- thread has a buffer from aurora_mem_alloc: unvme_read and unvme_write of at most that buffer,
  -- on a new queue of 256 entries and with m commands, fewer than 256, return 0, and all
  -- descriptors are free again, if the device completes the ids 0 to m - 1, once each and in any
  -- order, without an error and in time.
  pub buffer-Answered :
      (ns : Namespace) (io : Io) (id p : ℕ) (ps : List ℕ)
      → Ready id 256 (p ∷ ps) io.queue
      → (fresh qid slba nlb m : ℕ) → fresh ≢ 0
      → 0 < ns.maxbpio
      → nlb * 2 ^ ns.blockshift ≤ buf.size
      → m < 256
      → nlb ≤ m * ns.maxbpio
      → m * ns.maxbpio < nlb + ns.maxbpio
      → (entries : ℕ → CqEntry) (ids : List ℕ) → Distinct ids
      → ((j : ℕ) → has j ids ≡ ltb j m)
      → Serving 256 entries unvme_timeout io.rdtsec 0 0 ids io.polls
      → ((u : Io) × (read (region_of d.state) ns fresh qid buf.buf slba nlb io ≡ ok (pos 0) u)
          × IsQueue u.queue [] (ps ++ p ∷ []))
        × ((u : Io) × (write (region_of d.state) ns fresh qid buf.buf slba nlb io ≡ ok (pos 0) u)
            × IsQueue u.queue [] (ps ++ p ∷ []))
  buffer-Answered ns io id p ps ready fresh qid slba nlb m live positive fit small enough least
        entries ids once exact device =
      let loans =
        (aurora_init-Loans i a lines d s (before ++ buf ∷ after) threads there mapped made init
          runs).1 in
      first-Answered (region_of d.state) ns io id p ps ready fresh qid buf.buf slba nlb m live
        positive (buffer-Inside d.state s before after buf loans ns nlb fit top) small enough least
        entries ids once exact device
