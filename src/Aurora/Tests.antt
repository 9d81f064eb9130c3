-- ===== src/Aurora/Tests.antt =====
-- A device on src/aurora_pci.c, with a file that an earlier run of the program has left.
use sxaurora_unvme.Base.{
  inl, ◌*◌, ◌+◌, ◌^◌, ◌≡◌, [], ◌∷◌, true, false, Option, some, none, arith, refl,
}
use sxaurora_unvme.Core.Prps.{max_size, resolve_addr}
use sxaurora_unvme.Session.Types.{Outcome, returns, aborts, exits, faults, hangs, then_do}
use sxaurora_unvme.Session.Refs.{Returns}
use sxaurora_unvme.Buddy.Memory.{buddy_init, get_freelist, mem_alloc, mem_free, Dma, entry_max}
use sxaurora_unvme.Buddy.Threads.{
  Shared, shared_init, freelist_at, of_thread, ThreadAlloced, stays, out, no_list, gives,
  thread_alloc, thread_free,
}
use sxaurora_unvme.Buddy.Shared.{IsShared}
use sxaurora_unvme.Buddy.Branches.{Branch, thread_alloc-Branch}
use sxaurora_unvme.Buddy.Runs.{Runs, begins, allocs, frees}
use sxaurora_unvme.Aurora.{
  vhsa_release, map_region, register_region, start_heap, Registration, register_mem, Aurora,
  region_of, Done, InitInput, aurora_init, aurora_map, vfio_create, vfio_delete,
}
use sxaurora_unvme.Aurora.Registered.{registered, IsLogged}
use sxaurora_unvme.Aurora.Ready.{Loans, aurora_init-Loans}
use sxaurora_unvme.Aurora.Second.{second-aborts}
use sxaurora_unvme.Aurora.Device.{vfio_delete-vfio_create}

-- At the start of the program: no thread has lists.
abbrev no_lists : Shared
no_lists = record {
  lists_of = λ i. [];
  free_list = [];
  lock = false;
  current = 0;
  index_of = λ t. none;
}

pub no_lists-IsShared : IsShared no_lists
no_lists-IsShared = record {
  few = omega arith;
  quiet = refl;
  used = λ i below. absurd (omega arith);
  unused = λ i above. refl;
  indexed = λ t i h. ground arith;
  apart = λ t u i h h'. ground arith;
}

abbrev pub left_over : Registration
left_over = record { vhsaa = 0x1000; size = max_size }

abbrev pub at_start : Aurora
at_start = record {
  vehva = 0;
  pci_vhsaa = 0;
  vemva = 0;
  heap = no_lists;
  file = some (left_over ∷ []);
  calls = register_mem left_over ∷ [];
}

abbrev pub answers : InitInput
answers = record { mapped = 2 ^ 30; vhsaa = 0x80000; ok = λ g. true }

vfio_delete-vfio_create_example :
    Returns
      (λ f. (f.freed ≡ true) × (registered f.state.calls ≡ []) × IsLogged f.state)
      (then_do
        (vfio_create answers true 0 0x100 at_start)
        (λ c. vfio_delete true (λ g. true) c.dev c.state))
vfio_delete-vfio_create_example =
    vfio_delete-vfio_create answers 0 0x100 at_start (λ g. true) no_lists-IsShared refl (refl, tt)
      (λ e. omega (arith, e)) (λ e. omega (arith, e)) refl

-- The device's registers, 0x1234 bytes into the second 64 MB behind 2 ^ 32.
state_after : Outcome Done → Done
state_after (returns d) = d
state_after aborts = record { ret = 0; state = at_start }
state_after exits = record { ret = 0; state = at_start }
state_after faults = record { ret = 0; state = at_start }
state_after hangs = record { ret = 0; state = at_start }

maps :
    (state_after (aurora_map true 0x40000000 (2 ^ 32 + 2 ^ 26 + 0x1234) at_start)).ret
    ≡ 0x40000000 + 0x1234
unfolding state_after aurora_map
maps = refl

-- Two threads take buffers, and the second gives that of the first back.
pub ready : Aurora
ready = (state_after (aurora_init answers at_start)).state

pub init_returns : aurora_init answers at_start ≡ returns (record { ret = 1; state = ready })
unfolding ready state_after aurora_init vhsa_release map_region register_region start_heap
    shared_init buddy_init
init_returns = refl

after_alloc : ThreadAlloced → Shared
after_alloc stays = no_lists
after_alloc out = no_lists
after_alloc no_list = no_lists
after_alloc (gives d s) = s

after_free : Option Shared → Shared
after_free none = no_lists
after_free (some s) = s

abbrev first : Dma
first = record { buf = 2 ^ 30; size = 8192; addr = 0x80000 }

abbrev pub second : Dma
second = record { buf = 2 ^ 30 + 66 * 2 ^ 21; size = 4096; addr = 0x80000 + 66 * 2 ^ 21 }

one : Shared
one = after_alloc (thread_alloc (region_of ready) ready.heap 7 5000)

two : Shared
two = after_alloc (thread_alloc (region_of ready) one 9 100)

first_lem : thread_alloc (region_of ready) ready.heap 7 5000 ≡ gives first one
unfolding one after_alloc thread_alloc ready state_after aurora_init vhsa_release map_region
    register_region start_heap shared_init buddy_init freelist_at get_freelist entry_max of_thread
    mem_alloc
first_lem = refl

second_lem : thread_alloc (region_of ready) one 9 100 ≡ gives second two
unfolding two one after_alloc thread_alloc ready state_after aurora_init vhsa_release map_region
    register_region start_heap shared_init buddy_init freelist_at get_freelist entry_max of_thread
    mem_alloc
second_lem = refl

pub three : Shared
three = after_free (thread_free (region_of ready) two 9 first)

freed_lem : thread_free (region_of ready) two 9 first ≡ some three
unfolding three after_free two one thread_free mem_free after_alloc thread_alloc ready state_after
    aurora_init vhsa_release map_region register_region start_heap shared_init buddy_init
    freelist_at get_freelist entry_max of_thread mem_alloc
freed_lem = refl

abbrev pub done : Done
done = record { ret = 1; state = ready }

pub ready_dma : ready.pci_vhsaa ≡ 0x80000
unfolding ready state_after aurora_init vhsa_release map_region register_region start_heap
    shared_init buddy_init
ready_dma = refl

pub taken : Runs (region_of ready) ready.heap three (second ∷ [])
taken =
    frees two three (second ∷ []) [] (second ∷ first ∷ []) 9 first
      (allocs one two (first ∷ []) 9 100 second
        (allocs ready.heap one [] 7 5000 first begins first_lem) second_lem)
      refl freed_lem

aurora_init-Loans_example : (done.ret ≡ 1) × Loans ready three (second ∷ [])
aurora_init-Loans_example =
    aurora_init-Loans answers at_start (left_over ∷ []) done three (second ∷ []) no_lists-IsShared
      refl (λ e. omega (arith, e)) (λ e. omega (arith, e)) init_returns taken

-- A second device, with another region.
abbrev other : InitInput
other = record { mapped = 2 ^ 40; vhsaa = 0x90000; ok = λ g. true }

second-aborts_example :
    Returns
      (λ e.
        (e.ret ≡ 1)
        × (registered e.state.calls ≡ (record { vhsaa = 0x90000; size = max_size }) ∷ [])
        × (resolve_addr (region_of e.state) second.buf ≡ none))
      (aurora_init other (record ready { heap = three }))
second-aborts_example =
    second-aborts answers other at_start done three [] [] second no_lists-IsShared refl (refl, tt)
      (λ e. omega (arith, e)) (λ e. omega (arith, e)) init_returns taken (λ e. omega (arith, e))
      (λ e. omega (arith, e)) refl (inl (omega arith))

-- One block is left.
abbrev one_block : Shared
one_block = record no_lists { free_list = 2 ^ 30 ∷ [] }

one_block-IsShared : IsShared one_block
one_block-IsShared =
    let k = no_lists-IsShared in
    record {
      few = k.few;
      quiet = k.quiet;
      used = k.used;
      unused = k.unused;
      indexed = k.indexed;
      apart = k.apart;
    }

thread_alloc-Branch_example :
    Branch one_block 5000 (thread_alloc (region_of at_start) one_block 7 5000)
thread_alloc-Branch_example =
    thread_alloc-Branch (region_of at_start) one_block 7 5000 one_block-IsShared (omega arith)
