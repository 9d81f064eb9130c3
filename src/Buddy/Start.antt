-- ===== src/Buddy/Start.antt =====
-- buddy_init of src/aurora_pci.c, with the lists of the threads that there are.
use sxaurora_unvme.Base.{
  ℕ, zero, suc, eq→==, ◌/◌, lt→ltb, le→ltb-false, ◌*◌, ◌%◌, ◌≡◌, [], Bool, true, false, some, ltb,
  if◌then◌else◌, arith, refl, replicate, ap,
}
use sxaurora_unvme.Buddy.{Heap}
use sxaurora_unvme.Buddy.Cover.{cover}
use sxaurora_unvme.Buddy.Memory.{blocks, maxbytes, entry_max, buddy_init}
use sxaurora_unvme.Buddy.Init.{within, nothing, blocks-cover}
use sxaurora_unvme.Buddy.Threads.{Shared, shared_init}
use sxaurora_unvme.Buddy.Shared.{sum, sum-same, shared_free, IsShared}

-- The region is free, each byte once, and nothing else.
pub record Started (addr size : ℕ) (s : Shared) : Type 0 where
  pub shared : IsShared s
  pub bytes : (a : ℕ) → shared_free a s ≡ within addr size a

zeros : (n : ℕ) → sum n (λ i. 0) ≡ 0
zeros zero = refl
zeros (suc n) = omega (arith, zeros n)

empty_lists : (a : ℕ) (b : Bool) → cover 512 a (if b then replicate entry_max [] else []) ≡ 0
empty_lists a true = nothing entry_max 512 a
empty_lists a false = refl

pub shared_init-Started :
    (addr size : ℕ) (s : Shared)
    → size % maxbytes ≡ 0
    → IsShared s
    → (s' : Shared) × (shared_init addr size s ≡ some s') × Started addr size s'
unfolding shared_init buddy_init shared_free entry_max
shared_init-Started addr size s whole k =
    let made : Heap = record {
      lists = replicate entry_max [];
      global = blocks (size / maxbytes) addr;
      locked = s.lock;
    } in
    let e : buddy_init addr size s.lock ≡ some made = rw (buddy_init, eq→== _ 0 whole) refl in
    let all : size / maxbytes * maxbytes ≡ size = omega (arith, whole) in
    let after : Shared = record s {
      lists_of = λ i. if ltb i s.current then made.lists else [];
      free_list = made.global;
    } in
    (
      after,
      rw (shared_init, e) refl,
      record {
        shared = record {
          few = k.few;
          quiet = k.quiet;
          used = λ i below. rw (lt→ltb i s.current below) refl;
          unused = λ i above. rw (le→ltb-false i s.current above) refl;
          indexed = k.indexed;
          apart = k.apart;
        };
        bytes = λ a. omega (
          arith,
          sum-same 16 (λ i. 0) (λ i. cover 512 a (if ltb i s.current then made.lists else []))
              (λ i below. empty_lists a (ltb i s.current)),
          zeros 16,
          blocks-cover (size / maxbytes) addr a,
          ap (λ (n : ℕ). within addr n a) all,
        );
      },
    )
