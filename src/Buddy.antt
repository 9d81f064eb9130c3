-- ===== src/Buddy.antt =====
-- The allocator of the I/O region in src/aurora_pci.c: buddy_malloc, buddy_free. The free lists of one thread stand in a list by size, from the smallest size on,
-- each with the addresses of its free blocks in order.
pub mod Cover
pub mod Memory
pub mod Rounding
pub mod Behind
pub mod Loan
pub mod Init
pub mod Owned
pub mod Threads
pub mod Shared
pub mod Ends
pub mod Branches
pub mod Runs
pub mod Start
mod Tests
use sxaurora_unvme.Base.{
  ℕ, zero, suc, ◌+◌, ◌-◌, ◌*◌, ◌%◌, List, [], ◌∷◌, Bool, true, false, ◌&&◌, Option, none, some,
  ◌==◌, ltb, if◌then◌else◌,
}

-- The free lists of a thread, the global list of blocks of the largest size, and its lock.
pub record Heap : Type 0 where
  pub lists : List (List ℕ)
  pub global : List ℕ
  pub locked : Bool

-- What buddy_malloc returns; or it spins for ever on the lock.
pub data Got : Type 0 where
  spins : Got
  got : Option ℕ → Heap → Got

-- The first `n` entries of a list, and those behind.
unfoldable pub front {ℓ} : {A : Type ℓ} → ℕ → List A → List A
front zero xs = []
front (suc n) [] = []
front (suc n) (x ∷ xs) = x ∷ front n xs

unfoldable pub behind {ℓ} : {A : Type ℓ} → ℕ → List A → List A
behind zero xs = xs
behind (suc n) [] = []
behind (suc n) (x ∷ xs) = behind n xs

-- The largest size, with the thread's list empty: the first block of the global list, and the next 65
-- for the thread. Where the global list is empty, the lock stays taken.
unfoldable pub refill : (global : List ℕ) → (locked : Bool) → Got
unfolding front behind
refill global true = spins
refill [] false = got none (record { lists = [] ∷ []; global = []; locked = true })
refill (p ∷ rest) false =
    got (some p) (record { lists = front 65 rest ∷ []; global = behind 65 rest; locked = false })

-- The two halves of a block: the first is handed out, the second stays free.
unfoldable pub halve : (size : ℕ) → Got → Got
halve size spins = spins
halve size (got none h) = got none (record h { lists = [] ∷ h.lists })
halve size (got (some p) h) = got (some p) (record h { lists = ((p + size) ∷ []) ∷ h.lists })

-- A smaller list, put back.
unfoldable pub under : List ℕ → Heap → Heap
under xs h = record h { lists = xs ∷ h.lists }

-- buddy_malloc(size), on the free lists from that of `size` on; with none, `size` is no size.
unfoldable pub buddy_malloc :
    (size : ℕ) → (lists : List (List ℕ)) → (global : List ℕ) → (locked : Bool) → Got
unfolding refill halve
buddy_malloc size [] global locked =
    got none (record { lists = []; global = global; locked = locked })
buddy_malloc size ((p ∷ ps) ∷ ls) global locked =
    got (some p) (record { lists = ps ∷ ls; global = global; locked = locked })
buddy_malloc size ([] ∷ []) global locked = refill global locked
buddy_malloc size ([] ∷ l ∷ ls) global locked =
    halve size (buddy_malloc (2 * size) (l ∷ ls) global locked)

-- is_left(p, size), in a region from `start`
unfoldable pub is_left : (start p size : ℕ) → Bool
is_left start p size = (p - start) % (size * 2) == 0

-- The walk of buddy_free along one list: the list that it leaves, and the block that it frees again
-- with twice the size, if it has put two blocks together.
pub record Walked : Type 0 where
  pub list : List ℕ
  pub joined : Option ℕ

unfoldable pub walk : (start size : ℕ) → (compact : Bool) → (buf : ℕ) → List ℕ → Walked
unfolding is_left
walk start size compact buf [] = record { list = buf ∷ []; joined = none }
walk start size compact buf (x ∷ xs) =
    let rest = walk start size compact buf xs in
    if ltb buf x
    then (if compact && buf + size == x && is_left start buf size
        then record { list = xs; joined = some buf }
        else record { list = buf ∷ x ∷ xs; joined = none })
    else if compact && x + size == buf && is_left start x size
    then record { list = xs; joined = some x }
    else record { list = x ∷ rest.list; joined = rest.joined }

-- Blocks of the largest size are not put together.
abbrev is_last : List (List ℕ) → Bool
is_last [] = true
is_last (l ∷ ls) = false

abbrev not_last : List (List ℕ) → Bool
not_last [] = false
not_last (l ∷ ls) = true

-- buddy_free(buf, size), on the free lists from that of `size` on
unfoldable pub buddy_free : (start size buf : ℕ) → List (List ℕ) → List (List ℕ)
unfolding walk
buddy_free start size buf [] = []
buddy_free start size buf (l ∷ ls) =
    let w = walk start size (not_last ls) buf l in
    elim w.joined [ none ↦ w.list ∷ ls | some p ↦ w.list ∷ buddy_free start (2 * size) p ls ]
