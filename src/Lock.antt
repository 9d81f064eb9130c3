-- ===== src/Lock.antt =====
-- The read write lock of src/unvme_lock.h: a word of 32 bits, its top bit the write bit and the rest
-- a count of readers, and threads that take the lock and give it back.
pub mod Safety
mod Tests
use sxaurora_unvme.Base.{ℕ, ◌+◌, ◌-◌, ◌*◌, ◌%◌, ◌^◌, ◌≡◌, List, ◌∷◌, ◌++◌, ◌==◌, leb, if◌then◌else◌}

-- UNVME_LOCKWBIT
abbrev pub lockwbit : ℕ
lockwbit = 2 ^ 31

-- `atomic_fetch_add(lock, 1)` and `atomic_fetch_sub(lock, 1)`
unfoldable pub add_one : ℕ → ℕ
add_one w = (w + 1) % 2 ^ 32

unfoldable pub sub_one : ℕ → ℕ
sub_one w = (w + 2 ^ 32 - 1) % 2 ^ 32

-- `atomic_fetch_or(lock, UNVME_LOCKWBIT)` and `atomic_fetch_and(lock, ~UNVME_LOCKWBIT)`
unfoldable pub or_wbit : ℕ → ℕ
or_wbit w = if leb lockwbit w then w else w + lockwbit

unfoldable pub and_not_wbit : ℕ → ℕ
and_not_wbit w = w % lockwbit

-- Where a thread stands: outside, or about to try again; in unvme_lockr, before it takes its count
-- back; with the lock for reading; in unvme_lockw, waiting for the readers; with the lock for
-- writing.
pub data Pc : Type 0 where
  outside : Pc
  undoing : Pc
  reading : Pc
  draining : Pc
  writing : Pc

-- Where the first access of unvme_lockr leads, and the one of unvme_lockw, by the word that it reads.
unfoldable pub after_add : ℕ → Pc
after_add w = if leb lockwbit w then undoing else reading

unfoldable pub after_or : ℕ → Pc
after_or w = if w == 0 then writing else if leb lockwbit w then outside else draining

unfoldable pub after_load : ℕ → Pc
after_load w = if w == lockwbit then writing else draining

-- One atomic access of a thread to the word.
pub data Move : Pc → ℕ → Pc → ℕ → Type 0 where
  lockr : (w : ℕ) → Move outside w (after_add w) (add_one w)
  retry : (w : ℕ) → Move undoing w outside (sub_one w)
  unlockr : (w : ℕ) → Move reading w outside (sub_one w)
  lockw : (w : ℕ) → Move outside w (after_or w) (or_wbit w)
  wait : (w : ℕ) → Move draining w (after_load w) w
  unlockw : (w : ℕ) → Move writing w outside (and_not_wbit w)

-- The word and the threads.
pub record System : Type 0 where
  pub word : ℕ
  pub threads : List Pc

-- One thread moves.
pub data Step : System → System → Type 0 where
  step :
      (us vs : List Pc) (p q : Pc) (w v : ℕ)
      → Move p w q v
      → Step
          (record { word = w; threads = us ++ p ∷ vs })
          (record { word = v; threads = us ++ q ∷ vs })

-- Any number of steps.
pub data Steps : System → System → Type 0 where
  stop : (s : System) → Steps s s
  more : (s t u : System) → Step s t → Steps t u → Steps s u
