-- ===== src/Lock/Tests.antt =====
-- Two threads and the lock of src/unvme_lock.h: one takes it for writing, the other then tries to
-- take it for reading.
use sxaurora_unvme.Base.{◌<◌, ◌≤◌, ◌≡◌, [], ◌∷◌, arith}
use sxaurora_unvme.Lock.{
  System, step, Steps, stop, more, outside, lockw, lockr, after_or, or_wbit, after_add, add_one,
}
use sxaurora_unvme.Lock.Safety.{readers, writers, started, Steps-exclusive}

-- The writer has the lock.
abbrev taken : System
taken = record { word = or_wbit 0; threads = after_or 0 ∷ outside ∷ [] }

-- The reader has added its count to the word.
abbrev tried : System
tried = record { word = add_one (or_wbit 0); threads = after_or 0 ∷ after_add (or_wbit 0) ∷ [] }

two-Steps : Steps (started 2) tried
two-Steps =
    more (started 2) taken tried
      (step [] (outside ∷ []) outside (after_or 0) 0 (or_wbit 0) (lockw 0))
      (more taken tried tried
        (step (after_or 0 ∷ []) [] outside (after_add (or_wbit 0)) (or_wbit 0) (add_one (or_wbit 0))
          (lockr (or_wbit 0)))
        (stop tried))

Steps-exclusive_example : (writers tried ≤ 1) × (0 < writers tried → readers tried ≡ 0)
Steps-exclusive_example = Steps-exclusive 2 tried (omega arith) two-Steps
