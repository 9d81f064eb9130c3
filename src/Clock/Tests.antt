-- ===== src/Clock/Tests.antt =====
-- The clock of src/rdtsc.h with sleeps of 1000 and 1100 microseconds.
use sxaurora_unvme.Base.{◌+◌, ◌-◌, ◌*◌, ◌/◌, ◌≤◌, ◌≡◌, [], ◌∷◌, some, arith, refl}
use sxaurora_unvme.Clock.{rdtsc_elapse, rdtsc_second}
use sxaurora_unvme.Clock.Second.{rdtsc_second-bounds}

-- A counter that has not moved on is read again.
elapsed : rdtsc_elapse (800 ∷ 800 ∷ 1600 ∷ []) 1000 ≡ some 1000
unfolding rdtsc_elapse
elapsed = refl

rdtsc_second-bounds_example :
    (1000000000 ≤ rdtsc_second 0 8000 808000 1688000)
    × (rdtsc_second 0 8000 808000 1688000 ≤ 1000 * (1000 * (808000 - 8000) / 800 + 1))
    × (rdtsc_second 0 8000 808000 1688000 ≤ 1000 * (1000 * (1688000 - 808000) / 800 + 1))
    × (rdtsc_second (rdtsc_second 0 8000 808000 1688000) 1 2 3 ≡ rdtsc_second 0 8000 808000 1688000)
rdtsc_second-bounds_example =
    rdtsc_second-bounds 8000 808000 1688000 1 2 3 (omega arith) (omega arith) (omega arith)
      (omega arith)
