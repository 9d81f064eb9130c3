-- ===== src/Clock.antt =====
-- The clock of src/rdtsc.h. The counter runs at 800 MHz, so that rdtsc counts nanoseconds; the values
-- of the counter are given.
pub mod Second
mod Tests
use sxaurora_unvme.Base.{
  ℕ, ◌+◌, ◌-◌, ◌*◌, ◌/◌, ◌%◌, ◌^◌, List, [], ◌∷◌, Option, none, some, ◌||◌, ◌==◌, ltb, leb,
  if◌then◌else◌,
}

-- rdtsc(), where the counter reads `ret`
unfoldable pub rdtsc : (ret : ℕ) → ℕ
rdtsc ret = 1000 * ret % 2 ^ 64 / 800

-- `a - b` on 64 bits
abbrev pub minus : ℕ → ℕ → ℕ
minus a b = (a + 2 ^ 64 - b) % 2 ^ 64

-- rdtsc_elapse(tsc), with what the counter reads in each round; none if the rounds given end first. A
-- difference with the top bit set is negative.
unfoldable pub rdtsc_elapse : (reads : List ℕ) → (tsc : ℕ) → Option ℕ
unfolding rdtsc
rdtsc_elapse [] tsc = none
rdtsc_elapse (c ∷ cs) tsc =
    let et = minus (rdtsc c) tsc in
    let rest = rdtsc_elapse cs tsc in if et == 0 || leb (2 ^ 63) et then rest else some et

-- What rdtsc_second leaves in `tsc_ps`, which it also returns.
unfoldable pub rdtsc_second : (tsc_ps c0 c1 c2 : ℕ) → ℕ
unfolding rdtsc
rdtsc_second tsc_ps c0 c1 c2 =
    let t2 = minus (rdtsc c2) (rdtsc c1) in
    let t1 = minus (rdtsc c1) (rdtsc c0) in
    if tsc_ps == 0 then (if ltb t1 t2 then t1 else t2) * 1000 % 2 ^ 64 else tsc_ps
