-- ===== src/Clock/Second.antt =====
-- What the clock of src/rdtsc.h takes for a second.
use sxaurora_unvme.Base.{
  ℕ, ◌+◌, ◌-◌, ◌*◌, ◌/◌, ◌%◌, ◌^◌, ◌<◌, ◌≤◌, ◌≡◌, ◌≢◌, List, [], ◌∷◌, some, arith, ne→==-false,
  refl, ltb, if◌then◌else◌,
}
use sxaurora_unvme.Clock.{rdtsc, minus, rdtsc_elapse, rdtsc_second}

-- An elapsed time is positive, also as a signed number.
pub rdtsc_elapse-pos :
    (reads : List ℕ) (tsc et : ℕ) → rdtsc_elapse reads tsc ≡ some et → (0 < et) × (et < 2 ^ 63)
unfolding rdtsc_elapse
rdtsc_elapse-pos [] tsc et e = ground arith
rdtsc_elapse-pos (c ∷ cs) tsc et e = ground (arith, rdtsc_elapse-pos cs tsc et)

-- The counter does not go back while rdtsc does not wrap.
rdtsc-sub :
    (c d : ℕ)
    → c + 800000 ≤ d
    → 1000 * d < 2 ^ 64
    → (rdtsc c + 1000000 ≤ rdtsc d)
      × (rdtsc d < 2 ^ 64)
      × (rdtsc d - rdtsc c ≤ 1000 * (d - c) / 800 + 1)
unfolding rdtsc
rdtsc-sub c d h w = omega arith

-- `b - a` on 64 bits
diff-lem : (a b : ℕ) → a ≤ b → b < 2 ^ 64 → (b + 2 ^ 64 - a) % 2 ^ 64 ≡ b - a
diff-lem a b h k = omega arith

-- The lesser of two intervals, times 1000.
lesser :
    (x y : ℕ)
    → x ≤ 1000000001
    → 1000000 ≤ x
    → 1000000 ≤ y
    → (1000000000 ≤ (if ltb x y then x else y) * 1000 % 2 ^ 64)
      × ((if ltb x y then x else y) * 1000 % 2 ^ 64 ≤ 1000 * x)
      × ((if ltb x y then x else y) * 1000 % 2 ^ 64 ≤ 1000 * y)
lesser x y l p q = ground arith

-- Where it is not 0, what is stored is returned.
second-stored : (tsc_ps c0 c1 c2 : ℕ) → tsc_ps ≢ 0 → rdtsc_second tsc_ps c0 c1 c2 ≡ tsc_ps
unfolding rdtsc_second
second-stored tsc_ps c0 c1 c2 some_tsc = rw (ne→==-false tsc_ps 0 some_tsc) refl

second-first :
    (c0 c1 c2 x y : ℕ)
    → minus (rdtsc c1) (rdtsc c0) ≡ x
    → minus (rdtsc c2) (rdtsc c1) ≡ y
    → rdtsc_second 0 c0 c1 c2 ≡ (if ltb x y then x else y) * 1000 % 2 ^ 64
unfolding rdtsc_second
second-first c0 c1 c2 x y e f = rw (e, f) refl

-- If the counter reads at least a millisecond more after each of the two sleeps, at most a second more
-- after the first, and does not come near its wrap-around, then what rdtsc_second takes for a second is
-- at least 10 ^ 9 ticks of rdtsc and at most 1000 times either sleep and 1000 ticks; and it is what every later call returns,
-- whatever the counter reads.
pub rdtsc_second-bounds :
    (c0 c1 c2 d0 d1 d2 : ℕ)
    → c0 + 800000 ≤ c1
    → c1 + 800000 ≤ c2
    → c1 ≤ c0 + 800000000
    → 1000 * c2 < 2 ^ 64
    → (let tsc_ps = rdtsc_second 0 c0 c1 c2 in
        (1000000000 ≤ tsc_ps)
        × (tsc_ps ≤ 1000 * (1000 * (c1 - c0) / 800 + 1))
        × (tsc_ps ≤ 1000 * (1000 * (c2 - c1) / 800 + 1))
        × (rdtsc_second tsc_ps d0 d1 d2 ≡ tsc_ps))
rdtsc_second-bounds c0 c1 c2 d0 d1 d2 h h' near w =
    let (a, b, c) = rdtsc-sub c0 c1 h (omega arith) in
    let (a', b', c') = rdtsc-sub c1 c2 h' w in
    let first = diff-lem (rdtsc c0) (rdtsc c1) (omega arith) b in
    let second = diff-lem (rdtsc c1) (rdtsc c2) (omega arith) b' in
    let x = rdtsc c1 - rdtsc c0 in
    let y = rdtsc c2 - rdtsc c1 in
    let e = second-first c0 c1 c2 x y first second in
    let (low, one, two) = lesser x y (omega (arith, c)) (omega arith) (omega arith) in
    let ne : rdtsc_second 0 c0 c1 c2 ≢ 0 = omega (arith, e, low) in
    (
      omega (arith, e, low),
      omega (arith, e, one, c),
      omega (arith, e, two, c'),
      second-stored (rdtsc_second 0 c0 c1 c2) d0 d1 d2 ne,
    )
