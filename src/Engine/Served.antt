-- ===== src/Engine/Served.antt =====
-- When fio_unvme_getevents of ioengine/unvme_fio.c returns.
use sxaurora_unvme.Base.{
  ℕ, zero, suc, ◌+◌, ◌≡◌, List, [], ◌∷◌, ◌++◌, true, false, ◌<◌, pos, length, length-append, arith,
  refl, ap, ◌∙◌, if◌then◌else◌, append_assoc, ne→==-false, subst, eq→==,
}
use sxaurora_unvme.Core.State.{Io, Run, ok, and_then}
use sxaurora_unvme.Api.{apoll}
use sxaurora_unvme.Engine.{IoUnit, Walk, is_waiting, behind_unit, reap, walk_units, getevents}

-- The first `n` units that wait, of `us` with the numbers from `k` on, have completed when they are
-- polled in turn from `s`, and `ks` are their numbers; the last poll leaves `t`.
pub data Serves : (n k : ℕ) → List IoUnit → Io → List ℕ → Io → Type 0 where
  served : (k : ℕ) (us : List IoUnit) (s : Io) → Serves 0 k us s [] s
  passed :
      (n k : ℕ) (u : IoUnit) (us : List IoUnit) (s : Io) (ks : List ℕ) (t : Io)
      → is_waiting u ≡ false
      → Serves (suc n) (k + 1) us s ks t
      → Serves (suc n) k (u ∷ us) s ks t
  hit :
      (n k : ℕ) (u : IoUnit) (us : List IoUnit) (s r : Io) (ks : List ℕ) (t : Io)
      → is_waiting u ≡ true
      → apoll u.engine_data 0 s ≡ ok (pos 0) r
      → Serves n (k + 1) us r ks t
      → Serves (suc n) k (u ∷ us) s (k ∷ ks) t

-- A walk returns with the events `ks`, and is over.
record IsOver (ks : List ℕ) (t : Io) (r : Run Walk) : Type 0 where
  pub walk : Walk
  pub returns : r ≡ ok walk t
  pub events : walk.iocq ≡ ks
  pub over : walk.stop ≡ true

put-IsOver :
    (ks : List ℕ) (t : Io) (r : Run Walk) (u : IoUnit)
    → IsOver ks t r
    → IsOver ks t (and_then r (behind_unit u))
put-IsOver ks t r u w = record {
  walk = record w.walk { units = u ∷ w.walk.units };
  returns = ap (λ r. and_then r (behind_unit u)) w.returns;
  events = w.events;
  over = w.over;
}

module _ (min max : ℕ) where
  walk_units-IsOver :
      (n k : ℕ) (us : List IoUnit) (s : Io) (ks : List ℕ) (t : Io) (iocq : List ℕ)
      → Serves (suc n) k us s ks t
      → length iocq + suc n ≡ max
      → IsOver (iocq ++ ks) t (walk_units min max k us iocq s)
  unfolding walk_units reap
  walk_units-IsOver n k _ s ks t iocq (passed _ _ u us _ _ _ idle rest) fill =
      rw idle (put-IsOver _ t _ u (walk_units-IsOver n (k + 1) us s ks t iocq rest fill))
  walk_units-IsOver zero k _ s _ t iocq (hit _ _ u us _ _ _ _ here e (served _ _ _)) fill =
      let full =
        eq→== (length (iocq ++ k ∷ [])) max (omega (arith, length-append iocq (k ∷ []), fill)) in
      rw (here, e, full) (record { walk = _; returns = refl; events = refl; over = refl })
  walk_units-IsOver (suc n) k _ s _ t iocq (hit _ _ u us _ r ks _ here e rest) fill =
      let left : length (iocq ++ k ∷ []) + suc n ≡ max =
        omega (arith, length-append iocq (k ∷ []), fill) in
      let more = ne→==-false (length (iocq ++ k ∷ [])) max (λ h. ground (arith, h, left)) in
      rw (here, e, more)
        (put-IsOver _ t _ (record u { engine_data = 0 })
          (subst (λ l. IsOver l t (walk_units min max (k + 1) us (iocq ++ k ∷ []) r))
            (append_assoc iocq (k ∷ []) ks)
            (walk_units-IsOver n (k + 1) us r ks t (iocq ++ k ∷ []) rest left)))

-- If the first `max` units that wait for the device have completed when fio_unvme_getevents polls
-- them in turn, `max` at least 1, it returns in its first round, and its events are the numbers
-- of these units, in order.
pub getevents-Serves :
    (min max n : ℕ) (us : List IoUnit) (s t : Io) (ks : List ℕ)
    → 0 < max
    → Serves max 0 us s ks t
    → (w : Walk) × (getevents (suc n) min max us [] s ≡ ok w t) × (w.iocq ≡ ks)
unfolding getevents
getevents-Serves min zero n us s t ks some_room serves = absurd (ground (arith, some_room))
getevents-Serves min (suc m) n us s t ks some_room serves =
    let w = walk_units-IsOver min (suc m) m 0 us s ks t [] serves (omega arith) in
    let first =
      λ (w : Walk) (t : Io). if w.stop then ok w t else getevents n min (suc m) w.units w.iocq t in
    let stops : first w.walk t ≡ ok w.walk t = rw w.over refl in
    (w.walk, ap (λ r. and_then r first) w.returns ∙ stops, w.events)
