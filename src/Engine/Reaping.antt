-- ===== src/Engine/Reaping.antt =====
-- What fio_unvme_getevents of ioengine/unvme_fio.c reaps.
use sxaurora_unvme.Base.{
  ℕ, zero, suc, ◌+◌, ◌<◌, ◌≤◌, ◌≡◌, ◌⊎◌, inl, inr, List, [], ◌∷◌, ◌++◌, true, false, ◌==◌, leb,
  if◌then◌else◌, length, length-append, arith, refl, Bool-cases, ==→eq, ==-false→ne, subst,
}
use sxaurora_unvme.Core.State.{Io, Run, ok, endless, Cmd, and_then}
use sxaurora_unvme.Api.{apoll}
use sxaurora_unvme.Engine.Events.{
  Returns, returned, aborted, unended, both-Returns, then-Returns, Returns-itself, if-Returns,
  stage, Steps, getevents-Steps,
}
use sxaurora_unvme.Engine.{
  IoUnit, Walk, is_waiting, behind_unit, Polled, done, waits, broken, polled, reap, walk_units,
  getevents,
}

-- How many units wait for the device.
unfoldable pub waiting : List IoUnit → ℕ
waiting [] = 0
waiting (u ∷ us) = (if is_waiting u then 1 else 0) + waiting us

-- Each unit that waited still waits or is one more event; and if the walk stops, there are as many
-- events as may be, or as must be.
pub record Reaps (min max before : ℕ) (w : Walk) : Type 0 where
  pub kept : waiting w.units + length w.iocq ≡ before
  pub below : length w.iocq ≤ max
  pub room : w.stop ≡ false → length w.iocq < max
  pub enough : w.stop ≡ true → (length w.iocq ≡ max) ⊎ (min ≤ length w.iocq)

abbrev Counted : (min max before : ℕ) → Walk → Io → Type 0
Counted min max before w s = Reaps min max before w

-- The walk over the rest, with the unit before it put back.
put-Reaps :
    (min max b b' : ℕ) (u : IoUnit) (r : Run Walk)
    → (if is_waiting u then 1 else 0) + b ≡ b'
    → Returns (Counted min max b) r
    → Returns (Counted min max b') (and_then r (behind_unit u))
unfolding waiting
put-Reaps min max b b' u r e h =
    then-Returns (Counted min max b) (Counted min max b') r (behind_unit u) h (λ w s k.
      returned _ s (record {
        kept = omega (arith, k.kept, e);
        below = k.below;
        room = k.room;
        enough = k.enough;
      }))

module _ (min max : ℕ) where
  abbrev Walks : (List ℕ → Cmd Walk) → ℕ → Type 0
  Walks next n =
      (iocq : List ℕ) (s : Io)
      → length iocq < max
      → Returns (Counted min max (n + length iocq)) (next iocq s)

  reap-Reaps :
      (k : ℕ) (iocq : List ℕ) (u : IoUnit) (us : List IoUnit) (next : List ℕ → Cmd Walk)
      (p : Polled) (s : Io)
      → is_waiting u ≡ true
      → length iocq < max
      → Walks next (waiting us)
      → Returns (Counted min max (1 + waiting us + length iocq)) (reap min max k iocq u us next p s)
  unfolding reap waiting
  reap-Reaps k iocq u us next done s here room walks =
      elim (Bool-cases (length (iocq ++ k ∷ []) == max)) [
        | inl full ↦ rw full (
            returned _ s (record {
              kept = omega (arith, length-append iocq (k ∷ []));
              below = omega (arith, ==→eq _ max full);
              room = λ e. ground arith;
              enough = λ e. inl (==→eq _ max full);
            }))
        | inr more ↦ rw more (
            put-Reaps min max (waiting us + length (iocq ++ k ∷ [])) _
              (record u { engine_data = 0 }) _ (omega (arith, length-append iocq (k ∷ [])))
              (walks (iocq ++ k ∷ []) s
                (omega (arith, length-append iocq (k ∷ []), ==-false→ne _ max more))))
      ]
  reap-Reaps k iocq u us next waits s here room walks = elim (Bool-cases (leb min (length iocq))) [
    | inl sated ↦ rw sated (
        returned _ s (record {
          kept = rw here (omega arith);
          below = omega arith;
          room = λ e. ground arith;
          enough = λ e. inr (ground arith);
        }))
    | inr hungry ↦ rw hungry (
        put-Reaps min max (waiting us + length iocq) _ u _ (rw here (omega arith))
          (walks iocq s room))
  ]
  reap-Reaps k iocq u us next broken s here room walks = aborted

  walk_units-Reaps : (k : ℕ) (us : List IoUnit) → Walks (walk_units min max k us) (waiting us)
  unfolding walk_units waiting
  walk_units-Reaps k [] iocq s room = returned _ s (record {
    kept = omega arith;
    below = omega arith;
    room = λ e. room;
    enough = λ e. ground arith;
  })
  walk_units-Reaps k (u ∷ us) iocq s room = elim (Bool-cases (is_waiting u)) [
    | inl here ↦ rw here (
        then-Returns _ _ (apoll u.engine_data 0 s) _ (Returns-itself _) (λ stat t h.
          reap-Reaps k iocq u us (walk_units min max (k + 1) us) (polled stat) t here room
            (walk_units-Reaps (k + 1) us)))
    | inr idle ↦ rw idle (
        put-Reaps min max (waiting us + length iocq) _ u _ (rw idle (omega arith))
          (walk_units-Reaps (k + 1) us iocq s room))
  ]

  abbrev Stopped : ℕ → Walk → Io → Type 0
  Stopped before w t = Reaps min max before w × (w.stop ≡ true)

  getevents-from :
      (n : ℕ) (us : List IoUnit) (iocq : List ℕ) (s : Io)
      → length iocq < max
      → Returns (Stopped (waiting us + length iocq)) (getevents n min max us iocq s)
  unfolding getevents
  getevents-from zero us iocq s room = unended
  getevents-from (suc n) us iocq s room =
      let before = waiting us + length iocq in
      then-Returns (Counted min max before) (Stopped before) (walk_units min max 0 us iocq s) _
        (walk_units-Reaps 0 us iocq s room)
        (λ w t k.
          if-Returns (Stopped before) w.stop (ok w t) _ (λ over. returned w t (k, over))
            (λ more.
              subst (λ b. Returns (Stopped b) (getevents n min max w.units w.iocq t)) k.kept
                (getevents-from n w.units w.iocq t (k.room more))))

  -- What fio_unvme_getevents over `us` from `s` leaves: as many events as asked for, each made by a
  -- step from the units and the queue as they were.
  abbrev pub Reaped : List IoUnit → Io → Walk → Io → Type 0
  Reaped us s w t =
      (Reaps min max (waiting us) w × (w.stop ≡ true))
      × Steps (stage us [] s) (stage w.units w.iocq t)

  -- fio_unvme_getevents from an empty list of events, with room for one, however the device
  -- answers, if it returns: it reports at most `max` events, and `max` of them or at least `min`;
  -- each unit that waited for the device waits still or is one more event; and units, events and
  -- queue are changed by polls of waiting units only, each of which has either returned 0, and
  -- then that unit waits no more and its number is the next event, or timed out, and then the
  -- units and the events are as they were.
  pub getevents-Reaps :
      (n : ℕ) (us : List IoUnit) (s : Io)
      → 0 < max
      → Returns (Reaped us s) (getevents n min max us [] s)
  getevents-Reaps n us s some_room =
      both-Returns _ _ _
        (subst (λ b. Returns (Stopped b) (getevents n min max us [] s)) (omega arith)
          (getevents-from n us [] s some_room))
        (getevents-Steps min max n us [] s)

  walk_units-idle :
      (k : ℕ) (us : List IoUnit) (iocq : List ℕ) (s : Io)
      → waiting us ≡ 0
      → walk_units min max k us iocq s ≡ ok (record { units = us; iocq = iocq; stop = false }) s
  unfolding walk_units waiting
  walk_units-idle k [] iocq s none_left = refl
  walk_units-idle k (u ∷ us) iocq s none_left = elim (Bool-cases (is_waiting u)) [
    | inl here ↦ absurd (ground (arith, none_left))
    | inr idle ↦ rw (idle, walk_units-idle (k + 1) us iocq s (omega (arith, none_left))) refl
  ]

  -- Once no unit waits for the device, fio_unvme_getevents never returns, however many events it has.
  pub getevents-idle :
      (n : ℕ) (us : List IoUnit) (iocq : List ℕ) (s : Io)
      → waiting us ≡ 0
      → getevents n min max us iocq s ≡ endless
  unfolding getevents
  getevents-idle zero us iocq s none_left = refl
  getevents-idle (suc n) us iocq s none_left =
      rw (walk_units-idle 0 us iocq s none_left) (getevents-idle n us iocq s none_left)
