-- ===== src/Engine/Events.antt =====
-- How fio_unvme_getevents of ioengine/unvme_fio.c goes from unit to unit, as a step relation.
use sxaurora_unvme.Base.{
  ℕ, zero, suc, ◌+◌, ◌≡◌, List, [], ◌∷◌, ◌++◌, Bool, true, false, ◌==◌, ℤ, pos, negsuc, leb,
  if◌then◌else◌, length, length-append, arith, refl, subst, append_assoc,
}
use sxaurora_unvme.Core.State.{Io, Run, ok, fatal, fault, undefined, endless, Cmd, and_then}
use sxaurora_unvme.Api.{apoll}
use sxaurora_unvme.Engine.{
  IoUnit, Walk, is_waiting, behind_unit, Polled, done, waits, broken, polled, reap, walk_units,
  getevents,
}

-- The property holds of what a run returns and of the state it leaves, if it returns.
pub data Returns {A : Type 0} (P : A → Io → Type 0) : Run A → Type 0 where
  returned : (a : A) (s : Io) → P a s → Returns P (ok a s)
  aborted : Returns P fatal
  faulted : Returns P fault
  ran_over : Returns P undefined
  unended : Returns P endless

pub of_Returns : {A : Type 0} (P : A → Io → Type 0) (a : A) (s : Io) → Returns P (ok a s) → P a s
of_Returns P a s (returned _ _ h) = h

module _ {A : Type 0} (P Q : A → Io → Type 0) where
  pub both-Returns : (r : Run A) → Returns P r → Returns Q r → Returns (λ a s. P a s × Q a s) r
  both-Returns _ (returned a s h) k = returned a s (h, of_Returns Q a s k)
  both-Returns _ aborted k = aborted
  both-Returns _ faulted k = faulted
  both-Returns _ ran_over k = ran_over
  both-Returns _ unended k = unended

  pub map-Returns : (r : Run A) → Returns P r → ((a : A) (s : Io) → P a s → Q a s) → Returns Q r
  map-Returns _ (returned a s h) k = returned a s (k a s h)
  map-Returns _ aborted k = aborted
  map-Returns _ faulted k = faulted
  map-Returns _ ran_over k = ran_over
  map-Returns _ unended k = unended

module _ {A B : Type 0} (P : A → Io → Type 0) (Q : B → Io → Type 0) where
  pub then-Returns :
      (r : Run A) (k : A → Cmd B)
      → Returns P r
      → ((a : A) (s : Io) → P a s → Returns Q (k a s))
      → Returns Q (and_then r k)
  then-Returns _ k (returned a s h) next = next a s h
  then-Returns _ k aborted next = aborted
  then-Returns _ k faulted next = faulted
  then-Returns _ k ran_over next = ran_over
  then-Returns _ k unended next = unended

-- A run returns what it returns.
pub Returns-itself : {A : Type 0} (r : Run A) → Returns (λ a s. r ≡ ok a s) r
Returns-itself (ok a s) = returned a s refl
Returns-itself fatal = aborted
Returns-itself fault = faulted
Returns-itself undefined = ran_over
Returns-itself endless = unended

pub if-Returns :
    {A : Type 0} (P : A → Io → Type 0) (b : Bool) (x y : Run A)
    → (b ≡ true → Returns P x)
    → (b ≡ false → Returns P y)
    → Returns P (if b then x else y)
if-Returns P true x y h k = h refl
if-Returns P false x y h k = k refl

-- The units, the events so far, and the queue.
pub record Stage : Type 0 where
  pub units : List IoUnit
  pub iocq : List ℕ
  pub io : Io

abbrev pub stage : List IoUnit → List ℕ → Io → Stage
stage us iocq s = record { units = us; iocq = iocq; io = s }

-- One poll of a unit that waits. It has succeeded: the unit waits no more, and its number, which is
-- that of the units before it, is the next event. Or it has timed out: the unit waits on.
pub data Step : Stage → Stage → Type 0 where
  reaped :
      (pre post : List IoUnit) (u : IoUnit) (iocq : List ℕ) (s t : Io)
      → is_waiting u ≡ true
      → apoll u.engine_data 0 s ≡ ok (pos 0) t
      → Step
          (stage (pre ++ u ∷ post) iocq s)
          (stage (pre ++ record u { engine_data = 0 } ∷ post) (iocq ++ length pre ∷ []) t)
  timed_out :
      (pre post : List IoUnit) (u : IoUnit) (iocq : List ℕ) (s t : Io)
      → is_waiting u ≡ true
      → apoll u.engine_data 0 s ≡ ok (negsuc 0) t
      → Step (stage (pre ++ u ∷ post) iocq s) (stage (pre ++ u ∷ post) iocq t)

pub data Steps : Stage → Stage → Type 0 where
  stay : (a : Stage) → Steps a a
  step : (a b c : Stage) → Step a b → Steps b c → Steps a c

Steps-trans : (a b c : Stage) → Steps a b → Steps b c → Steps a c
Steps-trans _ b c (stay _) k = k
Steps-trans a _ c (step _ b' b x xs) k = step a b' c x (Steps-trans b' b c xs k)

-- What the result of a poll says of the unit.
data Says : ℤ → Polled → Type 0 where
  zero_done : Says (pos 0) done
  minus_waits : Says (negsuc 0) waits
  else_broken : (z : ℤ) → Says z broken

polled-Says : (z : ℤ) → Says z (polled z)
polled-Says (pos zero) = zero_done
polled-Says (pos (suc n)) =
    let more : (suc n == 0) ≡ false = ground arith in rw more (else_broken (pos (suc n)))
polled-Says (negsuc zero) = minus_waits
polled-Says (negsuc (suc n)) =
    let more : (suc n == 0) ≡ false = ground arith in rw more (else_broken (negsuc (suc n)))

-- A walk over the rest goes by steps from `a`, with the units `pre` before it.
abbrev Goes : Stage → List IoUnit → Walk → Io → Type 0
Goes a pre w t = Steps a (stage (pre ++ w.units) w.iocq t)

put-Goes :
    (a b : Stage) (pre : List IoUnit) (u : IoUnit) (r : Run Walk)
    → Steps a b
    → Returns (Goes b (pre ++ u ∷ [])) r
    → Returns (Goes a pre) (and_then r (behind_unit u))
put-Goes a b pre u r xs h =
    then-Returns (Goes b (pre ++ u ∷ [])) (Goes a pre) r (behind_unit u) h (λ w t k. returned _ t (
      Steps-trans a b _ xs
        (subst (λ us. Steps b (stage us w.iocq t)) (append_assoc pre (u ∷ []) w.units) k)))

-- The walk over `us`, with the units `pre` and one more before them.
abbrev Advances : (pre us : List IoUnit) → (List ℕ → Cmd Walk) → Type 0
Advances pre us next =
    (v : IoUnit) (iocq : List ℕ) (s : Io)
    → Returns (Goes (stage (pre ++ v ∷ us) iocq s) (pre ++ v ∷ [])) (next iocq s)

module _ (min max : ℕ) where
  reap-Goes :
      (pre us : List IoUnit) (iocq : List ℕ) (u : IoUnit) (next : List ℕ → Cmd Walk) (z : ℤ)
      (p : Polled) (s t : Io)
      → Advances pre us next
      → is_waiting u ≡ true
      → apoll u.engine_data 0 s ≡ ok z t
      → Says z p
      → Returns
          (Goes (stage (pre ++ u ∷ us) iocq s) pre)
          (reap min max (length pre) iocq u us next p t)
  unfolding reap
  reap-Goes pre us iocq u next z p s t walks here e zero_done =
      let one = reaped pre us u iocq s t here e in
      let steps = step _ _ _ one (stay _) in
      if-Returns _ (length (iocq ++ length pre ∷ []) == max) _ _ (λ full. returned _ t steps)
        (λ more. put-Goes _ _ pre (record u { engine_data = 0 }) _ steps (walks _ _ t))
  reap-Goes pre us iocq u next z p s t walks here e minus_waits =
      let one = timed_out pre us u iocq s t here e in
      let steps = step _ _ _ one (stay _) in
      if-Returns _ (leb min (length iocq)) _ _ (λ sated. returned _ t steps)
        (λ hungry. put-Goes _ _ pre u _ steps (walks u iocq t))
  reap-Goes pre us iocq u next z p s t walks here e (else_broken _) = aborted

  walk_units-Goes :
      (k : ℕ) (pre us : List IoUnit) (iocq : List ℕ) (s : Io)
      → length pre ≡ k
      → Returns (Goes (stage (pre ++ us) iocq s) pre) (walk_units min max k us iocq s)
  unfolding walk_units
  walk_units-Goes k pre [] iocq s here = returned _ s (stay _)
  walk_units-Goes k pre (u ∷ us) iocq s here =
      let walks : Advances pre us (walk_units min max (k + 1) us) = λ v iocq' s'.
        subst
          (λ vs.
            Returns (Goes (stage vs iocq' s') (pre ++ v ∷ []))
              (walk_units min max (k + 1) us iocq' s'))
          (append_assoc pre (v ∷ []) us)
          (walk_units-Goes (k + 1) (pre ++ v ∷ []) us iocq' s'
            (omega (arith, length-append pre (v ∷ []), here))) in
      if-Returns _ (is_waiting u) _ _
        (λ waiting. then-Returns _ _ (apoll u.engine_data 0 s) _ (Returns-itself _) (λ stat t e.
          subst
            (λ n.
              Returns (Goes (stage (pre ++ u ∷ us) iocq s) pre)
                (reap min max n iocq u us (walk_units min max (k + 1) us) (polled stat) t))
            here
            (reap-Goes pre us iocq u _ stat (polled stat) s t walks waiting e (polled-Says stat))))
        (λ idle. put-Goes _ _ pre u _ (stay _) (walks u iocq s))

  -- The rounds of fio_unvme_getevents go by polls of units that wait.
  pub getevents-Steps :
      (n : ℕ) (us : List IoUnit) (iocq : List ℕ) (s : Io)
      → Returns
          (λ w t. Steps (stage us iocq s) (stage w.units w.iocq t))
          (getevents n min max us iocq s)
  unfolding getevents
  getevents-Steps zero us iocq s = unended
  getevents-Steps (suc n) us iocq s =
      then-Returns _ _ (walk_units min max 0 us iocq s) _ (walk_units-Goes 0 [] us iocq s refl)
        (λ w t xs.
          if-Returns _ w.stop _ _ (λ over. returned w t xs)
            (λ more.
              map-Returns _ _ (getevents n min max w.units w.iocq t)
                (getevents-Steps n w.units w.iocq t) (λ v u ys. Steps-trans _ _ _ xs ys)))
