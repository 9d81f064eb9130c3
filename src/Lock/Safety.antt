-- ===== src/Lock/Safety.antt =====
-- A writer has the lock of src/unvme_lock.h alone.
use sxaurora_unvme.Base.{
  ℕ, zero, suc, ◌+◌, ◌*◌, ◌^◌, ◌<◌, ◌≤◌, ◌≡◌, List, [], ◌∷◌, ◌++◌, ◌==◌, leb, arith, refl,
  replicate, Bool-cases, inl, inr, length, length-replicate,
}
use sxaurora_unvme.Lock.{
  Pc, outside, undoing, reading, draining, writing, Move, lockr, retry, unlockr, lockw, wait,
  unlockw, System, Step, step, Steps, stop, more, lockwbit, add_one, sub_one, or_wbit, and_not_wbit,
  after_add, after_or, after_load,
}

-- What a thread adds to the readers that have the lock, to those that take their count back, to the
-- writers that wait, and to those that have the lock.
abbrev reads : Pc → ℕ
reads reading = 1
reads _ = 0

abbrev undoes : Pc → ℕ
undoes undoing = 1
undoes _ = 0

abbrev drains : Pc → ℕ
drains draining = 1
drains _ = 0

abbrev writes : Pc → ℕ
writes writing = 1
writes _ = 0

tally : (Pc → ℕ) → List Pc → ℕ
tally f [] = 0
tally f (p ∷ ps) = f p + tally f ps

-- The readers and the writers that have the lock.
pub readers : System → ℕ
readers s = tally reads s.threads

pub writers : System → ℕ
writers s = tally writes s.threads

tally-at :
    (f : Pc → ℕ) (us : List Pc) (p : Pc) (vs : List Pc)
    → tally f (us ++ p ∷ vs) ≡ tally f us + tally f vs + f p
unfolding tally
tally-at f [] p vs = omega arith
tally-at f (u ∷ us) p vs = omega (arith, tally-at f us p vs)

-- The word counts the readers; at most one writer has claimed the write bit; if it has the lock, no
-- reader has.
record IsGuarded (word r u d w : ℕ) : Type 0 where
  pub held : word ≡ r + u + (d + w) * lockwbit
  pub one : d + w ≤ 1
  pub alone : 0 < w → r ≡ 0
  pub few : r + u < lockwbit

guarded :
    {word r u d w : ℕ}
    → word ≡ r + u + (d + w) * lockwbit
    → d + w ≤ 1
    → (0 < w → r ≡ 0)
    → r + u < lockwbit
    → IsGuarded word r u d w
guarded a b c e = record { held = a; one = b; alone = c; few = e }

-- One move, next to threads that add up to `r`, `u`, `d` and `w`.
Move-IsGuarded :
    (p : Pc) (word : ℕ) (q : Pc) (word' r u d w : ℕ)
    → Move p word q word'
    → r + u + 1 < lockwbit
    → IsGuarded word (r + reads p) (u + undoes p) (d + drains p) (w + writes p)
    → IsGuarded word' (r + reads q) (u + undoes q) (d + drains q) (w + writes q)
unfolding after_add after_or after_load add_one sub_one or_wbit and_not_wbit
Move-IsGuarded _ _ _ _ r u d w (lockr word) room g = elim (Bool-cases (leb lockwbit word)) [
  | inl late ↦ rw late (
      guarded (ground (arith, g.held, g.one)) (omega (arith, g.one))
        (λ h. omega (arith, g.alone (omega arith))) (omega arith))
  | inr early ↦ rw early (
      guarded (ground (arith, g.held, g.one)) (omega (arith, g.one))
        (λ h. ground (arith, g.held, g.one)) (omega arith))
]
Move-IsGuarded _ _ _ _ r u d w (retry word) room g =
    guarded (ground (arith, g.held, g.one)) (omega (arith, g.one))
      (λ h. omega (arith, g.alone (omega arith))) (omega arith)
Move-IsGuarded _ _ _ _ r u d w (unlockr word) room g =
    guarded (ground (arith, g.held, g.one)) (omega (arith, g.one))
      (λ h. omega (arith, g.alone (omega arith))) (omega arith)
Move-IsGuarded _ _ _ _ r u d w (lockw word) room g = elim (Bool-cases (word == 0)) [
  | inl free ↦ rw free (
      guarded (ground (arith, g.held, g.one)) (ground (arith, g.held, g.one))
        (λ h. ground (arith, g.held)) (omega arith))
  | inr busy ↦ elim (Bool-cases (leb lockwbit word)) [
    | inl late ↦ rw (busy, late) g
    | inr early ↦
        rw (busy, early)
          (guarded (ground (arith, g.held, g.one)) (ground (arith, g.held, g.one))
            (λ h. ground (arith, g.held, g.one)) (omega arith))
  ]
]
Move-IsGuarded _ _ _ _ r u d w (wait word) room g = elim (Bool-cases (word == lockwbit)) [
  | inl quiet ↦ rw quiet (
      guarded (ground (arith, g.held, g.one)) (omega (arith, g.one))
        (λ h. ground (arith, g.held, g.one)) (omega arith))
  | inr busy ↦ rw busy g
]
Move-IsGuarded _ _ _ _ r u d w (unlockw word) room g =
    guarded (ground (arith, g.held, g.one)) (omega (arith, g.one))
      (λ h. omega (arith, g.alone (omega arith))) (omega arith)

-- The state of the threads `ps` and the word.
IsGuardedBy : ℕ → List Pc → Type 0
IsGuardedBy word ps =
    IsGuarded word (tally reads ps) (tally undoes ps) (tally drains ps) (tally writes ps)

-- Fewer threads than a count of readers can hold.
tally-few : (ps : List Pc) → tally reads ps + tally undoes ps ≤ length ps
unfolding tally
tally-few [] = omega arith
tally-few (outside ∷ ps) = omega (arith, tally-few ps)
tally-few (undoing ∷ ps) = omega (arith, tally-few ps)
tally-few (reading ∷ ps) = omega (arith, tally-few ps)
tally-few (draining ∷ ps) = omega (arith, tally-few ps)
tally-few (writing ∷ ps) = omega (arith, tally-few ps)

length-at :
    (us : List Pc) (p : Pc) (vs : List Pc) → length (us ++ p ∷ vs) ≡ length us + length vs + 1
length-at [] p vs = omega arith
length-at (u ∷ us) p vs = omega (arith, length-at us p vs)

Step-IsGuarded :
    (s t : System)
    → Step s t
    → length s.threads < lockwbit
    → IsGuardedBy s.word s.threads
    → IsGuardedBy t.word t.threads × (length t.threads ≡ length s.threads)
unfolding IsGuardedBy
Step-IsGuarded _ _ (step us vs p q w v m) small g = (
  rw
      (
        tally-at reads us q vs,
        tally-at undoes us q vs,
        tally-at drains us q vs,
        tally-at writes us q vs,
      )
      (Move-IsGuarded p w q v _ _ _ _ m
        (omega (arith, tally-few us, tally-few vs, length-at us p vs))
        (rw
          (
            ← tally-at reads us p vs,
            ← tally-at undoes us p vs,
            ← tally-at drains us p vs,
            ← tally-at writes us p vs,
          )
          g)),
  omega (arith, length-at us p vs, length-at us q vs),
)

Steps-IsGuarded :
    (s t : System)
    → Steps s t
    → length s.threads < lockwbit
    → IsGuardedBy s.word s.threads
    → IsGuardedBy t.word t.threads
Steps-IsGuarded _ _ (stop s) small g = g
Steps-IsGuarded _ _ (more s t u m ms) small g =
    let (g', same) = Step-IsGuarded s t m small g in Steps-IsGuarded t u ms (omega arith) g'

-- `n` threads, before any has called.
abbrev pub started : ℕ → System
started n = record { word = 0; threads = replicate n outside }

started-tally : (f : Pc → ℕ) (n : ℕ) → f outside ≡ 0 → tally f (replicate n outside) ≡ 0
unfolding tally
started-tally f zero h = refl
started-tally f (suc n) h = omega (arith, h, started-tally f n h)

-- However fewer than 2 ^ 31 threads take and give back the lock, from a word of 0, at most one has it
-- for writing, and while one has, none has it for reading.
pub Steps-exclusive :
    (n : ℕ) (t : System)
    → n < 2 ^ 31
    → Steps (started n) t
    → (writers t ≤ 1) × (0 < writers t → readers t ≡ 0)
unfolding readers writers
Steps-exclusive n t small ms =
    let start : IsGuardedBy 0 (replicate n outside) =
      unfold IsGuardedBy in
      rw
        (
          started-tally reads n refl,
          started-tally undoes n refl,
          started-tally drains n refl,
          started-tally writes n refl,
        )
        (guarded refl (omega arith) (λ h. refl) (omega arith)) in
    let g = Steps-IsGuarded (started n) t ms (omega (arith, length-replicate n outside)) start in
    unfold IsGuardedBy in (omega (arith, g.one), g.alone)
