-- ===== src/Engine/Once.antt =====
-- do_unvme_init of ioengine/unvme_fio.c opens the device once, for all threads.
use sxaurora_unvme.Base.{
  ap, sym, true, ℕ, ◌<◌, ◌≤◌, ◌≡◌, Bool, false, Option, none, some, arith, refl, ◌∙◌, subst,
  Option-cases, Bool-cases, inl, inr, if◌then◌else◌,
}
use sxaurora_unvme.Session.Types.{Outcome, returns, aborts, faults, then_do}
use sxaurora_unvme.Session.Refs.{Ends, returned, aborted, faulted, then_do-Ends, Ends-any, of_Ends}
use sxaurora_unvme.Engine.{within_limits}
use sxaurora_unvme.Engine.Setup.{
  Context, Thread, FioInput, open_context, check_limits, do_unvme_init, open_once, mutex_lock,
  mutex_unlock,
}

-- The device is open, and the thread has a queue of its own, with room for its requests and one slot
-- more; the mutex is free.
pub record Joined (td : Thread) (c : Context) : Type 0 where
  pub session : ℕ
  pub opened : c.ns ≡ some session
  pub own : td.thread_number ≤ (c.driver.session session).ns.qcount
  pub room : td.iodepth < (c.driver.session session).ns.qsize
  pub unlocked : c.mutex ≡ false

-- do_unvme_init has not unlocked the mutex yet.
record IsWithin (td : Thread) (c : Context) : Type 0 where
  pub session : ℕ
  pub opened : c.ns ≡ some session
  pub own : td.thread_number ≤ (c.driver.session session).ns.qcount
  pub room : td.iodepth < (c.driver.session session).ns.qsize

check_limits-IsWithin : (td : Thread) (c : Context) → Ends (IsWithin td) (check_limits td c)
unfolding check_limits within_limits
check_limits-IsWithin td c = elim (Option-cases c.ns) [
  | inl closed ↦ rw (check_limits, closed) faulted
  | inr (x, is) ↦
      elim (Bool-cases (within_limits (c.driver.session x).ns td.thread_number td.iodepth)) [
        | inl fits ↦
            rw (check_limits, is, fits)
              (returned c (record {
                session = x;
                opened = is;
                own = ground (arith, fits);
                room = ground (arith, fits);
              }))
        | inr over ↦ rw (check_limits, is, over) aborted
      ]
]

do_unvme_init-Joined :
    (i : FioInput) (td : Thread) (c : Context) → Ends (Joined td) (do_unvme_init i td c)
unfolding do_unvme_init mutex_unlock
do_unvme_init-Joined i td c = then_do-Ends _ _ (mutex_lock c) _ (Ends-any _) (λ locked _.
    then_do-Ends _ _ (open_once i td locked) _ (Ends-any _) (λ joined _.
      then_do-Ends (IsWithin td) (Joined td) (check_limits td joined) mutex_unlock
        (check_limits-IsWithin td joined)
        (λ c' k. returned _ (record {
          session = k.session;
          opened = k.opened;
          own = k.own;
          room = k.room;
          unlocked = refl;
        }))))

when_open :
    {A : Type 0} (x : ℕ) (n : Option ℕ) (o : Outcome A) (f : ℕ → Outcome A)
    → n ≡ some x
    → elim n [ none ↦ o | some y ↦ f y ] ≡ f x
when_open x n o f is = rw is refl

module _ (i : FioInput) (td : Thread) (c : Context) (x : ℕ) (is : c.ns ≡ some x) where
  open_once-open : open_once i td c ≡ returns c
  unfolding open_once
  open_once-open = when_open x c.ns (open_context i td c) (λ y. returns c) is

  check_limits-open : check_limits td c ≡ (
      if within_limits (c.driver.session x).ns td.thread_number td.iodepth
      then returns c
      else aborts)
  unfolding check_limits
  check_limits-open =
      when_open x c.ns faults
        (λ y.
          if within_limits (c.driver.session y).ns td.thread_number td.iodepth
          then returns c
          else aborts)
        is

if-then_do :
    {A B : Type 0} (b : Bool) (a : A) (k : A → Outcome B)
    → then_do (if b then returns a else aborts) k ≡ (if b then k a else aborts)
if-then_do true a k = refl
if-then_do false a k = refl

mutex_lock-free :
    (c : Context) → c.mutex ≡ false → mutex_lock c ≡ returns (record c { mutex = true })
unfolding mutex_lock
mutex_lock-free c free = rw (mutex_lock, free) refl

-- The device is open.
do_unvme_init-again :
    (i : FioInput) (td : Thread) (c : Context) (x : ℕ)
    → c.ns ≡ some x
    → c.mutex ≡ false
    → do_unvme_init i td c ≡ (
        if within_limits (c.driver.session x).ns td.thread_number td.iodepth
        then returns c
        else aborts)
unfolding do_unvme_init mutex_unlock
do_unvme_init-again i td c x is free =
    let locked = record c { mutex = true } in
    let fits = within_limits (c.driver.session x).ns td.thread_number td.iodepth in
    ap
      (λ o. then_do o (λ (locked : Context).
        then_do (open_once i td locked)
          (λ (joined : Context). then_do (check_limits td joined) mutex_unlock)))
      (mutex_lock-free c free)
    ∙ ap (λ o. then_do o (λ (joined : Context). then_do (check_limits td joined) mutex_unlock))
        (open_once-open i td locked x is)
    ∙ ap (λ o. then_do o mutex_unlock) (check_limits-open i td locked x is)
    ∙ if-then_do fits locked mutex_unlock
    ∙ ap (λ b. if fits then returns (record c { mutex = b }) else aborts) (sym free)

-- If do_unvme_init returns, the device is open, and the thread has a queue of its own and fewer requests
-- than that has slots; and each later call, of any thread and whatever the device would answer, opens
-- nothing: it returns with all as it was, or aborts because the thread is beyond the limits.
pub do_unvme_init-once :
    (i j : FioInput) (td td' : Thread) (c c' : Context)
    → do_unvme_init i td c ≡ returns c'
    → (x : ℕ) × (c'.ns ≡ some x)
      × (td.thread_number ≤ (c'.driver.session x).ns.qcount)
      × (td.iodepth < (c'.driver.session x).ns.qsize)
      × (do_unvme_init j td' c' ≡ (
          if within_limits (c'.driver.session x).ns td'.thread_number td'.iodepth
          then returns c'
          else aborts))
do_unvme_init-once i j td td' c c' e =
    let k = of_Ends (Joined td) c' (subst (Ends (Joined td)) e (do_unvme_init-Joined i td c)) in
    (k.session, k.opened, k.own, k.room, do_unvme_init-again j td' c' k.session k.opened k.unlocked)
