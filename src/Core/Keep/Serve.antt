-- ===== src/Core/Keep/Serve.antt =====
-- A device that answers: what unvme_check_completion, in src/unvme_core.c, then makes of its polls.
use sxaurora_unvme.Base.{
  ℕ, suc, ◌+◌, ◌<◌, ◌≤◌, ◌≡◌, ◌≢◌, true, List, [], ◌∷◌, ◌==◌, refl, some, none, ne→==-false, lt→ltb,
  Bool-cases, inl, inr, ◌++◌, ◌∙◌, not, ap, ◌&&◌,
}
use sxaurora_unvme.CidMask.{mask_test}
use sxaurora_unvme.Nvme.Types.{NvmeQueue, CqEntry, Ring, stat_of}
use sxaurora_unvme.Nvme.Queue.{Poll, deadline, nvme_check_completion, Completion}
use sxaurora_unvme.Nvme.Fifo.{posted, report, At, check_completion-posted, check_completion-idle}
use sxaurora_unvme.Core.State.{Io, ok, Run}
use sxaurora_unvme.Core.Complete.{Status, complete, Polled, poll_loop, check_completion}
use sxaurora_unvme.Core.Invariant.{IsQueue}
use sxaurora_unvme.Core.Keep.Complete.{status_of, complete-Released}
use sxaurora_unvme.Core.Keep.Poll.{nvmeq-IsQueue}

-- The device completes the ids listed, in this order and without an error, each before the time that
-- the driver waits for it is over. `h` completions have been seen before; `endtsc` is the deadline
-- of the wait that is going on, and 0 if there is none.
pub data Serving (size : ℕ) (entries : ℕ → CqEntry) (timeout rdtsec : ℕ)
    : (endtsc h : ℕ) → List ℕ → List Poll → Type 0 where
  done : (endtsc h : ℕ) (ps : List Poll) → Serving size entries timeout rdtsec endtsc h [] ps
  early :
      (endtsc h : ℕ) (ids : List ℕ) (p : Poll) (ps : List Poll)
      → timeout ≢ 0
      → p.cq ≡ posted size entries h
      → p.now < deadline endtsc p.start timeout rdtsec
      → Serving size entries timeout rdtsec (deadline endtsc p.start timeout rdtsec) h ids ps
      → Serving size entries timeout rdtsec endtsc h ids (p ∷ ps)
  answer :
      (endtsc h k : ℕ) (id : ℕ) (ids : List ℕ) (p : Poll) (ps : List Poll)
      → h < k
      → k ≤ h + size
      → p.cq ≡ posted size entries k
      → (entries h).cid ≡ id
      → stat_of (entries h) ≡ 0
      → Serving size entries timeout rdtsec 0 (suc h) ids ps
      → Serving size entries timeout rdtsec endtsc h (id ∷ ids) (p ∷ ps)

module _ (p : Poll) (ps : List Poll) (n : NvmeQueue) (timeout rdtsec endtsc : ℕ)
    (rings : List Ring) where
  loop-found :
      (c : Completion)
      → (nvme_check_completion n p.cq).found ≡ some c
      → (r : Polled) × (poll_loop (p ∷ ps) n timeout rdtsec endtsc rings ≡ some r)
        × (r.found ≡ some c)
        × (r.nvmeq ≡ (nvme_check_completion n p.cq).queue)
        × (r.polls ≡ ps)
  unfolding poll_loop
  loop-found c e = (
    record {
      nvmeq = (nvme_check_completion n p.cq).queue;
      rings = rings ++ (nvme_check_completion n p.cq).rings;
      polls = ps;
      found = (nvme_check_completion n p.cq).found;
    },
    elim (Bool-cases (timeout == 0)) [ inl z ↦ rw z refl | inr z ↦ rw (z, e) refl ],
    e,
    refl,
    refl,
  )

  loop-idle :
      (nvme_check_completion n p.cq).found ≡ none
      → (nvme_check_completion n p.cq).queue ≡ n
      → timeout ≢ 0
      → p.now < deadline endtsc p.start timeout rdtsec
      → (rings' : List Ring) × (poll_loop (p ∷ ps) n timeout rdtsec endtsc rings
          ≡ poll_loop ps n timeout rdtsec (deadline endtsc p.start timeout rdtsec) rings')
  unfolding poll_loop
  loop-idle e q t l = (
    rings ++ (nvme_check_completion n p.cq).rings,
    rw (e, q, ne→==-false _ _ t, lt→ltb _ _ l) refl,
  )

after_loop : Io → Polled → Io
after_loop s r = record s {
  queue = record s.queue { nvmeq = r.nvmeq };
  polls = r.polls;
  rings = r.rings;
}

check-found :
    (s : Io) (timeout : ℕ) (r : Polled) (c : Completion) (end : Run Status)
    → poll_loop s.polls s.queue.nvmeq timeout s.rdtsec 0 s.rings ≡ some r
    → r.found ≡ some c
    → complete c (after_loop s r) ≡ end
    → check_completion timeout s ≡ end
unfolding check_completion after_loop
check-found s timeout r c end e f k = rw (check_completion, e, f) k

module _ (size : ℕ) (entries : ℕ → CqEntry) (positive : 0 < size) (timeout rdtsec : ℕ) where
  -- The wait for the next completion ends with it.
  record Seen (n : NvmeQueue) (h id : ℕ) (ids : List ℕ) (r : Polled) : Type 0 where
    pub found : r.found ≡ some (report entries h)
    pub named : (entries h).cid ≡ id
    pub good : stat_of (entries h) ≡ 0
    pub at : At size (suc h) r.nvmeq
    pub later : Serving size entries timeout rdtsec 0 (suc h) ids r.polls

  poll_loop-Seen :
      (endtsc h id : ℕ) (ids : List ℕ) (ps : List Poll) (n : NvmeQueue) (rings : List Ring)
      → Serving size entries timeout rdtsec endtsc h (id ∷ ids) ps
      → At size h n
      → (r : Polled) × (poll_loop ps n timeout rdtsec endtsc rings ≡ some r) × Seen n h id ids r
  poll_loop-Seen endtsc h id ids _ n rings (early _ _ _ p ps on e l more) at =
      let (none_yet, same) = check_completion-idle size h h entries n positive at refl in
      let (rings', e') =
        loop-idle p ps n timeout rdtsec endtsc rings (rw e none_yet) (rw e same) on l in
      let (r, e'', seen) =
        poll_loop-Seen (deadline endtsc p.start timeout rdtsec) h id ids ps n rings' more at in
      (r, e' ∙ e'', seen)
  poll_loop-Seen endtsc h id ids _ n rings (answer _ _ k _ _ p ps new room e named good more) at =
      let (here, next) = check_completion-posted size h k entries n positive at new room in
      let (r, e', found, queue, polls) =
        loop-found p ps n timeout rdtsec endtsc rings (report entries h) (rw e here) in
      (
        r,
        e',
        record {
          found = found;
          named = named;
          good = good;
          at = rw (queue, e) next;
          later = rw polls more;
        },
      )

  -- The state `t` is `s` with the id `id` completed.
  pub record Served (s t : Io) (h id : ℕ) (ids xs ys : List ℕ) : Type 0 where
    pub valid : IsQueue t.queue xs ys
    pub fewer : suc t.queue.cidcount ≡ s.queue.cidcount
    pub others :
        (j : ℕ) → mask_test t.queue.cidmask j ≡ (not (id == j) && mask_test s.queue.cidmask j)
    pub mine :
        (x j : ℕ)
        → mask_test (t.queue.desc x).cidmask j ≡ true
        → mask_test (s.queue.desc x).cidmask j ≡ true
    pub good : stat_of (entries h) ≡ 0
    pub clock : t.rdtsec ≡ rdtsec
    pub at : At size (suc h) t.queue.nvmeq
    pub later : Serving size entries timeout rdtsec 0 (suc h) ids t.polls

  pub check_completion-Served :
      (s : Io) (h id : ℕ) (ids xs ys : List ℕ)
      → IsQueue s.queue xs ys
      → s.rdtsec ≡ rdtsec
      → At size h s.queue.nvmeq
      → mask_test s.queue.cidmask id ≡ true
      → Serving size entries timeout rdtsec 0 h (id ∷ ids) s.polls
      → (t : Io) × (check_completion timeout s ≡ ok (status_of (report entries h)) t)
        × Served s t h id ids xs ys
  unfolding after_loop
  check_completion-Served s h id ids xs ys inv clock at used device =
      let (r, e, seen) = poll_loop-Seen 0 h id ids s.polls s.queue.nvmeq s.rings device at in
      let (t, e', k) =
        complete-Released (after_loop s r) xs ys (nvmeq-IsQueue s.queue xs ys r.nvmeq inv)
          (report entries h) (rw seen.named used) in
      let e'' = ap (λ (w : ℕ). poll_loop s.polls s.queue.nvmeq timeout w 0 s.rings) clock ∙ e in
      (
        t,
        check-found s timeout r (report entries h) _ e'' seen.found e',
        record {
          valid = k.valid;
          fewer = k.fewer;
          others = λ j.
              k.bits j ∙ ap (λ (w : ℕ). not (w == j) && mask_test s.queue.cidmask j) seen.named;
          mine = k.mine;
          good = seen.good;
          clock = k.clock ∙ clock;
          at = rw k.nvmeq seen.at;
          later = rw k.polls seen.later;
        },
      )
