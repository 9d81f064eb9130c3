-- ===== src/Core/Keep/Complete.antt =====
-- A completion releases its command id, or the driver aborts.
use sxaurora_unvme.Base.{
  ℕ, suc, ◌<◌, ◌≡◌, ◌≢◌, true, false, ◌&&◌, not, List, arith, ◌==◌, refl, Bool-cases, inl, inr,
  some, none, pos, ne→==-false, ==-false→ne, ==→eq, length, ◌*◌, ◌/◌, leb,
}
use sxaurora_unvme.Ring.Shape.{has}
use sxaurora_unvme.CidMask.{mask_test, mask_test-clear}
use sxaurora_unvme.CidMask.Count.{count-pos}
use sxaurora_unvme.Nvme.Queue.{Completion}
use sxaurora_unvme.Core.State.{Io, ok, fatal, with_queue}
use sxaurora_unvme.Core.Complete.{Status, complete, past_masks, release_cid, find_owner}
use sxaurora_unvme.Core.Invariant.{IsQueue, IsPending}
use sxaurora_unvme.Core.Owners.{
  busy, owner, owned-used, not_null, pending-has, none_in_use, has-IsPending,
}
use sxaurora_unvme.Core.Keep.Release.{release_cid-IsQueue}
use sxaurora_unvme.Core.Keep.Walk.{find_owner-some, find_owner-none, skip_done-some}

-- The state `t` is `s` with the id of `c` released, and nothing else of the ids changed.
pub record Released (s t : Io) (c : Completion) (xs ys : List ℕ) : Type 0 where
  pub valid : IsQueue t.queue xs ys
  pub bits :
      (j : ℕ) → mask_test t.queue.cidmask j ≡ (not (c.cid == j) && mask_test s.queue.cidmask j)
  pub fewer : suc t.queue.cidcount ≡ s.queue.cidcount
  pub mine :
      (x j : ℕ)
      → mask_test (t.queue.desc x).cidmask j ≡ true
      → mask_test (s.queue.desc x).cidmask j ≡ true
  pub cid : t.queue.cid ≡ c.cid
  pub nvmeq : t.queue.nvmeq ≡ s.queue.nvmeq
  pub polls : t.polls ≡ s.polls
  pub rings : t.rings ≡ s.rings
  pub clock : t.rdtsec ≡ s.rdtsec

abbrev pub status_of : Completion → Status
status_of c = record { err = pos c.stat; cs = some c.cs }

module _ (s : Io) (xs ys : List ℕ) (inv : IsQueue s.queue xs ys) (c : Completion) where
  open inv use {linked, shared, descs, spare}

  -- An id in use is within the masks.
  used-within : mask_test s.queue.cidmask c.cid ≡ true → past_masks s.queue c.cid ≡ false
  unfolding past_masks
  used-within used =
      let small = shared.low c.cid used in
      let low : c.cid / 64 < s.queue.masksize / 8 = omega (arith, shared.fits, small) in
      ground (arith, low)

  bits_after :
      (p j : ℕ)
      → c.cid < s.queue.size
      → mask_test (release_cid s.queue p c.cid c.stat).cidmask j
        ≡ (not (c.cid == j) && mask_test s.queue.cidmask j)
  unfolding release_cid
  bits_after p j small =
      mask_test-clear s.queue.cidmask c.cid j (omega (arith, shared.width, shared.fits))

  -- No descriptor gains an id.
  mine_after :
      (p x j : ℕ)
      → has p xs ≡ true
      → c.cid < s.queue.size
      → mask_test ((release_cid s.queue p c.cid c.stat).desc x).cidmask j ≡ true
      → mask_test (s.queue.desc x).cidmask j ≡ true
  unfolding release_cid
  mine_after p x j on small own = elim (Bool-cases (x == p)) [
    | inl e ↦
        let fits : c.cid < 64 * length (s.queue.desc p).cidmask =
          omega (arith, (descs p on).width, shared.fits, small) in
        ground (arith, ==→eq x p e, mask_test-clear (s.queue.desc p).cidmask c.cid j fits)
    | inr e ↦ ground arith
  ]

  after-Released :
      (p pend : ℕ)
      → has p xs ≡ true
      → mask_test (s.queue.desc p).cidmask c.cid ≡ true
      → IsPending pend xs
      → Released s
          (with_queue s (record (release_cid s.queue p c.cid c.stat) { descpend = pend }))
          c
          xs
          ys
  unfolding release_cid
  after-Released p pend on own h = record {
    valid = release_cid-IsQueue inv p c.cid c.stat on own pend h;
    bits = λ j. bits_after p j small;
    fewer = omega (arith, shared.counted, count-pos s.queue.size c.cid s.queue.cidmask small used);
    mine = λ x j. mine_after p x j on small;
    cid = refl;
    nvmeq = refl;
    polls = refl;
    rings = refl;
    clock = refl;
  }
    where
      used : mask_test s.queue.cidmask c.cid ≡ true
      used = owned-used shared c.cid p on own

      small : c.cid < s.queue.size
      small = shared.low c.cid used

  finish :
      (p : ℕ)
      → has p xs ≡ true
      → mask_test (s.queue.desc p).cidmask c.cid ≡ true
      → has s.queue.descpend xs ≡ true
      → find_owner s.queue.desccount s.queue c.cid s.queue.descpend ≡ some p
      → (t : Io) × (complete c s ≡ ok (status_of c) t) × Released s t c xs ys
  unfolding complete
  finish p on own head found =
      let live : (s.queue.descpend == 0) ≡ false =
        ne→==-false _ _
          (not_null s.queue.links s.queue.desclist xs s.queue.descpend linked.used head) in
      let r = after-Released p s.queue.descpend on own linked.pending in
      let within = used-within (owned-used shared c.cid p on own) in
      elim (Bool-cases ((release_cid s.queue p c.cid c.stat).cidcount == 0)) [
        | inl quiet ↦
            (with_queue s (release_cid s.queue p c.cid c.stat), rw (live, within, found, quiet), r)
        | inr left ↦
            let mid =
              release_cid-IsQueue inv p c.cid c.stat on own s.queue.descpend linked.pending in
            let (y, on', busy') = busy mid (==-false→ne _ _ left) in
            let (pend, next, on'', _) =
              skip_done-some (release_cid s.queue p c.cid c.stat) xs s.queue.desclist
                mid.linked.used mid.linked.number head y on' busy' in
            (
              with_queue s (record (release_cid s.queue p c.cid c.stat) { descpend = pend }),
              rw (live, within, found, left, next),
              after-Released p pend on own (has-IsPending pend xs on''),
            )
      ]

  -- From a valid queue, a completion of an id that is in use is accepted: the call returns its status,
  -- and releases that id and no other.
  pub complete-Released :
      mask_test s.queue.cidmask c.cid ≡ true
      → (t : Io) × (complete c s ≡ ok (status_of c) t) × Released s t c xs ys
  complete-Released used =
      let (y, on, own) = owner shared c.cid used in
      let head = pending-has s.queue.descpend xs y linked.pending on in
      let (p, found, at, own') =
        find_owner-some s.queue xs s.queue.desclist linked.used linked.number head c.cid y on own in
      finish p at own' head found

  no_owner :
      mask_test s.queue.cidmask c.cid ≡ false
      → find_owner s.queue.desccount s.queue c.cid s.queue.descpend ≡ none
  unfolding find_owner
  no_owner free = elim (Bool-cases (has s.queue.descpend xs)) [
    | inl head ↦
        find_owner-none s.queue xs s.queue.desclist linked.used linked.number head c.cid
          (λ y on. ground (arith, owned-used shared c.cid y on))
    | inr gone ↦
        let e : s.queue.desccount ≡ 0 =
          omega (arith, linked.number, none_in_use s.queue.descpend xs linked.pending gone) in
        rw e refl
  ]

  -- From a valid queue, a completion of an id that is within the masks of the queue, but not in
  -- use, while the pending head is set, aborts the driver.
  pub complete-fatal :
      mask_test s.queue.cidmask c.cid ≡ false
      → c.cid < 64 * (s.queue.masksize / 8)
      → s.queue.descpend ≢ 0
      → complete c s ≡ fatal
  unfolding complete past_masks
  complete-fatal free low live =
      let within : leb (s.queue.masksize / 8) (c.cid / 64) ≡ false = ground (arith, low) in
      rw (ne→==-false _ _ live, within, no_owner free)
