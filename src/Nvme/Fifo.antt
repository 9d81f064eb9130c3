-- ===== src/Nvme/Fifo.antt =====
-- A completion queue is a FIFO: the driver sees each completion that the device posts once, in
-- order, and nothing else.
use sxaurora_unvme.Base.{
  ℕ, zero, suc, ◌+◌, ◌-◌, ◌*◌, ◌/◌, ◌%◌, ◌<◌, ◌≤◌, ◌≡◌, none, some, ◌==◌, if◌then◌else◌, arith,
  refl, dec_lt, ℕ_discrete,
}
use sxaurora_unvme.Base.Modular.{slot-ne, slot-lap, lap-lap, slot-suc, lap-suc}
use sxaurora_unvme.Base.Bits.{bit_and-even}
use native.Mathlib.Nat.{mod-eq_of_lt, div-eq_of_lt}
use sxaurora_unvme.Nvme.Types.{NvmeQueue, CqEntry, CqMemory, zero_entry, stat_of, phase_of}
use sxaurora_unvme.Nvme.Queue.{nvme_check_completion, Completion}

-- What the device does: the n-th completion goes to slot `n % size`, with the phase bit 1 on the
-- even laps and 0 on the odd ones. `entries` gives the completions with the phase bit clear.
abbrev pub tagged : ℕ → (ℕ → CqEntry) → ℕ → CqEntry
tagged size entries n = record (entries n) { psf = (entries n).psf / 2 * 2 + (n / size + 1) % 2 }

-- The completion queue memory after `k` completions.
pub posted : ℕ → (ℕ → CqEntry) → ℕ → CqMemory
posted size entries zero i = zero_entry
posted size entries (suc k) i =
    if i == k % size then tagged size entries k else posted size entries k i

-- The driver has consumed `h` completions.
pub record At (size h : ℕ) (q : NvmeQueue) : Type 0 where
  pub depth : q.size ≡ size
  pub head : q.cq_head ≡ h % size
  pub phase : q.cq_phase ≡ h / size % 2

posted-recent :
    (size : ℕ) (entries : ℕ → CqEntry) (k j : ℕ)
    → 0 < size
    → j < k
    → k ≤ j + size
    → posted size entries k (j % size) ≡ tagged size entries j
unfolding posted
posted-recent size entries zero j p h w = absurd (omega arith)
posted-recent size entries (suc k) j p h w = elim (ℕ_discrete j k) [
  | yes e ↦ ground arith
  | no ne ↦ ground (arith, slot-ne size j k, posted-recent size entries k j)
]

posted-first :
    (size : ℕ) (entries : ℕ → CqEntry) (k i : ℕ)
    → i < size
    → k ≤ i
    → posted size entries k i ≡ zero_entry
unfolding posted
posted-first size entries zero i h w = refl
posted-first size entries (suc k) i h w =
    ground (arith, posted-first size entries k i, mod-eq_of_lt {n = k} {m = size} (omega arith))

-- The slot that the driver looks at: the completion that it waits for, once that is posted; before,
-- what an earlier lap has left, which has the phase bit that the driver does not wait for.
slot_new :
    (size h k : ℕ) (entries : ℕ → CqEntry)
    → 0 < size
    → h < k
    → k ≤ h + size
    → posted size entries k (h % size) ≡ tagged size entries h
slot_new size h k entries p new room = posted-recent size entries k h p new room

slot_old :
    (size k : ℕ) (entries : ℕ → CqEntry)
    → 0 < size
    → phase_of (posted size entries k (k % size)) ≡ k / size % 2
slot_old size k entries p = elim (dec_lt k size) [
  | yes first ↦
      rw (mod-eq_of_lt first, posted-first size entries k k first (omega arith), div-eq_of_lt first)
  | no later ↦
      let j : ℕ = k - size in
      let e : k ≡ j + size = omega arith in
      rw
        (
          e,
          slot-lap size j p,
          lap-lap size j p,
          posted-recent size entries (j + size) j p (omega arith) (omega arith),
        )
        (omega arith)
]

-- What the driver is to be told of the n-th completion.
abbrev pub report : (ℕ → CqEntry) → ℕ → Completion
report entries n = record { cid = (entries n).cid; stat = stat_of (entries n); cs = (entries n).cs }

stat-tagged :
    (size n : ℕ) (entries : ℕ → CqEntry) → stat_of (tagged size entries n) ≡ stat_of (entries n)
stat-tagged size n entries = ground (
  arith,
  bit_and-even ((tagged size entries n).psf) 0xfffe,
  bit_and-even ((entries n).psf) 0xfffe,
  half,
)
  where
    half : (tagged size entries n).psf / 2 ≡ (entries n).psf / 2
    half = omega arith

module _ (size h k : ℕ) (entries : ℕ → CqEntry) (q : NvmeQueue) (p : 0 < size)
    (at : At size h q) where
  -- With `k` completions posted and `h` of them seen, fewer than `k` and at most a queue's worth
  -- behind, the check reports the next one and moves on.
  pub check_completion-posted :
      h < k
      → k ≤ h + size
      → ((nvme_check_completion q (posted size entries k)).found ≡ some (report entries h))
        × At size (suc h) (nvme_check_completion q (posted size entries k)).queue
  unfolding nvme_check_completion
  check_completion-posted new room = ground (
    arith,
    slot_new size h k entries p new room,
    stat-tagged size h entries,
    slot-suc size h p,
    lap-suc size h p,
  )

  -- When all have been seen, the check reports nothing and changes nothing.
  pub check_completion-idle :
      h ≡ k
      → ((nvme_check_completion q (posted size entries k)).found ≡ none)
        × ((nvme_check_completion q (posted size entries k)).queue ≡ q)
  unfolding nvme_check_completion
  check_completion-idle all = ground (arith, slot_old size h entries p)
