-- ===== src/Buddy/Shared.antt =====
-- The allocator of src/aurora_pci.c in a run of several threads: no two buffers share a byte, and no
-- two threads share a list.
use sxaurora_unvme.Base.{
  ℕ, zero, suc, ◌+◌, ◌<◌, ◌≤◌, ◌≡◌, ◌≢◌, false, ◌⊎◌, ◌==◌, leb, [], Option, none, some,
  if◌then◌else◌, arith, refl, length, ap, sym, ◌∙◌, replicate, inl, inr, Option-cases, Bool-cases,
  ℕ_discrete, ne→==-false, eq→==,
}
use sxaurora_unvme.Buddy.{Heap}
use sxaurora_unvme.Buddy.Init.{nothing}
use sxaurora_unvme.Buddy.Cover.{cover, cover_list}
use sxaurora_unvme.Buddy.Memory.{maxbytes, entry_max, get_freelist}
use sxaurora_unvme.Buddy.Behind.{free_at}
use sxaurora_unvme.Buddy.Threads.{Shared, heap_at, with_heap, freelist_at}

abbrev pub sum : (n : ℕ) → (ℕ → ℕ) → ℕ
sum zero f = 0
sum (suc n) f = f n + sum n f

pub sum-same : (n : ℕ) (f g : ℕ → ℕ) → ((j : ℕ) → j < n → g j ≡ f j) → sum n g ≡ sum n f
sum-same zero f g same = refl
sum-same (suc n) f g same =
    omega (arith, same n (omega arith), sum-same n f g (λ j h. same j (omega (arith, h))))

sum-update :
    (n : ℕ) (f g : ℕ → ℕ) (i : ℕ)
    → i < n
    → ((j : ℕ) → j ≢ i → g j ≡ f j)
    → sum n g + f i ≡ sum n f + g i
sum-update zero f g i h same = absurd (omega arith)
sum-update (suc n) f g i h same = elim (ℕ_discrete n i) [
  | yes here ↦
      let s = sum-same n f g (λ j below. same j (λ e. omega (arith, below, e, here))) in
      omega (arith, s, ap f here, ap g here)
  | no other ↦ omega (arith, same n other, sum-update n f g i (ground (arith, h, other)) same)
]

sum-ge : (n : ℕ) (f : ℕ → ℕ) (i : ℕ) → i < n → f i ≤ sum n f
sum-ge zero f i h = absurd (omega arith)
sum-ge (suc n) f i h = elim (ℕ_discrete n i) [
  | yes here ↦ omega (arith, ap f here)
  | no other ↦ omega (arith, sum-ge n f i (ground (arith, h, other)))
]

-- How many free blocks, of all threads and of the global list, have the byte at `a`.
unfoldable pub shared_free : (a : ℕ) → Shared → ℕ
shared_free a s = sum 16 (λ i. cover 512 a (s.lists_of i)) + cover_list maxbytes a s.free_list

-- There are at most 16 threads, each with an index of its own; the lists of the indices that are given
-- out are there, and no others; the lock is free.
pub record IsShared (s : Shared) : Type 0 where
  pub few : s.current ≤ 16
  pub quiet : s.lock ≡ false
  pub used : (i : ℕ) → i < s.current → length (s.lists_of i) ≡ entry_max
  pub unused : (i : ℕ) → s.current ≤ i → s.lists_of i ≡ []
  pub indexed : (t i : ℕ) → s.index_of t ≡ some i → i < s.current
  pub apart : (t u i : ℕ) → s.index_of t ≡ some i → s.index_of u ≡ some i → t ≡ u

pub free_with_heap :
    (a i : ℕ) (s : Shared) (h : Heap)
    → i < 16
    → shared_free a (with_heap s i h) + free_at maxbytes a (heap_at s i)
      ≡ shared_free a s + free_at maxbytes a h
unfolding shared_free free_at
free_with_heap a i s h small =
    let f : ℕ → ℕ = λ j. cover 512 a (s.lists_of j) in
    let g : ℕ → ℕ = λ j. cover 512 a ((with_heap s i h).lists_of j) in
    let others : (j : ℕ) → j ≢ i → g j ≡ f j = λ j other. rw (ne→==-false j i other) refl in
    let here : g i ≡ cover 512 a h.lists = rw (eq→== i i refl) refl in
    let k = sum-update 16 f g i small others in omega (arith, k, here)

pub free_heap_at :
    (a i : ℕ) (s : Shared) → i < 16 → free_at maxbytes a (heap_at s i) ≤ shared_free a s
unfolding shared_free free_at
free_heap_at a i s small = omega (arith, sum-ge 16 (λ j. cover 512 a (s.lists_of j)) i small)

pub with_heap-IsShared :
    (i : ℕ) (s : Shared) (h : Heap)
    → IsShared s
    → i < s.current
    → length h.lists ≡ length (s.lists_of i)
    → h.locked ≡ false
    → IsShared (with_heap s i h)
with_heap-IsShared i s h k small same free = record {
  quiet = free;
  few = k.few;
  used = λ j below. elim (ℕ_discrete j i) [
    | yes here ↦ rw (eq→== j i here) (same ∙ k.used i small)
    | no other ↦ rw (ne→==-false j i other) (k.used j below)
  ];
  unused = λ j above. rw (ne→==-false j i (λ e. omega (arith, small, above, e))) (k.unused j above);
  indexed = k.indexed;
  apart = k.apart;
}

-- What get_freelist does: it gives the thread an index, and frees and takes nothing.
pub record Listed (t : ℕ) (s : Shared) (g : record { index : ℕ; state : Shared }) : Type 0 where
  pub shared : IsShared g.state
  pub small : g.index < g.state.current
  pub bytes : (a : ℕ) → shared_free a g.state ≡ shared_free a s
  pub global : g.state.free_list ≡ s.free_list

new_lists : (i : ℕ) → (t : ℕ) → Shared → Shared
new_lists i t s = record s {
  lists_of = λ j. if j == i then replicate entry_max [] else s.lists_of j;
  current = s.current + 1;
  index_of = λ u. if u == t then some i else s.index_of u;
}

-- Who has index `i` then: the thread, with the new one, or another, as before.
new_index :
    (t u i : ℕ) (s : Shared)
    → (new_lists s.current t s).index_of u ≡ some i
    → ((u ≡ t) × (i ≡ s.current)) ⊎ (s.index_of u ≡ some i)
unfolding new_lists
new_index t u i s h = elim (ℕ_discrete u t) [
  | yes me ↦
      let made : some s.current ≡ some i = sym (rw (eq→== u t me) refl) ∙ h in
      inl (me, ground (arith, made))
  | no other ↦
      let old : (new_lists s.current t s).index_of u ≡ s.index_of u =
        rw (ne→==-false u t other) refl in
      inr (sym old ∙ h)
]

new_lists-Listed :
    (t : ℕ) (s : Shared)
    → IsShared s
    → s.current < 16
    → Listed t s (record { index = s.current; state = new_lists s.current t s })
unfolding new_lists shared_free entry_max
new_lists-Listed t s k room = record {
  shared = record {
    few = omega (arith, room);
    quiet = k.quiet;
    used = λ j below. elim (ℕ_discrete j s.current) [
      | yes here ↦ rw (eq→== j s.current here) refl
      | no other ↦ rw (ne→==-false j s.current other) (k.used j (ground (arith, below, other)))
    ];
    unused = λ j above.
        rw (ne→==-false j s.current (λ e. omega (arith, above, e)))
          (k.unused j (omega (arith, above)));
    indexed = λ u i h. elim (new_index t u i s h) [
      | inl (me, at) ↦ omega (arith, at)
      | inr old ↦ omega (arith, k.indexed u i old)
    ];
    apart = λ u v i h h'. elim (new_index t u i s h) [
      | inl (me, at) ↦ elim (new_index t v i s h') [
        | inl (me', _) ↦ me ∙ sym me'
        | inr old ↦ absurd (omega (arith, at, k.indexed v i old))
      ]
      | inr old ↦ elim (new_index t v i s h') [
        | inl (_, at) ↦ absurd (omega (arith, at, k.indexed u i old))
        | inr old' ↦ k.apart u v i old old'
      ]
    ];
  };
  small = omega arith;
  global = refl;
  bytes = λ a.
      let f : ℕ → ℕ = λ j. cover 512 a (s.lists_of j) in
      let g : ℕ → ℕ = λ j. cover 512 a ((new_lists s.current t s).lists_of j) in
      let same : (j : ℕ) → g j ≡ f j = λ j. elim (ℕ_discrete j s.current) [
        | yes here ↦
            rw (eq→== j s.current here, k.unused j (omega (arith, here))) (nothing entry_max 512 a)
        | no other ↦ rw (ne→==-false j s.current other) refl
      ] in
      omega (arith, sum-same 16 f g (λ j below. same j));
}

-- The property holds of what a call gives, if it gives anything.
abbrev pub Given : {A : Type 0} → (A → Type 0) → Option A → Type 0
Given P none = Unit {0}
Given P (some x) = P x

pub freelist_at-Listed : (t : ℕ) (s : Shared) → IsShared s → Given (Listed t s) (freelist_at t s)
unfolding freelist_at get_freelist new_lists
freelist_at-Listed t s k = elim (Option-cases (s.index_of t)) [
  | inl fresh ↦ elim (Bool-cases (leb 16 s.current)) [
    | inl full ↦ rw (freelist_at, get_freelist, fresh, full) tt
    | inr room ↦
        rw (freelist_at, get_freelist, fresh, room, fresh, get_freelist, fresh)
          (new_lists-Listed t s k (ground (arith, room)))
  ]
  | inr (i, has) ↦
      rw (freelist_at, get_freelist, has, has)
        (record { shared = k; small = k.indexed t i has; bytes = λ a. refl; global = refl })
]

-- It aborts only if all indices are given out.
pub freelist_at-full : (t : ℕ) (s : Shared) → freelist_at t s ≡ none → 16 ≤ s.current
unfolding freelist_at get_freelist
freelist_at-full t s e = elim (Option-cases (s.index_of t)) [
  | inl fresh ↦ elim (Bool-cases (leb 16 s.current)) [
    | inl full ↦ ground (arith, full)
    | inr room ↦
        let made : freelist_at t s
            ≡ some (record { index = s.current; state = new_lists s.current t s }) =
          unfold new_lists in
          rw (freelist_at, get_freelist, fresh, room, fresh, get_freelist, fresh) refl in
        let bad = sym made ∙ e in ground (arith, bad)
  ]
  | inr (i, has) ↦
      let made : freelist_at t s ≡ some (record { index = i; state = s }) =
        rw (freelist_at, get_freelist, has, has) refl in
      let bad = sym made ∙ e in ground (arith, bad)
]
