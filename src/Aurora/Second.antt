-- ===== src/Aurora/Second.antt =====
-- A second aurora_init of src/aurora_pci.c, as vfio_create in src/unvme_vfio.c calls it for a second device.
use sxaurora_unvme.Base.{
  ℕ, ◌+◌, ◌-◌, ◌<◌, ◌≤◌, ◌≡◌, ◌≢◌, ◌⊎◌, inl, inr, List, [], ◌∷◌, ◌++◌, true, none, ltb, ◌||◌, arith,
  refl, subst,
}
use sxaurora_unvme.Core.Prps.{max_size, resolve_addr}
use sxaurora_unvme.Session.Types.{returns}
use sxaurora_unvme.Session.Refs.{Returns, of_Returns, both-Returns, map-Returns}
use sxaurora_unvme.Buddy.Memory.{Dma}
use sxaurora_unvme.Buddy.Threads.{Shared}
use sxaurora_unvme.Buddy.Shared.{IsShared}
use sxaurora_unvme.Buddy.Runs.{Runs}
use sxaurora_unvme.Aurora.{minus_one, Aurora, region_of, Done, InitInput, aurora_init}
use sxaurora_unvme.Aurora.Registered.{registered, IsLogged, Releases, aurora_init-registered}
use sxaurora_unvme.Aurora.Ready.{Serves, Started-Loans, aurora_init-Serves}
use sxaurora_unvme.Aurora.Transfer.{byte-within, size-pos}

-- What an aurora_init leaves that has mapped and registered its region.
record Fresh (i : InitInput) (d : Done) : Type 0 where
  one : registered d.state.calls ≡ (record { vhsaa = i.vhsaa; size = max_size }) ∷ []
  logged : IsLogged d.state
  serves : Serves i d

aurora_init-Fresh :
    (i : InitInput) (a : Aurora)
    → IsShared a.heap
    → IsLogged a
    → Releases i.ok (registered a.calls)
    → i.mapped ≢ 0
    → i.vhsaa ≢ minus_one
    → Returns (Fresh i) (aurora_init i a)
aurora_init-Fresh i a threads log h mapped made =
    map-Returns _ _ _
      (both-Returns _ _ _ (aurora_init-registered i a threads log h)
        (aurora_init-Serves i a (registered a.calls) threads log mapped made))
      (λ d k. elim k.0 [
        | inl (_, n) ↦ record { one = n.one; logged = n.logged; serves = k.1 }
        | inr (_, why, _, _) ↦ elim why [
          | inl null ↦ absurd (mapped null)
          | inr failed ↦ absurd (made failed)
        ]
      ])

-- An address that is not in the region, nor right behind it.
outside :
    (a : Aurora) (buf : ℕ)
    → (buf < a.vemva) ⊎ (a.vemva + max_size < buf)
    → resolve_addr (region_of a) buf ≡ none
unfolding resolve_addr
outside a buf (inl below) =
    let e : (ltb buf a.vemva || ltb max_size (buf - a.vemva)) ≡ true = ground (arith, below) in
    rw e refl
outside a buf (inr above) =
    let e : (ltb buf a.vemva || ltb max_size (buf - a.vemva)) ≡ true = ground (arith, above) in
    rw e refl

module _ (i j : InitInput) (a : Aurora) (d : Done) (s : Shared) (before after : List Dma)
    (buf : Dma) (threads : IsShared a.heap) (log : IsLogged a)
    (free : Releases i.ok (registered a.calls)) (mapped : i.mapped ≢ 0) (made : i.vhsaa ≢ minus_one)
    (init : aurora_init i a ≡ returns d)
    (runs : Runs (region_of d.state) d.state.heap s (before ++ buf ∷ after))
    (mapped' : j.mapped ≢ 0) (made' : j.vhsaa ≢ minus_one)
    (frees : j.ok (record { vhsaa = i.vhsaa; size = max_size }) ≡ true)
    (apart : (i.mapped + max_size ≤ j.mapped) ⊎ (j.mapped + max_size < i.mapped)) where
  -- After an aurora_init that has succeeded, from a state in which the file has what is
  -- registered, the allocator's lock is free and each thread has lists of its own, and a run of
  -- the allocator: a second aurora_init that maps another region, not right before the first,
  -- takes the first registration back and registers its own, returns 1; the first region is not
  -- registered any more, and aurora_resolve_addr aborts for each buffer that was taken from it.
  pub second-aborts :
      Returns
        (λ e.
          (e.ret ≡ 1)
          × (registered e.state.calls ≡ (record { vhsaa = j.vhsaa; size = max_size }) ∷ [])
          × (resolve_addr (region_of e.state) buf.buf ≡ none))
        (aurora_init j (record d.state { heap = s }))
  second-aborts =
      let first =
        of_Returns (Fresh i) d
          (subst (Returns (Fresh i)) init (aurora_init-Fresh i a threads log free mapped made)) in
      let loans = Started-Loans d.state first.serves.started s (before ++ buf ∷ after) runs in
      let (low, high) =
        byte-within d.state s before after buf loans buf.buf (omega arith)
          (omega (arith, size-pos d.state s before after buf loans)) in
      map-Returns _ _ _
        (aurora_init-Fresh j (record d.state { heap = s }) loans.shared first.logged
          (rw first.one (frees, tt)) mapped' made')
        (λ e k. (
          k.serves.one,
          k.one,
          outside e.state buf.buf (elim apart [
            | inl up ↦ inl (omega (arith, up, high, first.serves.at, k.serves.at))
            | inr down ↦ inr (omega (arith, down, low, first.serves.at, k.serves.at))
          ]),
        ))
