-- ===== src/Aurora/Registered.antt =====
-- The memory that the device can reach, by the calls of src/aurora_pci.c.
use sxaurora_unvme.Base.{
  ℕ, ◌≡◌, ◌⊎◌, List, [], ◌∷◌, ◌++◌, map, Bool, true, false, ◌&&◌, some, ◌==◌, if◌then◌else◌, arith,
  refl, ap, sym, ◌∙◌, Bool-cases, inl, inr, ℕ_discrete, eq→==, ==→eq, subst, ne→==-false,
}
use sxaurora_unvme.Core.Prps.{max_size}
use sxaurora_unvme.Session.Refs.{Returns, did, if-Returns, then_do-Returns}
use sxaurora_unvme.Buddy.Threads.{Shared}
use sxaurora_unvme.Buddy.Shared.{IsShared}
use sxaurora_unvme.Buddy.Start.{shared_init-Started}
use sxaurora_unvme.Aurora.{
  minus_one, Registration, Call, register_mem, unregister_mem, register_pci, unregister_pci, mmap,
  munmap, Aurora, vhsa_release, Done, InitInput, map_region, register_region, start_heap,
  aurora_init, release_mem, aurora_release,
}

abbrev same : Registration → Registration → Bool
same g g' = g.vhsaa == g'.vhsaa && g.size == g'.size

abbrev remove : Registration → List Registration → List Registration
remove g [] = []
remove g (g' ∷ gs) = if same g g' then gs else g' ∷ remove g gs

-- The registrations behind a call: -1 is none, and one that cannot be taken back stays.
abbrev pub behind_call : List Registration → Call → List Registration
behind_call gs (register_mem g) = if g.vhsaa == minus_one then gs else gs ++ g ∷ []
behind_call gs (unregister_mem g true) = remove g gs
behind_call gs (unregister_mem g false) = gs
behind_call gs (register_pci vhsaa vehva) = gs
behind_call gs (unregister_pci vehva ok) = gs
behind_call gs (mmap vemva) = gs
behind_call gs (munmap vemva) = gs

abbrev pub registered_from : List Registration → List Call → List Registration
registered_from gs [] = gs
registered_from gs (c ∷ cs) = registered_from (behind_call gs c) cs

-- The memory that is registered after the calls, where none was before.
abbrev pub registered : List Call → List Registration
registered cs = registered_from [] cs

registered_from-append :
    (gs : List Registration) (cs ds : List Call)
    → registered_from gs (cs ++ ds) ≡ registered_from (registered_from gs cs) ds
registered_from-append gs [] ds = refl
registered_from-append gs (c ∷ cs) ds = registered_from-append (behind_call gs c) cs ds

-- The file has the registered memory, in order.
abbrev pub IsLogged : Aurora → Type 0
IsLogged a = a.file ≡ some (registered a.calls)

-- The memory of the file can be taken back.
abbrev pub Releases : (Registration → Bool) → List Registration → Type 0
Releases ok [] = Unit {0}
Releases ok (g ∷ gs) = (ok g ≡ true) × Releases ok gs

remove_first : (g : Registration) (gs : List Registration) → remove g (g ∷ gs) ≡ gs
remove_first g gs = ground arith

-- Taking back all of it, in order, leaves none.
registered-all :
    (ok : Registration → Bool) (gs : List Registration)
    → Releases ok gs
    → registered_from gs (map (λ g. unregister_mem g (ok g)) gs) ≡ []
registered-all ok [] h = refl
registered-all ok (g ∷ gs) h = rw (h.0, remove_first g gs) (registered-all ok gs h.1)

-- Nothing is registered any more, and the file says so.
record Emptied (a b : Aurora) : Type 0 where
  empty : registered b.calls ≡ []
  logged : IsLogged b
  heap : b.heap ≡ a.heap

vhsa_release-Returns :
    (ok : Registration → Bool) (a : Aurora)
    → IsLogged a
    → Releases ok (registered a.calls)
    → Returns (Emptied a) (vhsa_release ok a)
unfolding vhsa_release
vhsa_release-Returns ok a log h =
    let calls = a.calls ++ map (λ g. unregister_mem g (ok g)) (registered a.calls) in
    let none_left : registered calls ≡ [] =
      registered_from-append [] a.calls (map (λ g. unregister_mem g (ok g)) (registered a.calls))
      ∙ registered-all ok (registered a.calls) h in
    rw (vhsa_release, log)
      (did _ (record { empty = none_left; logged = ap some (sym none_left); heap = refl }))

-- The registered memory of an initialized device: the region, and no more.
pub record Initialized (vhsaa : ℕ) (d : Done) : Type 0 where
  pub one : registered d.state.calls ≡ (record { vhsaa = vhsaa; size = max_size }) ∷ []
  pub logged : IsLogged d.state

-- Either aurora_init has succeeded, or one of its two steps has failed and nothing is registered.
abbrev pub Answered : InitInput → Done → Type 0
Answered i d =
    ((d.ret ≡ 1) × Initialized i.vhsaa d)
    ⊎ ((d.ret ≡ 0)
        × ((i.mapped ≡ 0) ⊎ (i.vhsaa ≡ minus_one))
        × (registered d.state.calls ≡ [])
        × IsLogged d.state)

start_heap-Returns :
    (P : Done → Type 0) (a : Aurora)
    → IsShared a.heap
    → ((h : Shared) → P (record { ret = 1; state = record a { heap = h } }))
    → Returns P (start_heap a)
unfolding start_heap
start_heap-Returns P a shared holds =
    let (h, e, _) = shared_init-Started a.vemva max_size a.heap refl shared in
    rw (start_heap, e) (did _ (holds h))

-- What is registered after one more call that registers or does not.
behind_register :
    (cs : List Call) (g : Registration)
    → registered cs ≡ []
    → registered (cs ++ register_mem g ∷ []) ≡ (if g.vhsaa == minus_one then [] else g ∷ [])
behind_register cs g e =
    registered_from-append [] cs (register_mem g ∷ [])
    ∙ ap (λ gs. if g.vhsaa == minus_one then gs else gs ++ g ∷ []) e

-- Where the file has what is registered, and all of it can be taken back, aurora_init returns, 1 with
-- the new region registered and nothing else, or 0 with nothing registered because mmap or the
-- registration has failed; and the file has what is registered.
pub aurora_init-registered :
    (i : InitInput) (a : Aurora)
    → IsShared a.heap
    → IsLogged a
    → Releases i.ok (registered a.calls)
    → Returns (Answered i) (aurora_init i a)
unfolding aurora_init map_region register_region
aurora_init-registered i a threads log h =
    then_do-Returns _ _ _ _ (vhsa_release-Returns i.ok a log h) (λ b k.
      let m = map_region i b in
      let g : Registration = record { vhsaa = i.vhsaa; size = max_size } in
      let before : registered m.calls ≡ [] =
        registered_from-append [] b.calls (mmap i.mapped ∷ []) ∙ k.empty in
      let logged : m.file ≡ some [] = k.logged ∙ ap some k.empty in
      let after = behind_register m.calls g before in
      elim (ℕ_discrete i.mapped 0) [
        | yes null ↦
            rw (eq→== i.mapped 0 null)
              (did _ (inr (refl, inl null, before, logged ∙ ap some (sym before))))
        | no mapped ↦ rw (ne→==-false i.mapped 0 mapped) (elim (Bool-cases (i.vhsaa == minus_one)) [
          | inl failed ↦
              let nothing_there : registered (m.calls ++ register_mem g ∷ []) ≡ [] =
                after ∙ rw failed refl in
              rw failed (
                did _ (
                  inr (
                    refl,
                    inr (==→eq i.vhsaa minus_one failed),
                    nothing_there,
                    logged ∙ ap some (sym nothing_there),
                  )))
          | inr made ↦
              let there : registered (m.calls ++ register_mem g ∷ []) ≡ g ∷ [] =
                after ∙ rw made refl in
              rw made (
                start_heap-Returns _ _ (subst IsShared (sym k.heap) threads) (λ heap.
                  inl (refl, record { one = there; logged = rw logged (ap some (sym there)) })))
        ])
      ])

-- A call that neither registers memory nor takes a registration back.
module _ (ok : Registration → Bool) (a : Aurora) (c : Call)
    (other : (gs : List Registration) → behind_call gs c ≡ gs) where
  same_registered : registered (a.calls ++ c ∷ []) ≡ registered a.calls
  same_registered = registered_from-append [] a.calls (c ∷ []) ∙ other (registered a.calls)

  log-IsLogged : IsLogged a → IsLogged (record a { calls = a.calls ++ c ∷ [] })
  log-IsLogged log = log ∙ ap some (sym same_registered)

  log-Releases : Releases ok (registered a.calls) → Releases ok (registered (a.calls ++ c ∷ []))
  log-Releases h = subst (Releases ok) (sym same_registered) h

-- Either aurora_release has given all memory back, or it has failed before that.
abbrev pub Released : (pci_ok : Bool) → Aurora → Done → Type 0
Released pci_ok a d =
    ((d.ret ≡ 1) × (registered d.state.calls ≡ []) × IsLogged d.state)
    ⊎ ((d.ret ≡ 0)
        × (pci_ok ≡ false)
        × (registered d.state.calls ≡ registered a.calls)
        × IsLogged d.state)

release_mem-Returns :
    (pci_ok : Bool) (ok : Registration → Bool) (a a' : Aurora)
    → IsLogged a
    → Releases ok (registered a.calls)
    → Returns (Released pci_ok a') (release_mem ok a)
unfolding release_mem
release_mem-Returns pci_ok ok a a' log h =
    then_do-Returns _ _ _ _
      (vhsa_release-Returns ok (record a { calls = a.calls ++ munmap a.vemva ∷ [] })
        (log-IsLogged ok a (munmap a.vemva) (λ gs. refl) log)
        (log-Releases ok a (munmap a.vemva) (λ gs. refl) h))
      (λ b k. did _ (inl (refl, k.empty, k.logged)))

-- Where the registrations of the file can be taken back, aurora_release that returns 1 leaves no
-- memory registered, and the file says so. It returns 0 only if the registers of the device stay
-- mapped, and then the memory is registered as before.
pub aurora_release-registered :
    (pci_ok : Bool) (ok : Registration → Bool) (a : Aurora)
    → IsLogged a
    → Releases ok (registered a.calls)
    → Returns (Released pci_ok a) (aurora_release pci_ok ok a)
unfolding aurora_release
aurora_release-registered pci_ok ok a log h =
    if-Returns _ (a.vehva == 0) _ _ (release_mem-Returns pci_ok ok a a log h)
      (elim (Bool-cases pci_ok) [
        | inl fine ↦ rw fine (
            release_mem-Returns true ok _ a
              (log-IsLogged ok a (unregister_pci a.vehva true) (λ gs. refl) log)
              (log-Releases ok a (unregister_pci a.vehva true) (λ gs. refl) h))
        | inr fails ↦ rw fails (
            did _ (
              inr (
                refl,
                refl,
                same_registered ok a (unregister_pci a.vehva false) (λ gs. refl),
                log-IsLogged ok a (unregister_pci a.vehva false) (λ gs. refl) log,
              )))
      ])
