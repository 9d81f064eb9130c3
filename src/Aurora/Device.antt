-- ===== src/Aurora/Device.antt =====
-- vfio_create and vfio_delete of src/unvme_vfio.c: a device takes the I/O region, and gives it back.
use sxaurora_unvme.Base.{ℕ, ◌≡◌, ◌≢◌, ◌==◌, [], ◌∷◌, Bool, true, some, refl, inl, inr, arith}
use sxaurora_unvme.Core.Prps.{max_size}
use sxaurora_unvme.Session.Types.{then_do}
use sxaurora_unvme.Session.Refs.{Returns, did, then_do-Returns}
use sxaurora_unvme.Buddy.Shared.{IsShared}
use sxaurora_unvme.Aurora.{
  minus_one, Registration, Aurora, InitInput, VfioCreated, vfio_create, vfio_delete,
}
use sxaurora_unvme.Aurora.Registered.{
  registered, IsLogged, Releases, aurora_init-registered, aurora_release-registered,
}

-- The device, and the region of it registered.
record Created (i : InitInput) (ext pci : ℕ) (c : VfioCreated) : Type 0 where
  dev : c.dev ≡ some (record { pci = pci; ext = ext })
  one : registered c.state.calls ≡ (record { vhsaa = i.vhsaa; size = max_size }) ∷ []
  logged : IsLogged c.state

vfio_create-Created :
    (i : InitInput) (ext pci : ℕ) (a : Aurora)
    → IsShared a.heap
    → IsLogged a
    → Releases i.ok (registered a.calls)
    → i.mapped ≢ 0
    → i.vhsaa ≢ minus_one
    → Returns (Created i ext pci) (vfio_create i true ext pci a)
unfolding vfio_create
vfio_create-Created i ext pci a threads log h mapped made =
    then_do-Returns _ _ _ _ (aurora_init-registered i a threads log h) (λ d k. elim k [
      | inl (ret, n) ↦ rw (ret) (did _ (record { dev = refl; one = n.one; logged = n.logged }))
      | inr (_, why, _, _) ↦ elim why [
        | inl null ↦ absurd (mapped null)
        | inr failed ↦ absurd (made failed)
      ]
    ])

-- Where mmap, pthread_mutex_init and the registration of the region succeed, and so do the calls
-- that take back the mapping of the registers (ve_unregister_pci_from_vehva), each registration
-- that the file has before, and that of the region: vfio_create, from a state in which the file
-- has what is registered, the allocator's lock is free and each thread has lists of its own,
-- returns a device, and then vfio_delete of it returns, frees it if vfio_create has allocated it,
-- and leaves no memory registered, and the file says so.
pub vfio_delete-vfio_create :
    (i : InitInput) (ext pci : ℕ) (a : Aurora) (ok : Registration → Bool)
    → IsShared a.heap
    → IsLogged a
    → Releases i.ok (registered a.calls)
    → i.mapped ≢ 0
    → i.vhsaa ≢ minus_one
    → ok (record { vhsaa = i.vhsaa; size = max_size }) ≡ true
    → Returns
        (λ f. (f.freed ≡ (ext == 0)) × (registered f.state.calls ≡ []) × IsLogged f.state)
        (then_do (vfio_create i true ext pci a) (λ c. vfio_delete true ok c.dev c.state))
unfolding vfio_delete
vfio_delete-vfio_create i ext pci a ok threads log h mapped made gives_back =
    then_do-Returns _ _ _ _ (vfio_create-Created i ext pci a threads log h mapped made) (λ c k.
      let back : Releases ok (registered c.state.calls) = rw k.one (gives_back, tt) in
      rw (k.dev, vfio_delete)
        (then_do-Returns _ _ _ _ (aurora_release-registered true ok c.state k.logged back) (λ d r.
          elim r [
            | inl (ret, empty, logged) ↦ rw ret (did _ (refl, empty, logged))
            | inr (_, failed, _, _) ↦ absurd (ground (arith, failed))
          ])))
