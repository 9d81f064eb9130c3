-- ===== src/Aurora.antt =====
-- The I/O region and the device's registers, in src/aurora_pci.c, and the device of
-- src/unvme_vfio.c that is built on them. What mmap and the ve_ functions of the platform return is
-- given, and their calls are collected in a list, oldest first.
pub mod Registered
pub mod Ready
pub mod Device
pub mod Transfer
pub mod Second
pub mod Controller
pub mod Tests
use sxaurora_unvme.Base.{
  ℕ, ◌+◌, ◌-◌, ◌*◌, ◌/◌, ◌%◌, ◌^◌, List, [], ◌∷◌, ◌++◌, map, Bool, true, false, Option, none, some,
  ◌==◌, if◌then◌else◌,
}
use sxaurora_unvme.Core.Prps.{Region, max_size}
use sxaurora_unvme.Buddy.Threads.{Shared, shared_init}
use sxaurora_unvme.Session.Types.{Outcome, returns, aborts, exits, faults, then_do}

-- SIZE_64M
abbrev pub size_64m : ℕ
size_64m = 2 ^ 26

-- `(uint64_t)-1`
abbrev pub minus_one : ℕ
minus_one = 2 ^ 64 - 1

-- A line of the file .vhsaa_registration_log: memory that the device can reach.
pub record Registration : Type 0 where
  pub vhsaa : ℕ
  pub size : ℕ

-- A call of the platform, with what it has returned: whether the two that take a registration back
-- have succeeded.
pub data Call : Type 0 where
  register_mem : Registration → Call
  unregister_mem : Registration → Bool → Call
  register_pci : (vhsaa vehva : ℕ) → Call
  unregister_pci : (vehva : ℕ) → Bool → Call
  mmap : (vemva : ℕ) → Call
  munmap : (vemva : ℕ) → Call

-- The variables of aurora_pci.c, with the lists of the allocator; the file, which is `none` where
-- there is none; and the calls so far.
pub record Aurora : Type 0 where
  pub vehva : ℕ
  pub pci_vhsaa : ℕ
  pub vemva : ℕ
  pub heap : Shared
  pub file : Option (List Registration)
  pub calls : List Call

-- The region for aurora_resolve_addr and aurora_mem_alloc
abbrev pub region_of : Aurora → Region
region_of a = record { vemva = a.vemva; pci_vhsaa = a.pci_vhsaa }

-- vhsa_release(): it reads the file to its end, and then empties it. A file that fopen cannot open is
-- read through a null pointer.
unfoldable pub vhsa_release : (ok : Registration → Bool) → Aurora → Outcome Aurora
vhsa_release ok a = elim a.file [
  | none ↦ faults
  | some lines ↦
      returns
        (record a { file = some []; calls = a.calls ++ map (λ g. unregister_mem g (ok g)) lines })
]

-- What a call returns, and the state behind it.
pub record Done : Type 0 where
  pub ret : ℕ
  pub state : Aurora

-- What the platform answers to aurora_init: what mmap and ve_register_mem_to_pci return, and which
-- registrations can be taken back.
pub record InitInput : Type 0 where
  pub mapped : ℕ
  pub vhsaa : ℕ
  pub ok : Registration → Bool

-- `vemva = mmap(…)`
unfoldable pub map_region : InitInput → Aurora → Aurora
map_region i a = record a { vemva = i.mapped; calls = a.calls ++ mmap i.mapped ∷ [] }

-- `pci_vhsaa = ve_register_mem_to_pci(…)`, and the line of the file, which fopen makes if it must
unfoldable pub register_region : InitInput → Aurora → Aurora
register_region i a =
    let g : Registration = record { vhsaa = i.vhsaa; size = max_size } in
    let lines : List Registration = elim a.file [ none ↦ [] | some ls ↦ ls ] in
    record a {
      pci_vhsaa = i.vhsaa;
      calls = a.calls ++ register_mem g ∷ [];
      file = if i.vhsaa == minus_one then a.file else some (lines ++ g ∷ []);
    }

-- The end of aurora_init: the allocator
unfoldable pub start_heap : Aurora → Outcome Done
start_heap a = elim (shared_init a.vemva max_size a.heap) [
  | none ↦ aborts
  | some h ↦ returns (record { ret = 1; state = record a { heap = h } })
]

-- aurora_init()
unfoldable pub aurora_init : InitInput → Aurora → Outcome Done
aurora_init i a = then_do (vhsa_release i.ok a) (λ b.
    let m = map_region i b in
    let g = register_region i m in
    if i.mapped == 0
    then returns (record { ret = 0; state = m })
    else if i.vhsaa == minus_one
    then returns (record { ret = 0; state = g })
    else start_heap g)

-- aurora_map(address), where `exists` is whether /dev/uio0 is a device, and `vehva` what
-- ve_register_pci_to_vehva returns
unfoldable pub aurora_map : (exists : Bool) → (vehva address : ℕ) → Aurora → Outcome Done
aurora_map exists vehva address a =
    let b = record a {
      vehva = vehva;
      calls = a.calls ++ register_pci (address / size_64m * size_64m) vehva ∷ [];
    } in
    if exists
    then returns (record {
      ret = if vehva == minus_one then minus_one else (vehva + address % size_64m) % 2 ^ 64;
      state = b;
    })
    else exits

-- The end of aurora_release: `munmap(…)` and vhsa_release
unfoldable pub release_mem : (ok : Registration → Bool) → Aurora → Outcome Done
release_mem ok a =
    then_do (vhsa_release ok (record a { calls = a.calls ++ munmap a.vemva ∷ [] }))
      (λ b. returns (record { ret = 1; state = b }))

-- aurora_release(), where `pci_ok` is whether ve_unregister_pci_from_vehva succeeds
unfoldable pub aurora_release : (pci_ok : Bool) → (ok : Registration → Bool) → Aurora → Outcome Done
aurora_release pci_ok ok a =
    let b = record a { calls = a.calls ++ unregister_pci a.vehva pci_ok ∷ [] } in
    if a.vehva == 0
    then release_mem ok a
    else if pci_ok
    then release_mem ok b
    else returns (record { ret = 0; state = b })

-- `vfio_device_t`, less its mutex
pub record VfioDevice : Type 0 where
  pub pci : ℕ
  pub ext : ℕ

-- A device, or NULL, and the state behind the call
pub record VfioCreated : Type 0 where
  pub dev : Option VfioDevice
  pub state : Aurora

-- vfio_create(dev, pci), where `ext` is 1 if the caller gives the memory, and `mutex_ok` is whether
-- pthread_mutex_init succeeds
unfoldable pub vfio_create :
    InitInput → (mutex_ok : Bool) → (ext pci : ℕ) → Aurora → Outcome VfioCreated
vfio_create i mutex_ok ext pci a =
    let dev : VfioDevice = record { pci = pci; ext = ext } in
    if mutex_ok
    then then_do (aurora_init i a)
        (λ d. if d.ret == 0 then exits else returns (record { dev = some dev; state = d.state }))
    else returns (record { dev = none; state = a })

-- Whether the device is freed, and the state behind the call
pub record VfioDeleted : Type 0 where
  pub freed : Bool
  pub state : Aurora

-- vfio_delete(dev)
unfoldable pub vfio_delete :
    (pci_ok : Bool) → (ok : Registration → Bool) → Option VfioDevice → Aurora → Outcome VfioDeleted
vfio_delete pci_ok ok none a = returns (record { freed = false; state = a })
vfio_delete pci_ok ok (some dev) a =
    then_do (aurora_release pci_ok ok a) (λ d.
      if d.ret == 0 then exits else returns (record { freed = dev.ext == 0; state = d.state }))
