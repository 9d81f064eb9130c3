-- ===== src/Api/Tests.antt =====
-- Calls of src/unvme.c on small inputs.
use sxaurora_unvme.Api.Memory.{Store, mem_aread, mem_awrite}
use sxaurora_unvme.Api.Stored.{Within, mem_aread-mem_awrite}
use sxaurora_unvme.Base.{◌+◌, inl, ◌≡◌, none, some, pos, arith, refl}
use sxaurora_unvme.Session.Types.{Driver, OpenInput, returns}
use sxaurora_unvme.Session.Limits.{device_name}
use sxaurora_unvme.Api.{PciName, pci_of, openq}
use sxaurora_unvme.Api.Names.{device_name-pci_of}

abbrev name : PciName
name = record { b = 0x5e; d = 0x1f; f = 7 }

-- A queue size of 1 is refused before the lock is taken.
refused_size :
    (i : OpenInput) (d : Driver)
    → openq (record { with_nsid = none; without = some name }) i d (pos 0) (pos 1)
      ≡ returns (record { ret = none; driver = d })
unfolding openq
refused_size i d = refl

device_name-pci_of_example :
    device_name (pci_of name) ≡ record { bus = 0x5e; slot = 0x1f; func = 7 }
device_name-pci_of_example = device_name-pci_of name (omega arith) (omega arith) (omega arith)

-- Two blocks are written at block 6, and three are read from block 5.
abbrev store : Store
store = record { disk = λ a. 7; mem = λ a. a }

abbrev written : Within 6 2
written = record { inside = omega arith; small = omega arith }

mem_aread-mem_awrite_example :
    (t u : Store) × (mem_awrite 512 1000 6 2 store ≡ some t)
    × (mem_aread 512 9000 5 3 t ≡ some u)
    × (u.mem (9000 + 520) ≡ 1008)
    × (u.mem 8000 ≡ 8000)
    × (u.disk ≡ t.disk)
mem_aread-mem_awrite_example =
    mem_aread-mem_awrite 1000 6 2 9000 5 3 520 8000 store written
      (record { inside = omega arith; small = omega arith }) (omega arith) (inl (omega arith))
