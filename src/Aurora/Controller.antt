-- ===== src/Aurora/Controller.antt =====
-- The whole of nvme_create, in src/unvme_nvme.c: it maps the registers of the controller by aurora_map of
-- src/aurora_pci.c, at a fixed address, and then reads them.
use sxaurora_unvme.Base.{
  ℕ, ◌+◌, ◌%◌, ◌≡◌, ◌≢◌, ◌<◌, ◌^◌, Bool, true, Option, none, some, ◌==◌, if◌then◌else◌, arith, refl,
  [], ◌∷◌, ◌++◌, ne→==-false,
}
use sxaurora_unvme.Nvme.Setup.{NvmeDevice, nvme_create}
use sxaurora_unvme.Session.Types.{Outcome, returns, then_do}
use sxaurora_unvme.Aurora.{minus_one, size_64m, Aurora, register_pci, Done, aurora_map}

-- What the three reads of the registers give, and what rdtsc_second returns.
pub record Registers : Type 0 where
  pub cap : ℕ
  pub cmbloc : ℕ
  pub cmbsz : ℕ
  pub rdtsec : ℕ

-- `nvme_device_t` after nvme_create: also the address of the registers, and those of the controller
-- memory buffer
pub record Mapped : Type 0 where
  pub reg : ℕ
  pub fields : NvmeDevice
  pub cmbloc : ℕ
  pub cmbsz : ℕ

-- A device context, or NULL, and the state behind the call
pub record NvmeCreated : Type 0 where
  pub dev : Option Mapped
  pub state : Aurora

-- nvme_create(dev, mapfd); MAP_FAILED is -1.
unfoldable pub create_mapped :
    (exists : Bool) → (vehva : ℕ) → Registers → Aurora → Outcome NvmeCreated
create_mapped exists vehva r a = then_do (aurora_map exists vehva 0x9d110000 a) (λ (d : Done).
    let dev : Mapped = record {
      reg = d.ret;
      fields = nvme_create r.cap r.rdtsec;
      cmbloc = r.cmbloc;
      cmbsz = r.cmbsz;
    } in
    returns (record { dev = if d.ret == minus_one then none else some dev; state = d.state }))

-- The offset of the registers in the 64 MB that are mapped.
abbrev pub reg_offset : ℕ
reg_offset = 0x1110000

-- Where the 64 MB are mapped below the end of the addresses, the registers are at their offset in
-- these, and the call maps the 64 MB that they are in.
create_mapped-window :
    (vehva : ℕ) (r : Registers) (a : Aurora)
    → vehva + size_64m < 2 ^ 64
    → create_mapped true vehva r a
      ≡ returns (record {
        dev = some (record {
          reg = vehva + reg_offset;
          fields = nvme_create r.cap r.rdtsec;
          cmbloc = r.cmbloc;
          cmbsz = r.cmbsz;
        });
        state = record a { vehva = vehva; calls = a.calls ++ register_pci 0x9c000000 vehva ∷ [] };
      })
unfolding create_mapped aurora_map
create_mapped-window vehva r a low =
    let live : vehva ≢ minus_one = λ e. omega (arith, low, e) in
    let at : (vehva + reg_offset) % 2 ^ 64 ≡ vehva + reg_offset = omega (arith, low) in
    let fine : vehva + reg_offset ≢ minus_one = λ e. omega (arith, low, e) in
    rw (ne→==-false vehva minus_one live, at, ne→==-false (vehva + reg_offset) minus_one fine) refl
