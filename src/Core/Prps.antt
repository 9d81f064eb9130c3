-- ===== src/Core/Prps.antt =====
-- unvme_map_dma and unvme_map_prps: from a buffer to the PRP entries of a command; with
-- aurora_resolve_addr of src/aurora_pci.c.
use sxaurora_unvme.Base.{
  ℕ, zero, suc, ◌+◌, ◌-◌, ◌*◌, ◌/◌, ◌%◌, ◌^◌, ◌&&◌, ◌||◌, Option, none, some, ◌==◌, ltb,
  if◌then◌else◌,
}
use sxaurora_unvme.Core.State.{Queue, ok, fatal, Cmd, with_queue}

-- The I/O region: `vemva`, where it is mapped, and `pci_vhsaa`, its DMA address.
pub record Region : Type 0 where
  pub vemva : ℕ
  pub pci_vhsaa : ℕ

-- MAX_SIZE
abbrev pub max_size : ℕ
max_size = 2 ^ 26 * 512

-- aurora_resolve_addr(buf); `none`: it aborts.
unfoldable pub resolve_addr : Region → ℕ → Option ℕ
resolve_addr r buf =
    if ltb buf r.vemva || ltb max_size (buf - r.vemva)
    then none
    else some ((r.pci_vhsaa + (buf - r.vemva)) % 2 ^ 64)

-- The fields of `unvme_ns_t` that I/O uses.
pub record Namespace : Type 0 where
  pub id : ℕ
  pub pagesize : ℕ
  pub pageshift : ℕ
  pub blockshift : ℕ
  pub maxbpio : ℕ

-- `for (…) { addr += ns->pagesize; *prplist++ = addr; }`, `count` rounds from index `idx` on
unfoldable pub write_prps : (count pagesize idx addr : ℕ) → (ℕ → ℕ) → ℕ → ℕ
write_prps zero pagesize idx addr mem = mem
write_prps (suc count) pagesize idx addr mem =
    let addr' = (addr + pagesize) % 2 ^ 64 in
    write_prps count pagesize (idx + 1) addr' (λ i. if i == idx then addr' else mem i)

-- `(bufsz + ns->pagesize - 1) >> ns->pageshift`, a u64 that is stored in an `int`; from 2 ^ 31 on
-- it is negative.
unfoldable pub numpages : Namespace → ℕ → ℕ
numpages ns bufsz = (bufsz + ns.pagesize - 1) % 2 ^ 64 / 2 ^ ns.pageshift % 2 ^ 32

pub record Prps : Type 0 where
  pub prp1 : ℕ
  pub prp2 : ℕ
  pub mem : ℕ → ℕ

-- The part behind unvme_map_dma, with the DMA address of the buffer.
unfoldable pub prps_at : Namespace → Queue → (cid addr bufsz : ℕ) → Prps
unfolding numpages write_prps
prps_at ns q cid addr bufsz =
    let n = numpages ns bufsz in
    let prpoff = cid * 2 ^ ns.pageshift in
    if n == 2
    then record { prp1 = addr; prp2 = (addr + ns.pagesize) % 2 ^ 64; mem = q.prpmem }
    else if ltb 2 n && ltb n (2 ^ 31)
    then record {
      prp1 = addr;
      prp2 = (q.prpaddr + prpoff) % 2 ^ 64;
      mem = write_prps (n - 1) ns.pagesize (prpoff / 8) addr q.prpmem;
    }
    else record { prp1 = addr; prp2 = 0; mem = q.prpmem }

-- unvme_map_prps(ns, q, cid, buf, bufsz, &prp1, &prp2); `none` where it returns -1
unfoldable pub map_prps : Region → Namespace → (cid buf bufsz : ℕ) → Cmd (Option Prps)
unfolding resolve_addr prps_at
map_prps r ns cid buf bufsz s = elim (resolve_addr r buf) [
  | none ↦ fatal
  | some addr ↦
      let m = prps_at ns s.queue cid addr bufsz in
      if addr == 2 ^ 64 - 1
      then ok none s
      else ok (some m) (with_queue s (record s.queue { prpmem = m.mem }))
]
