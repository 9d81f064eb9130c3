-- ===== src/Core/Keep/Chunks.antt =====
-- The loop of unvme_do_rw, in src/unvme_core.c: a read or write in chunks.
use sxaurora_unvme.Base.{
  ℕ, zero, suc, ◌+◌, ◌-◌, ◌*◌, ◌%◌, ◌^◌, ◌<◌, ◌≤◌, ◌≡◌, ◌≢◌, true, false, List, arith, ◌==◌, ltb,
  ◌||◌, refl, Bool-cases, ==→eq, ==-false→ne, inl, inr, some, min, ap,
}
use sxaurora_unvme.Ring.Shape.{has}
use sxaurora_unvme.Core.State.{Io, ok}
use sxaurora_unvme.Core.Prps.{Region, Namespace, resolve_addr, max_size}
use sxaurora_unvme.Core.Submit.{rw_loop}
use sxaurora_unvme.Core.Invariant.{IsQueue}
use sxaurora_unvme.Core.Keep.Io.{Submitted, submit_io-Submitted}

-- The DMA address of a buffer in the I/O region.
abbrev pub dma : Region → ℕ → ℕ
dma r buf = r.pci_vhsaa + (buf - r.vemva)

-- From `s` to `t`, commands are sent that cover the `nlb` blocks from `slba` and `buf` on in order,
-- each with as many blocks as a command may have and the rest in the last.
pub data Chunks (r : Region) (ns : Namespace) (p : ℕ) (xs ys : List ℕ)
    : Io → Io → (buf slba nlb : ℕ) → Type 0 where
  over : (s : Io) (buf slba : ℕ) → Chunks r ns p xs ys s s buf slba 0
  chunk :
      (s u t : Io) (buf slba nlb cid : ℕ)
      → nlb ≢ 0
      → Submitted s u ns p cid (dma r buf) slba (min ns.maxbpio nlb) xs ys
      → Chunks r ns p xs ys u t
          (buf + min ns.maxbpio nlb * 2 ^ ns.blockshift)
          ((slba + min ns.maxbpio nlb) % 2 ^ 64)
          (nlb - min ns.maxbpio nlb)
      → Chunks r ns p xs ys s t buf slba nlb

-- A transfer that lies in the I/O region.
pub record Inside (r : Region) (ns : Namespace) (buf nlb : ℕ) : Type 0 where
  pub above : r.vemva ≤ buf
  pub below : buf + nlb * 2 ^ ns.blockshift ≤ r.vemva + max_size
  pub region : r.pci_vhsaa + max_size < 2 ^ 64 - 1

resolve-Inside :
    (r : Region) (ns : Namespace) (buf nlb : ℕ)
    → Inside r ns buf nlb
    → resolve_addr r buf ≡ some (dma r buf)
unfolding resolve_addr
resolve-Inside r ns buf nlb h =
    let e : (ltb buf r.vemva || ltb max_size (buf - r.vemva)) ≡ false =
      ground (arith, h.above, h.below) in
    let k : dma r buf % 2 ^ 64 ≡ dma r buf = omega (arith, h.above, h.below, h.region) in
    rw (e, k) refl

split_mul : (n m x : ℕ) → n ≤ m → n * x + (m - n) * x ≡ m * x
split_mul n m x h = let e : m ≡ n + (m - n) = omega arith in omega (arith, ap (λ k. k * x) e)

Inside-next :
    (r : Region) (ns : Namespace) (buf nlb n : ℕ)
    → n ≤ nlb
    → Inside r ns buf nlb
    → Inside r ns (buf + n * 2 ^ ns.blockshift) (nlb - n)
Inside-next r ns buf nlb n small h = record {
  above = omega (arith, h.above);
  below = omega (arith, h.below, split_mul n nlb (2 ^ ns.blockshift) small);
  region = h.region;
}

-- The loop of unvme_do_rw ends, if the transfer lies in the I/O region and takes at most `k` commands
-- and the queue has more than `k` ids left, without waiting for a completion and without an error.
-- The commands that it sends cover the transfer in order, and it keeps the invariant.
pub rw_loop-Chunks :
    (f k : ℕ) (r : Region) (ns : Namespace) (s : Io) (xs ys : List ℕ) (p buf slba nlb : ℕ)
    → IsQueue s.queue xs ys
    → has p xs ≡ true
    → 0 < ns.maxbpio
    → Inside r ns buf nlb
    → nlb ≤ k * ns.maxbpio
    → s.queue.cidcount + k < s.queue.size
    → nlb < f
    → (t : Io) × (rw_loop f r ns p buf slba nlb s ≡ ok tt t)
      × IsQueue t.queue xs ys
      × Chunks r ns p xs ys s t buf slba nlb
unfolding rw_loop
rw_loop-Chunks zero k r ns s xs ys p buf slba nlb inv on pos here fit room fuel =
    absurd (omega arith)
rw_loop-Chunks (suc f) zero r ns s xs ys p buf slba nlb inv on pos here fit room fuel =
    let none_left : nlb ≡ 0 = omega arith in rw none_left (s, refl, inv, over s buf slba)
rw_loop-Chunks (suc f) (suc k) r ns s xs ys p buf slba nlb inv on pos here fit room fuel =
    elim (Bool-cases (nlb == 0)) [
      | inl done ↦ rw (==→eq nlb 0 done) (s, refl, inv, over s buf slba)
      | inr left ↦
          let live = ==-false→ne nlb 0 left in
          let n = min ns.maxbpio nlb in
          let (cid, u, e, sub) =
            submit_io-Submitted r ns s xs ys p buf (dma r buf) slba n inv on (omega arith)
              (resolve-Inside r ns buf nlb here)
              (omega (arith, here.above, here.below, here.region)) in
          let (t, e', v, rest) =
            rw_loop-Chunks f k r ns u xs ys p (buf + n * 2 ^ ns.blockshift) ((slba + n) % 2 ^ 64)
              (nlb - n) sub.valid on pos (Inside-next r ns buf nlb n (omega arith) here)
              (omega arith) (omega (arith, sub.total, sub.size)) (omega arith) in
          (t, rw (rw_loop, left, e) e', v, chunk s u t buf slba nlb cid live sub rest)
    ]
