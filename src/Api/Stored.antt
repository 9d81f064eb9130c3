-- ===== src/Api/Stored.antt =====
-- What is written to the namespace in memory of src/unvme.c, with UNVME_MEM, is read back.
use sxaurora_unvme.Base.{
  ℕ, ◌+◌, ◌-◌, ◌*◌, ◌/◌, ◌%◌, ◌^◌, ◌≡◌, ◌<◌, ◌≤◌, ◌&&◌, true, false, ◌⊎◌, inl, inr, ltb, leb,
  if◌then◌else◌, some, arith, refl, le→ltb-false,
}
use sxaurora_unvme.Api.Memory.{storage_size, Store, copy, past_end, mem_aread, mem_awrite}

-- Blocks that are in the namespace, fewer than 4 GB of them.
pub record Within (slba nlb : ℕ) : Type 0 where
  pub inside : slba + nlb ≤ storage_size / 512
  pub small : nlb < 2 ^ 23

past_end-Within : (slba nlb : ℕ) → Within slba nlb → past_end slba nlb ≡ false
unfolding past_end
past_end-Within slba nlb w = le→ltb-false _ _ (omega (arith, w.inside))

copy-in :
    (dst src n j : ℕ) (to from : ℕ → ℕ) → j < n → copy dst src n to from (dst + j) ≡ from (src + j)
unfolding copy
copy-in dst src n j to from h =
    let e : dst + j - dst ≡ j = omega arith in
    let k : (leb dst (dst + j) && ltb (dst + j) (dst + n)) ≡ true = ground arith in
    rw (copy, k, e) refl

copy-out :
    (dst src n a : ℕ) (to from : ℕ → ℕ)
    → (a < dst) ⊎ (dst + n ≤ a)
    → copy dst src n to from a ≡ to a
unfolding copy
copy-out dst src n a to from (inl h) =
    let k : (leb dst a && ltb a (dst + n)) ≡ false = ground arith in rw (copy, k) refl
copy-out dst src n a to from (inr h) =
    let k : (leb dst a && ltb a (dst + n)) ≡ false = ground arith in rw (copy, k) refl

-- The numbers of bytes and their place, which do not wrap.
bytes-Within :
    (slba nlb : ℕ)
    → Within slba nlb
    → (slba * 512 % 2 ^ 64 ≡ slba * 512) × (nlb * 512 % 2 ^ 32 ≡ nlb * 512)
bytes-Within slba nlb w = (omega (arith, w.inside), omega (arith, w.small))

-- With UNVME_MEM, a write of blocks of 512 bytes in the namespace, and a read of such after it, each of
-- less than 4 GB, return. Each byte that is read is the one that was written, if it is of a block that
-- was written, and else what the namespace held before; the bytes of the program that are not read to
-- are as before, and the read leaves the namespace as it was.
pub mem_aread-mem_awrite :
    (buf slba nlb buf' slba' nlb' j a : ℕ) (s : Store)
    → Within slba nlb
    → Within slba' nlb'
    → j < nlb' * 512
    → (a < buf') ⊎ (buf' + nlb' * 512 ≤ a)
    → (t u : Store) × (mem_awrite 512 buf slba nlb s ≡ some t)
      × (mem_aread 512 buf' slba' nlb' t ≡ some u)
      × (u.mem (buf' + j) ≡ (
          if leb (slba * 512) (slba' * 512 + j) && ltb (slba' * 512 + j) (slba * 512 + nlb * 512)
          then s.mem (buf + (slba' * 512 + j - slba * 512))
          else s.disk (slba' * 512 + j)))
      × (u.mem a ≡ s.mem a)
      × (u.disk ≡ t.disk)
unfolding mem_aread mem_awrite copy
mem_aread-mem_awrite buf slba nlb buf' slba' nlb' j a s w w' small out =
    let disk = copy (slba * 512) buf (nlb * 512) s.disk s.mem in
    let t : Store = record s { disk = disk } in
    let u : Store = record t { mem = copy buf' (slba' * 512) (nlb' * 512) s.mem disk } in
    let (place, size) = bytes-Within slba nlb w in
    let (place', size') = bytes-Within slba' nlb' w' in
    (
      t,
      u,
      rw (mem_awrite, past_end-Within slba nlb w, place, size) refl,
      rw (mem_aread, past_end-Within slba' nlb' w', place', size') refl,
      copy-in buf' (slba' * 512) (nlb' * 512) j s.mem disk small,
      copy-out buf' (slba' * 512) (nlb' * 512) a s.mem disk out,
      refl,
    )
