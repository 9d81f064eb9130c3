-- ===== src/Api/Memory.antt =====
-- src/unvme.c, as it is built with UNVME_MEM: a namespace of 10 GB in memory.
use sxaurora_unvme.Base.{
  ℕ, ◌+◌, ◌-◌, ◌*◌, ◌/◌, ◌%◌, ◌^◌, ◌&&◌, Bool, ltb, leb, if◌then◌else◌, Option, none, some,
}

-- kStorageSize
abbrev pub storage_size : ℕ
storage_size = 10 * 2 ^ 30

-- The bytes at `mem_buf`, and those of the program, by address.
pub record Store : Type 0 where
  pub disk : ℕ → ℕ
  pub mem : ℕ → ℕ

-- memcpy(to + dst, from + src, n), to memory that `from` is no part of
unfoldable pub copy : (dst src n : ℕ) → (to from : ℕ → ℕ) → ℕ → ℕ
copy dst src n to from a = if leb dst a && ltb a (dst + n) then from (src + (a - dst)) else to a

-- `slba + nlb > kStorageSize / 512`, on 64 bits
unfoldable pub past_end : (slba nlb : ℕ) → Bool
past_end slba nlb = ltb (storage_size / 512) ((slba + nlb) % 2 ^ 64)

-- unvme_aread(ns, qid, buf, slba, nlb), whose descriptor is always 1; none where it aborts. The number
-- of bytes has 32 bits.
unfoldable pub mem_aread : (blocksize buf slba nlb : ℕ) → Store → Option Store
unfolding past_end copy
mem_aread blocksize buf slba nlb s =
    if past_end slba nlb
    then none
    else some (record s {
      mem = copy buf (slba * blocksize % 2 ^ 64) (nlb * blocksize % 2 ^ 32) s.mem s.disk;
    })

-- unvme_awrite(ns, qid, buf, slba, nlb)
unfoldable pub mem_awrite : (blocksize buf slba nlb : ℕ) → Store → Option Store
unfolding past_end copy
mem_awrite blocksize buf slba nlb s =
    if past_end slba nlb
    then none
    else some (record s {
      disk = copy (slba * blocksize % 2 ^ 64) buf (nlb * blocksize % 2 ^ 32) s.disk s.mem;
    })

-- `(size + mask) & ~mask` of unvme_alloc, on 64 bits
unfoldable pub alloc_size : (size : ℕ) → ℕ
alloc_size size = (size + 4095) % 2 ^ 64 / 4096 * 4096
