-- ===== src/Session/Bounds.antt =====
-- The limits of a session of src/unvme_core.c fit the page of PRP entries of a command id.
use sxaurora_unvme.Base.{
  ℕ, zero, suc, ◌+◌, ◌-◌, ◌*◌, ◌/◌, ◌%◌, ◌^◌, ◌≤◌, ◌<◌, ◌≡◌, arith, subst, sym, ap, ◌∙◌,
}
use native.Mathlib.Nat.{
  pow-succ', zero-add, suc-add, mul-le-mul_right, mod-le, div-lt_iff_lt-mul, pow-le-pow_right,
  mul_assoc,
}
use sxaurora_unvme.Nvme.Setup.{NvmeDevice}
use sxaurora_unvme.Core.Prps.{numpages}
use sxaurora_unvme.Session.Types.{IdentifyCtlr, IdentifyNs, NsInfo}
use sxaurora_unvme.Session.Limits.{max_pages, ctlr_ns, set_queues, block_shift, ns_init, io_ns}

pow_add : (a b : ℕ) → 2 ^ (a + b) ≡ 2 ^ a * 2 ^ b
pow_add zero b = ap (λ n. 2 ^ n) (zero-add b) ∙ omega arith
pow_add (suc a) b =
    ap (λ n. 2 ^ n) (suc-add a b)
    ∙ pow-succ' 2 (a + b)
    ∙ ap (λ n. 2 * n) (pow_add a b)
    ∙ sym (mul_assoc 2 (2 ^ a) (2 ^ b))
    ∙ ap (λ n. n * 2 ^ b) (sym (pow-succ' 2 a))

-- Blocks that fit the pages of a command, in bytes.
chunk_bytes : (ps bs m n : ℕ) → bs ≤ ps → n ≤ m * 2 ^ (ps - bs) → n * 2 ^ bs ≤ m * 2 ^ ps
chunk_bytes ps bs m n fits h =
    let e : m * 2 ^ (ps - bs) * 2 ^ bs ≡ m * 2 ^ ps =
      mul_assoc m (2 ^ (ps - bs)) (2 ^ bs)
      ∙ ap (λ k. m * k) (sym (pow_add (ps - bs) bs))
      ∙ ap (λ k. m * 2 ^ k) (omega arith) in
    omega (arith, e, mul-le-mul_right (2 ^ bs) h)

pages_le : (m p x : ℕ) → 0 < p → x ≤ m * p → (x + p - 1) % 2 ^ 64 / p % 2 ^ 32 ≤ m
pages_le m p x pos h =
    let k : (x + p - 1) % 2 ^ 64 / p < m + 1 =
      (div-lt_iff_lt-mul pos).1 (omega (arith, h, mod-le (x + p - 1) (2 ^ 64))) in
    omega (arith, k, mod-le ((x + p - 1) % 2 ^ 64 / p) (2 ^ 32))

max_pages-le : (pagesize mdts : ℕ) → max_pages pagesize mdts ≤ pagesize / 8
unfolding max_pages
max_pages-le pagesize mdts = ground arith

-- The namespace of a session: what unvme_do_open and unvme_ns_init set.
unfoldable pub open_ns :
    (pci : ℕ) → NvmeDevice → IdentifyCtlr → (res qcount nsid : ℕ) → IdentifyNs → NsInfo
unfolding ns_init set_queues ctlr_ns
open_ns pci dev idc res qcount nsid idns =
    ns_init (set_queues (ctlr_ns pci dev idc) res qcount) nsid idns

module _ (pci : ℕ) (dev : NvmeDevice) (idc : IdentifyCtlr) (res qcount nsid : ℕ) (idns : IdentifyNs)
    (small : dev.pageshift < 16) (fits : block_shift idns ≤ dev.pageshift) where
  page_small : 2 ^ dev.pageshift ≤ 2 ^ 15
  page_small = pow-le-pow_right {n = 2} (omega arith) {i = dev.pageshift} {j = 15} (omega arith)

  page_pos : 0 < 2 ^ dev.pageshift
  page_pos =
      omega
        (arith, pow-le-pow_right {n = 2} (omega arith) {i = 0} {j = dev.pageshift} (omega arith))

  -- A command of at most `maxbpio` blocks takes no more pages than a page has PRP entries, for a page
  -- of less than 64 KB and a block no larger than a page.
  pub open_ns-pages :
      (n : ℕ)
      → (let ns = open_ns pci dev idc res qcount nsid idns in n ≤ ns.maxbpio)
      → (let ns = open_ns pci dev idc res qcount nsid idns in
          numpages (io_ns ns) (n * 2 ^ ns.blockshift) ≤ 2 ^ dev.pageshift / 8)
  unfolding open_ns ns_init set_queues ctlr_ns numpages
  open_ns-pages n h =
      let ps = dev.pageshift in
      let bs = block_shift idns in
      let page : 2 ^ ps % 2 ^ 16 ≡ 2 ^ ps = omega (arith, page_small) in
      let m = max_pages (2 ^ ps) idc.mdts in
      let shift : (ps + 2 ^ 16 - bs) % 2 ^ 16 ≡ ps - bs = omega arith in
      let h' : n ≤ m * 2 ^ (ps - bs) % 2 ^ 16 =
        subst (λ j. n ≤ m * 2 ^ j % 2 ^ 16) shift
          (subst (λ j. n ≤ max_pages j idc.mdts * 2 ^ ((ps + 2 ^ 16 - bs) % 2 ^ 16) % 2 ^ 16) page
            h) in
      let blocks : n ≤ m * 2 ^ (ps - bs) = omega (arith, h', mod-le (m * 2 ^ (ps - bs)) (2 ^ 16)) in
      let k = pages_le m (2 ^ ps) (n * 2 ^ bs) page_pos (chunk_bytes ps bs m n fits blocks) in
      rw page (omega (arith, k, max_pages-le (2 ^ ps) idc.mdts))
