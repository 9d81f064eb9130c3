-- ===== src/Nvme/Fields.antt =====
-- The registers of src/unvme_nvme.h, and what nvme_adminq_setup of src/unvme_nvme.c writes to them.
use sxaurora_unvme.Base.{
  negsuc, ℤ, Option, none, Bool-cases, inl, inr, ==→eq, ◌==◌, ap, ◌∙◌, ℕ, ◌+◌, ◌-◌, ◌%◌, ◌^◌, ◌≡◌,
  ◌<◌, ◌≤◌, List, [], ◌∷◌, some, pos, arith, refl,
}
use sxaurora_unvme.Nvme.Types.{SqEntry, NvmeQueue}
use sxaurora_unvme.Nvme.Registers.{
  AdminqAttr, aqa_of, aqa_val, ControllerConfig, config_of, config_val, cap_of, cap_val,
}
use sxaurora_unvme.Nvme.Setup.{
  RegWrite, cc, aqa, asq, acq, Ended, done, new_config, nvme_ctlr_disable, nvme_ctlr_enable,
  nvme_adminq_setup, nvme_create, on_ok,
}

-- Each field is within its bits.
pub record IsConfig (c : ControllerConfig) : Type 0 where
  pub en : c.en < 2
  pub rsvd : c.rsvd < 2 ^ 3
  pub css : c.css < 2 ^ 3
  pub mps : c.mps < 2 ^ 4
  pub ams : c.ams < 2 ^ 3
  pub shn : c.shn < 2 ^ 2
  pub iosqes : c.iosqes < 2 ^ 4
  pub iocqes : c.iocqes < 2 ^ 4
  pub rsvd2 : c.rsvd2 < 2 ^ 8

-- What is written to the fields of CC is read back.
pub config_of-config_val : (c : ControllerConfig) → IsConfig c → config_of (config_val c) ≡ c
unfolding config_of config_val
config_of-config_val c h =
    let en' : (config_of (config_val c)).en ≡ c.en = omega arith in
    let rsvd' : (config_of (config_val c)).rsvd ≡ c.rsvd = omega arith in
    let css' : (config_of (config_val c)).css ≡ c.css = omega arith in
    let mps' : (config_of (config_val c)).mps ≡ c.mps = omega arith in
    let ams' : (config_of (config_val c)).ams ≡ c.ams = omega arith in
    let shn' : (config_of (config_val c)).shn ≡ c.shn = omega arith in
    let iosqes' : (config_of (config_val c)).iosqes ≡ c.iosqes = omega arith in
    let iocqes' : (config_of (config_val c)).iocqes ≡ c.iocqes = omega arith in
    let rsvd2' : (config_of (config_val c)).rsvd2 ≡ c.rsvd2 = omega arith in
    λ i. record {
      en = en' i;
      rsvd = rsvd' i;
      css = css' i;
      mps = mps' i;
      ams = ams' i;
      shn = shn' i;
      iosqes = iosqes' i;
      iocqes = iocqes' i;
      rsvd2 = rsvd2' i;
    }

-- A value of CAP is that of its fields.
pub cap_val-cap_of : (v : ℕ) → v < 2 ^ 64 → cap_val (cap_of v) ≡ v
unfolding cap_val cap_of
cap_val-cap_of v h = omega arith

aqa_of-aqa_val : (a : AdminqAttr) → a.asqs < 2 ^ 16 → a.acqs < 2 ^ 16 → aqa_of (aqa_val a) ≡ a
unfolding aqa_of aqa_val
aqa_of-aqa_val a h k =
    let asqs' : (aqa_of (aqa_val a)).asqs ≡ a.asqs = omega arith in
    let acqs' : (aqa_of (aqa_val a)).acqs ≡ a.acqs = omega arith in
    λ i. record { asqs = asqs' i; acqs = acqs' i }

config_of-IsConfig : (v : ℕ) → IsConfig (config_of v)
unfolding config_of
config_of-IsConfig v = omega arith

-- CC as the driver wants it, with pages of `2 ^ (12 + mps)` bytes
abbrev pub driver_config : (mps : ℕ) → ControllerConfig
driver_config mps = record {
  en = 1;
  rsvd = 0;
  css = 0;
  mps = mps;
  ams = 0;
  shn = 0;
  iosqes = 6;
  iocqes = 4;
  rsvd2 = 0;
}

-- The writes of a set-up that has not failed: CC with only the enable bit changed, to 0; the size and
-- the addresses of the admin queue; and CC for queues of 64 and 16 byte entries and for pages of the
-- smallest size that CAP names, with the enable bit set.
pub record Programmed (cap val qsize sqpa cqpa : ℕ) (ws : List RegWrite) : Type 0 where
  pub off : ℕ
  pub attr : ℕ
  pub on : ℕ
  pub order : ws ≡ cc off ∷ aqa attr ∷ asq sqpa ∷ acq cqpa ∷ cc on ∷ []
  pub disabled : config_of off ≡ record (config_of val) { en = 0 }
  pub sizes : aqa_of attr ≡ record { asqs = qsize - 1; acqs = qsize - 1 }
  pub enabled : config_of on ≡ driver_config (cap_of cap).mpsmin

on_ok-done :
    {A : Type 0} (r : Option ℤ) (e : Ended A) (a : A)
    → on_ok r e ≡ done a
    → (r ≡ some (pos 0)) × (e ≡ done a)
on_ok-done none e a h = ground arith
on_ok-done (some (pos n)) e a h = elim (Bool-cases (n == 0)) [
  | inl z ↦ ground (arith, ==→eq n 0 z)
  | inr z ↦ ground arith
]
on_ok-done (some (negsuc n)) e a h = ground arith

mps-min : (cap t : ℕ) → ((nvme_create cap t).pageshift + 2 ^ 4 - 12) % 2 ^ 4 ≡ (cap_of cap).mpsmin
unfolding nvme_create cap_of
mps-min cap t = omega arith

attr-eq : (qsize : ℕ) → 0 < qsize → qsize ≤ 2 ^ 16 → (qsize + 2 ^ 16 - 1) % 2 ^ 16 ≡ qsize - 1
attr-eq qsize p s = omega arith

-- If nvme_adminq_setup of a new device context returns a queue of one to 65536 entries, it has
-- disabled the controller first, then set the size and the addresses of the admin queue, and enabled
-- the controller last, with the entry sizes and the page size of the driver.
pub adminq_setup-Programmed :
    (cap t val qsize sqpa cqpa : ℕ) (sq : ℕ → SqEntry) (csts csts' : List ℕ) (n : NvmeQueue)
    → 0 < qsize
    → qsize ≤ 2 ^ 16
    → (nvme_adminq_setup (nvme_create cap t) val qsize sqpa cqpa sq csts csts').adminq ≡ done n
    → Programmed cap val qsize sqpa cqpa
        (nvme_adminq_setup (nvme_create cap t) val qsize sqpa cqpa sq csts csts').writes
unfolding nvme_adminq_setup nvme_ctlr_disable nvme_ctlr_enable new_config
adminq_setup-Programmed cap t val qsize sqpa cqpa sq csts csts' n p s e =
    let dev = nvme_create cap t in
    let off = nvme_ctlr_disable dev val csts in
    let on = nvme_ctlr_enable dev (new_config dev) csts' in
    let (ready, rest) = on_ok-done off.ret _ n e in
    let m = (qsize + 2 ^ 16 - 1) % 2 ^ 16 in
    let was = config_of-IsConfig val in
    record {
      off = config_val (record (config_of val) { en = 0 });
      attr = aqa_val (record { asqs = m; acqs = m });
      on = config_val (record (new_config dev) { en = 1 });
      order = rw (nvme_adminq_setup, ready) refl;
      disabled =
          config_of-config_val (record (config_of val) { en = 0 })
            (record {
              en = omega arith;
              rsvd = was.rsvd;
              css = was.css;
              mps = was.mps;
              ams = was.ams;
              shn = was.shn;
              iosqes = was.iosqes;
              iocqes = was.iocqes;
              rsvd2 = was.rsvd2;
            });
      sizes =
          aqa_of-aqa_val (record { asqs = m; acqs = m }) (omega arith) (omega arith)
          ∙ ap (λ (k : ℕ). let a : AdminqAttr = record { asqs = k; acqs = k } in a)
              (attr-eq qsize p s);
      enabled =
          config_of-config_val (record (new_config dev) { en = 1 }) (omega arith)
          ∙ ap driver_config (mps-min cap t);
    }
