-- ===== src/Nvme/Registers.antt =====
-- The registers of the controller in src/unvme_nvme.h: unions of a whole value and its bit-fields,
-- which the compiler lays out from the lowest bit on.
use sxaurora_unvme.Base.{ℕ, ◌+◌, ◌*◌, ◌/◌, ◌%◌, ◌^◌}

-- `nvme_adminq_attr_t`
pub record AdminqAttr : Type 0 where
  pub asqs : ℕ
  pub acqs : ℕ

unfoldable pub aqa_val : AdminqAttr → ℕ
aqa_val a = a.asqs + a.acqs * 2 ^ 16

unfoldable pub aqa_of : ℕ → AdminqAttr
aqa_of v = record { asqs = v % 2 ^ 16; acqs = v / 2 ^ 16 % 2 ^ 16 }

-- `nvme_controller_cap_t`
pub record ControllerCap : Type 0 where
  pub mqes : ℕ
  pub cqr : ℕ
  pub ams : ℕ
  pub rsvd : ℕ
  pub to : ℕ
  pub dstrd : ℕ
  pub nssrs : ℕ
  pub css : ℕ
  pub rsvd2 : ℕ
  pub mpsmin : ℕ
  pub mpsmax : ℕ
  pub rsvd3 : ℕ

unfoldable pub cap_of : ℕ → ControllerCap
cap_of v = record {
  mqes = v % 2 ^ 16;
  cqr = v / 2 ^ 16 % 2;
  ams = v / 2 ^ 17 % 2 ^ 2;
  rsvd = v / 2 ^ 19 % 2 ^ 5;
  to = v / 2 ^ 24 % 2 ^ 8;
  dstrd = v / 2 ^ 32 % 2 ^ 4;
  nssrs = v / 2 ^ 36 % 2;
  css = v / 2 ^ 37 % 2 ^ 8;
  rsvd2 = v / 2 ^ 45 % 2 ^ 3;
  mpsmin = v / 2 ^ 48 % 2 ^ 4;
  mpsmax = v / 2 ^ 52 % 2 ^ 4;
  rsvd3 = v / 2 ^ 56 % 2 ^ 8;
}

unfoldable pub cap_val : ControllerCap → ℕ
cap_val c =
    c.mqes
    + c.cqr * 2 ^ 16
    + c.ams * 2 ^ 17
    + c.rsvd * 2 ^ 19
    + c.to * 2 ^ 24
    + c.dstrd * 2 ^ 32
    + c.nssrs * 2 ^ 36
    + c.css * 2 ^ 37
    + c.rsvd2 * 2 ^ 45
    + c.mpsmin * 2 ^ 48
    + c.mpsmax * 2 ^ 52
    + c.rsvd3 * 2 ^ 56

-- `nvme_controller_config_t`
pub record ControllerConfig : Type 0 where
  pub en : ℕ
  pub rsvd : ℕ
  pub css : ℕ
  pub mps : ℕ
  pub ams : ℕ
  pub shn : ℕ
  pub iosqes : ℕ
  pub iocqes : ℕ
  pub rsvd2 : ℕ

unfoldable pub config_of : ℕ → ControllerConfig
config_of v = record {
  en = v % 2;
  rsvd = v / 2 % 2 ^ 3;
  css = v / 2 ^ 4 % 2 ^ 3;
  mps = v / 2 ^ 7 % 2 ^ 4;
  ams = v / 2 ^ 11 % 2 ^ 3;
  shn = v / 2 ^ 14 % 2 ^ 2;
  iosqes = v / 2 ^ 16 % 2 ^ 4;
  iocqes = v / 2 ^ 20 % 2 ^ 4;
  rsvd2 = v / 2 ^ 24 % 2 ^ 8;
}

unfoldable pub config_val : ControllerConfig → ℕ
config_val c =
    c.en
    + c.rsvd * 2
    + c.css * 2 ^ 4
    + c.mps * 2 ^ 7
    + c.ams * 2 ^ 11
    + c.shn * 2 ^ 14
    + c.iosqes * 2 ^ 16
    + c.iocqes * 2 ^ 20
    + c.rsvd2 * 2 ^ 24

-- `nvme_controller_status_t`
pub record ControllerStatus : Type 0 where
  pub rdy : ℕ
  pub cfs : ℕ
  pub shst : ℕ
  pub rsvd : ℕ

unfoldable pub status_of : ℕ → ControllerStatus
status_of v = record {
  rdy = v % 2;
  cfs = v / 2 % 2;
  shst = v / 2 ^ 2 % 2 ^ 2;
  rsvd = v / 2 ^ 4 % 2 ^ 28;
}
