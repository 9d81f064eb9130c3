-- ===== src/Log.antt =====
-- The opening and closing of the log file, in src/unvme_log.c.
pub mod Count
use sxaurora_unvme.Base.{
  ℕ, ◌+◌, ◌-◌, Bool, true, false, ◌&&◌, not, ◌==◌, ltb, if◌then◌else◌, ℤ, pos, negsuc,
}

-- Whether `log_fp` is set, and `log_count`. The mutex `log_lock` is held throughout both operations.
pub record Log : Type 0 where
  pub fp : Bool
  pub count : ℕ

-- log_open(name, mode), where `opens` says whether fopen succeeds
unfoldable pub log_open : (opens : Bool) → Log → record { log : Log; ret : ℤ }
log_open opens l =
    if not l.fp && not opens
    then record { log = l; ret = negsuc 0 }
    else record { log = record { fp = true; count = l.count + 1 }; ret = pos 0 }

-- log_close(): no caller sets `log_fp` to stdout, for which it would stay open.
unfoldable pub log_close : Log → Log
log_close l =
    if ltb 0 l.count then record { fp = not (l.count - 1 == 0) && l.fp; count = l.count - 1 } else l
