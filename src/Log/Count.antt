-- ===== src/Log/Count.antt =====
-- The log file of src/unvme_log.c is open just while it is in use.
use sxaurora_unvme.Base.{pos, negsuc, ◌≡◌, Bool, true, false, not, ◌==◌, arith}
use sxaurora_unvme.Log.{Log, log_open, log_close}

-- The file is open if and only if some user has it open.
abbrev pub IsLog : Log → Type 0
IsLog l = l.fp ≡ not (l.count == 0)

pub log_close-open :
    (opens : Bool) (l : Log)
    → IsLog l
    → (log_open opens l).ret ≡ pos 0
    → IsLog (log_open opens l).log
      × ((log_close (log_open opens l).log).count ≡ l.count)
      × ((log_close (log_open opens l).log).fp ≡ l.fp)
unfolding log_open log_close
log_close-open true l inv ok = ground (arith, inv)
log_close-open false l inv ok = ground (arith, inv)

-- The first opening.
pub log_open-first :
    (l : Log)
    → IsLog l
    → l.count ≡ 0
    → ((log_open true l).ret ≡ pos 0)
      × IsLog (log_open true l).log
      × ((log_open true l).log.count ≡ 1)
unfolding log_open
log_open-first l inv none_yet = ground (arith, inv, none_yet)

pub log_open-refused : (l : Log) → IsLog l → l.count ≡ 0 → (log_open false l).ret ≡ negsuc 0
unfolding log_open
log_open-refused l inv none_yet = ground (arith, inv, none_yet)

pub log_close-last :
    (l : Log) → IsLog l → l.count ≡ 1 → IsLog (log_close l) × ((log_close l).count ≡ 0)
unfolding log_close
log_close-last l inv one = ground (arith, inv, one)
