-- ===== src/Session/Table.antt =====
-- The search of unvme_do_open, in src/unvme_core.c, for a session of the device.
use sxaurora_unvme.Base.{ℕ, zero, suc, Option, none, some, ◌==◌, ◌%◌, ◌^◌, ltb, if◌then◌else◌}
use sxaurora_unvme.Session.Types.{Session, Driver}

-- `xses` behind the loop, or that the namespace is refused.
pub data Found : Type 0 where
  session : ℕ → Found
  absent : Found
  refused : Found

-- A session of the same device: there is no such namespace, or the session is of that namespace.
abbrev pub admit : Session → (nsid xses : ℕ) → Found
admit s nsid xses =
    if ltb s.ns.nscount nsid then refused else if s.ns.id == nsid then refused else session xses

-- `while (xses) …`; `none` past the fuel
unfoldable pub search : (fuel : ℕ) → Driver → (pci nsid xses : ℕ) → Option Found
search zero d pci nsid xses = none
search (suc f) d pci nsid xses =
    let next = d.links.next xses in
    let rest = search f d pci nsid next in
    if xses == 0
    then some absent
    else if (d.session xses).ns.pci == pci % 2 ^ 32
    then some (admit (d.session xses) nsid xses)
    else if next == d.ses
    then some absent
    else rest
