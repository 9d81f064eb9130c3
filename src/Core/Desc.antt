-- ===== src/Core/Desc.antt =====
-- unvme_desc_get and unvme_desc_put: descriptors move between the free ring and the ring in use.
use sxaurora_unvme.Base.{
  ℕ, zero, suc, ◌+◌, ◌-◌, ◌/◌, ◌%◌, ◌^◌, [], ◌∷◌, ◌==◌, if◌then◌else◌, replicate,
}
use sxaurora_unvme.CidMask.{Mask}
use sxaurora_unvme.Ring.{list_add, list_del}
use sxaurora_unvme.Core.State.{Descriptor, Queue, ok, fault, Cmd, with_queue, set_desc}

-- `while (i--) *cidmask++ = 0`
unfoldable pub clear_words : ℕ → Mask → Mask
clear_words zero m = m
clear_words (suc i) [] = []
clear_words (suc i) (w ∷ m) = 0 ∷ clear_words i m

-- A descriptor taken back from the free ring: its error, count and mask are cleared.
unfoldable pub recycle : ℕ → Descriptor → Descriptor
unfolding clear_words
recycle masksize d = record d {
  error = 0;
  cidcount = 0;
  cidmask = clear_words (masksize / 8) d.cidmask;
}

-- `zalloc(sizeof(unvme_desc_t) + q->masksize)` with the next id
unfoldable pub zalloc_desc : ℕ → ℕ → Descriptor
zalloc_desc masksize id = record {
  buf = 0;
  slba = 0;
  nlb = 0;
  qid = 0;
  opc = 0;
  id = id;
  sentinel = 0;
  error = 0;
  cidcount = 0;
  cidmask = replicate (masksize / 8) 0;
}

-- LIST_ADD(q->desclist, desc) and what follows it
unfoldable pub enlist : Queue → ℕ → Queue
unfolding list_add
enlist q desc =
    let l = list_add q.links q.desclist desc in
    record q {
      links = l.links;
      desclist = l.head;
      descpend = if l.links.next desc == desc then desc else q.descpend;
      desccount = q.desccount + 1;
    }

-- LIST_DEL(q->descfree, desc) of the first free descriptor, cleared
unfoldable pub take_free : Queue → Queue
unfolding list_del recycle
take_free q =
    let l = list_del q.links q.descfree q.descfree in
    record (set_desc q q.descfree (recycle q.masksize (q.desc q.descfree))) {
      links = l.links;
      descfree = l.head;
    }

-- unvme_desc_get(q). `fresh` is what zalloc returns, if it is called.
unfoldable pub desc_get : (fresh : ℕ) → Cmd ℕ
unfolding take_free enlist zalloc_desc
desc_get fresh s =
    let q = s.queue in
    let id = (s.last_id + 1) % 2 ^ 32 in
    if q.descfree == 0
    then (if fresh == 0
        then fault
        else ok fresh (record s {
          queue = enlist (set_desc q fresh (zalloc_desc q.masksize id)) fresh;
          last_id = id;
        }))
    else ok q.descfree (with_queue s (enlist (take_free q) q.descfree))

-- unvme_desc_put(desc)
unfoldable pub put_queue : Queue → ℕ → Queue
unfolding list_del list_add
put_queue q desc =
    let pend =
      if desc == q.descpend
      then (if desc == q.links.next desc then 0 else q.links.next desc)
      else q.descpend in
    let l = list_del q.links q.desclist desc in
    let f = list_add l.links q.descfree desc in
    record q {
      descpend = pend;
      links = f.links;
      desclist = l.head;
      descfree = f.head;
      desccount = q.desccount - 1;
    }

unfoldable pub desc_put : ℕ → Cmd (Unit {0})
unfolding put_queue
desc_put desc s = ok tt (with_queue s (put_queue s.queue desc))
