-- ===== src/Lib.antt =====
-- A user-space NVMe driver for the Aurora vector engine: the queues of the driver and the I/O over
-- them.
--
-- The driver talks to an NVMe device through queues in memory. src/unvme_nvme.c writes commands into
-- a submission queue, rings a doorbell register, and reads completions from a completion queue that
-- the device writes. src/unvme_core.c stands on it: an I/O queue has as many command ids as slots,
-- and a descriptor, which the user polls, owns the ids of the commands that its transfer takes.
-- Descriptors are on one of two rings, in use or free; `descpend` is where the search for the owner
-- of a completed id begins. src/unvme.c, the interface for users, calls unvme_core.c.
--
-- * Base has the numbers, lists, bits and Boolean tests.
-- * Ring is the lists of src/unvme_core.h, LIST_ADD and LIST_DEL, over a store of pointers.
-- * CidMask is the masks of command ids of src/unvme_core.c, arrays of u64.
-- * Nvme is src/unvme_nvme.h and src/unvme_nvme.c: Nvme.Types has the entries and the queue,
--   Nvme.Queue nvme_submit_cmd, nvme_check_completion and nvme_wait_completion, Nvme.Command the
--   commands, Nvme.Registers the registers as unions of a value and its bit-fields, Nvme.Setup the
--   creation of the device context and of the queues, Nvme.Fields what that writes to the registers,
--   Nvme.Doorbells the doorbells, and Nvme.Fifo what the device does with a completion queue.
-- * Core is src/unvme_core.c: Core.State has the descriptors and a queue in use; Core.Desc is
--   unvme_desc_get and unvme_desc_put, Core.Complete unvme_check_completion, Core.Prps
--   unvme_map_prps with aurora_resolve_addr of src/aurora_pci.c, and Core.Submit unvme_get_cid,
--   unvme_submit_io, unvme_do_poll, unvme_do_rw and unvme_do_cmd. Core.Invariant says what holds of a
--   queue between calls, and the modules of Core.Keep are about what the operations do to it;
--   Core.Keep.Serve and Core.Keep.Answer say what a device does that answers, and what follows.
--   Core.Init is unvme_queue_init and Core.Clean unvme_queue_cleanup.
-- * Session is the rest of src/unvme_core.c: Session.Types has the sessions, the devices and the data
--   of a controller and of a namespace; Session.Limits is what unvme_do_open and unvme_ns_init compute
--   from these, Session.Queues unvme_adminq_create, unvme_ioq_create and unvme_ioq_delete,
--   Session.Table and Session.Open unvme_do_open, and Session.Close unvme_cleanup and unvme_do_close.
--   Session.Refs says what holds of the sessions between calls, and the modules behind it are about
--   what the two calls do to them; Session.Ready and Session.Created are about the queues of a new
--   device.
-- * Log is log_open and log_close of src/unvme_log.c.
-- * Buddy is the allocator of src/aurora_pci.c, buddy_malloc and buddy_free; Buddy.Memory is buddy_init,
--   aurora_mem_alloc and aurora_mem_free, with their callers in src/unvme_vfio.c and src/unvme_core.c,
--   and Buddy.Owned a run of these in one thread. Buddy.Threads is the lists of all threads, with
--   get_freelist, Buddy.Branches is how an allocation ends, and Buddy.Runs a run of several threads,
--   each call one step: a thread works on lists of its own, and on the list that all share while it
--   has the lock.
-- * Aurora is the rest of src/aurora_pci.c, aurora_init, aurora_map and aurora_release, and the device of
--   src/unvme_vfio.c over it; Aurora.Registered is about the memory that the device can reach,
--   Aurora.Device about vfio_create and vfio_delete, Aurora.Ready about the allocator from aurora_init on,
--   Aurora.Transfer about a read or write into one of its buffers, and Aurora.Second about a second
--   device. Aurora.Controller is nvme_create with the mapping of the registers.
-- * Api is src/unvme.c, as it is built without UNVME_MEM; Api.Transfer, Api.Answer and Api.First are about
--   a read or write from the call to its end. Api.Memory is the reads and writes of the mode UNVME_MEM.
-- * Engine is ioengine/unvme_fio.c: the requests of one fio thread, on its queue; Engine.Setup is
--   do_unvme_init and the hooks for memory and the file size, and Engine.Once what a second thread finds;
--   Engine.Events, Engine.Reaping and Engine.Served are on fio_unvme_getevents, the first as steps of a
--   relation, one for each poll.
-- * Clock is src/rdtsc.h: the clock that the driver reads.
-- * Lock is src/unvme_lock.h: the lock word, and threads that move one atomic access at a time.
--
-- A pointer is an address, with NULL as 0, and the memory behind pointers of one kind is a function
-- of the address. Fixed width integers are natural numbers, with the wrap-around written out where
-- the code can reach it. What the device writes to a completion queue and what the clock reads are
-- inputs: a list of polls, one for each round of a polling loop. Register writes are collected in a
-- list. A call of the core ends in one of five ways: it returns, it aborts through FATAL, it follows
-- a null pointer, it indexes an array past its end, which only unvme_check_completion can do, with an
-- id from the device, or it does not end within the polls given or at all. To open or close a session may
-- also end with exit(1).
--
-- The loops over descriptors take at most as many rounds as there are descriptors in use, the search
-- for a free id at most as many as there are ids, the loop of unvme_do_poll one more than there are
-- ids pending, and the loop of unvme_do_rw one more than there are blocks. The search for a
-- session takes at most one round more than there are sessions, and the doubling of
-- aurora_mem_alloc is cut off after 53 rounds, when its 64 bits are 0 for good.
--
-- Not modelled: what is printed and written to the log; what mmap and the ve_ functions that
-- src/aurora_pci.c calls do, which are the platform's, so that what they return is given; the hooks of
-- ioengine/unvme_fio.c that do nothing or only free, and functions of which nothing but that is left,
-- as nvme_delete; and the concurrency of threads that share a queue, which the driver does not allow. Of
-- the mode UNVME_MEM of src/unvme.c, a double for tests, the file that it is kept in is left out.
pub mod Base
pub mod Buddy
pub mod Ring
pub mod Nvme
pub mod Core
pub mod Lock
pub mod CidMask
pub mod Session
pub mod Log
pub mod Api
pub mod Engine
pub mod Clock
pub mod Aurora
