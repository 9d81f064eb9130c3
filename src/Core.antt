-- ===== src/Core.antt =====
-- src/unvme_core.c: queues of I/O descriptors and command ids over the NVMe queues.
pub mod State
pub mod Total
pub mod Desc
pub mod Complete
pub mod Prps
pub mod Submit
pub mod Init
pub mod Clean
pub mod Invariant
pub mod Owners
pub mod Keep
mod Tests
