-- ===== src/Session.antt =====
-- The sessions of src/unvme_core.c: unvme_do_open and unvme_do_close, and what they set up.
pub mod Types
pub mod Limits
pub mod Queues
pub mod Table
pub mod Open
pub mod Close
pub mod Lookup
pub mod Refs
pub mod Join
pub mod Opening
pub mod Closing
pub mod Sharing
pub mod Bounds
pub mod Ready
pub mod Created
mod Tests
