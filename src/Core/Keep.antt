-- ===== src/Core/Keep.antt =====
-- The steps of the queue keep the invariant.
pub mod Take
pub mod Release
pub mod Walk
pub mod Lists
pub mod Get
pub mod Put
pub mod Complete
pub mod Reserve
pub mod Poll
pub mod Drain
pub mod Io
pub mod Pages
pub mod Chunks
pub mod New
pub mod Freed
pub mod Serve
pub mod Answer
