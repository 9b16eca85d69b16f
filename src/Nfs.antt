-- ===== src/Nfs.antt =====
-- src/nfs: the handlers of the file system protocol.
pub mod State
pub mod Data
pub mod Names
pub mod Listing
pub mod ReadWrite
pub mod Logged
pub mod Replay
mod Tests
