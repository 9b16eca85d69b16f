-- ===== src/Wal.antt =====
-- src/wal: the write-ahead log.
pub mod Proto
pub mod Manager
pub mod Recovery
