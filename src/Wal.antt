-- ===== src/Wal.antt =====
-- src/vfs/wal/: the write-ahead log of file operations and its recovery.
pub mod Status
pub mod Operation
pub mod Io
pub mod Engine
pub mod Recovery
pub mod Journal
pub mod Replay
mod Tests
