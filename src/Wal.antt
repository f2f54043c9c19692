-- ===== src/Wal.antt =====
-- The write-ahead log of raft-kv/wal/wal.h and wal.cpp.
pub mod Record
pub mod File
pub mod Reading
pub mod Log
pub mod Fuel
pub mod Frames
pub mod Replay
pub mod Saved
pub mod Torn
pub mod Reopened
pub mod Recovery
pub mod Names
