-- ===== src/Redis.antt =====
-- The key-value server of raft-kv/server: redis_store.cpp and redis_session.cpp.
pub mod Glob
pub mod Store
pub mod Commits
pub mod Agreement
pub mod Snapshots
pub mod Session
pub mod Accounts
pub mod Requests
