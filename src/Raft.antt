-- ===== src/Raft.antt =====
-- The state machine of raft-kv/raft/raft.h and raft.cpp, one module for each group of methods.
pub mod State
pub mod Exec
pub mod Progresses
pub mod Send
pub mod Commit
pub mod Roles
pub mod Election
pub mod Replicate
pub mod Quorum
pub mod Rule
pub mod Keeps
pub mod Still
pub mod Leader
pub mod Follower
pub mod Step
pub mod Tick
pub mod Membership
pub mod Create
