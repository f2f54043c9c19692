-- ===== src/Node.antt =====
-- `Ready` of raft-kv/raft/ready.h and ready.cpp, and `RawNode` of node.h and node.cpp.
pub mod Ready
pub mod RawNode
