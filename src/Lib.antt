-- ===== src/Lib.antt =====
-- A replicated key-value store in C++ that speaks the Redis protocol, on a Raft library of its own.
--
-- A client's command reaches a `RedisSession` (raft-kv/server/redis_session.cpp), which answers it from
-- the `RedisStore` (redis_store.cpp) or has the store propose a commit. `RaftNode` (raft_node.cpp) owns
-- the store, the Raft core, the files and the transport. It hands the proposal to the core, and runs a
-- loop: it takes a `Ready` value from the core, saves its entries in the write-ahead log
-- (raft-kv/wal/wal.cpp), has the transport (raft-kv/transport) send its messages, hands the committed
-- entries to the store, which then calls the clients back, and from time to time saves a snapshot
-- (raft-kv/snap/snapshotter.cpp) and compacts the storage.
--
-- The core is a `RawNode` (raft-kv/raft/node.cpp). It is handed clock ticks, proposals and the messages
-- of the other nodes. Inside is one `Raft` object (raft.cpp), the state machine. It keeps its log in
-- `RaftLog` (raft_log.cpp), which reads the entries that are stored from `MemoryStorage` (storage.cpp)
-- and holds those that are not yet in `Unstable` (unstable.cpp). A leader has a `Progress` for each
-- follower, with a ring of the messages in flight (progress.cpp), and a queue of the read requests
-- that wait for a quorum (readonly.cpp).
--
-- The files, and the code that they are about:
--   Common          lists, words, bytes, maps, calls that return or abort, and lemmas on them
--   Proto, Status   raft-kv/raft/proto.h and proto.cpp, raft-kv/common/status.h
--   Util            raft-kv/raft/util.cpp; Util/Limit is about `entry_limit_size`
--   Storage         raft-kv/raft/storage.cpp, `MemoryStorage`; Storage/Appending is about `append`
--   Unstable        raft-kv/raft/unstable.cpp; Unstable/Contiguous is about `truncate_and_append`
--   RaftLog         raft-kv/raft/raft_log.cpp; RaftLog/Advance and RaftLog/Conflict are about its
--                   changes and its answers
--   Progress        `Progress` of raft-kv/raft/progress.cpp; Progress/Window is about its bounds
--   InFlights       `InFlights` of the same file; InFlights/Fits is about its slots,
--                   InFlights/Freeing about `free_to`
--   ReadOnly        raft-kv/raft/readonly.cpp
--   Config          raft-kv/raft/config.cpp
--   Raft            raft-kv/raft/raft.cpp: State (the members), Exec (methods as functions of the
--                   object), Progresses, Send, Commit, Roles, Election, Replicate, Leader, Follower,
--                   Step, Tick, Membership, Create. Keeps has the rules for what a method keeps,
--                   Raft/Still applies them to every method, Quorum and Rule are about `maybe_commit`
--   Node            raft-kv/raft/ready.cpp (Node/Ready) and node.cpp (Node/RawNode)
--   Codec           the MessagePack library, as an interface: the fields that MSGPACK_DEFINE names come
--                   back, which are not all of those of a snapshot (`saved_snapshot` of Proto) and of
--                   a message (`sent_message`)
--   Buffer          raft-kv/common/bytebuffer.cpp; Buffer/Bounds and Buffer/Queue are about its ends
--                   and the bytes between them
--   Wal             raft-kv/wal: Record (wal.h), File (`WAL_File`), Reading (the loop of `read_all`), Log
--                   (the class `WAL`) and Names (the names of its files, `open`). Frames, Fuel, Replay,
--                   Saved, Torn, Reopened and Recovery are about what is written, read, and left after a crash
--   Snap            raft-kv/snap/snapshotter.cpp; Snap/Newest is about `load` after `save_snap`
--   Redis           raft-kv/server: Store (redis_store.cpp) with Glob (its `string_match_len`), and
--                   Session (redis_session.cpp) with Session/Link (its socket). Commits, Agreement and
--                   Snapshots are about the map, Accounts and Requests about the callbacks,
--                   Session/Replies about what a request comes to
--   Transport       raft-kv/transport; Transport/Framing is about the frames
--   Server          raft-kv/server/raft_node.cpp: its operations, Rounds (the loop) and Restart (the
--                   start from the files). Batch, Applying and Once are about the entries that are applied,
--                   Compacting about the index to compact at
--   Examples        concrete inputs, and the theorems applied to them
--
-- How the code is modelled. A method of `Raft` is a function from the object to the result and the new
-- object, or to `fatal`, which stands for LOG_FATAL (a `std::runtime_error`), a failed assertion, a
-- read out of range and an exception that nothing catches. The functions bear the names of the methods;
-- a method that is long is split, and the parts are named for the cases that they serve. Words are
-- natural numbers whose sums and differences wrap at their width (`add64`, `sub64`, `add32`). A map is
-- an association list, since the order of an `unordered_map` is open. A shared progress is written
-- through `update_progress`, which changes it in both maps that may hold it. The numbers of the random
-- device are a sequence in the state. Bytes and texts are lists of numbers, and a directory is the names
-- and bytes of its files. A file of the write-ahead log is the bytes that are in it for certain and
-- those that wait in the stream of the C library, of which any beginning may be in the file too. What
-- the code posts to another thread, and what the socket library calls later, is an operation of its
-- own. Log lines are left out.
--
-- Loops are recursion on their lists or bounds, but for these, which have fuel. The loop of
-- `step_leader` that sends until nothing is left, `send_while`, has `loop_fuel`, the size of the window
-- of the follower and 2 more, because a message of a follower that is replicated to takes a slot of its
-- window, and one to a follower that is probed pauses it. `read_records` is given the number of the
-- bytes of its file, and each record takes 8 or more. `match_from` is given one more than the length of
-- the pattern, and each round takes a byte of it. `read_frames` is given a number of frames, and
-- each takes 5 bytes or more. `parse_lines` is given the number of bytes that were read. A number of
-- 64 bits has at most 20 digits in decimal and 16 in hexadecimal. `pull_ready_events`, which ends when
-- the core is not ready with anything, is given a number of rounds.
--
-- Parameters: the MessagePack encodings, the checksum of the records, and the parser of hiredis.
--
-- Not modelled: sockets, timers and threads, and the handling of host names; failures of the C library
-- but for `fopen` of a snapshot; the program's entry, `main` and `stop`; `Slice` (a pointer and a
-- length), the random device and the printing; the letter case flag of `string_match_len`, which is
-- always 0; mutexes, since the calls of an object come from one thread; `all_entries` and
-- `Ready::equal`, which tests call.
pub mod Common
pub mod Proto
pub mod Status
pub mod Util
pub mod Storage
pub mod Unstable
pub mod RaftLog
pub mod Progress
pub mod InFlights
pub mod ReadOnly
pub mod Config
pub mod Buffer
pub mod Codec
pub mod Wal
pub mod Snap
pub mod Redis
pub mod Raft
pub mod Node
pub mod Transport
pub mod Server
mod Examples
