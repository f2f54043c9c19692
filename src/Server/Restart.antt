-- ===== src/Server/Restart.antt =====
-- How a node of raft-kv/server/raft_node.cpp starts: `replay_WAL` and `schedule`.
use raft_etcd.Common.{ℕ, List, [], ◌∷◌, Option, none, some, Outcome, ret, fatal, ◌>>=◌, get_last?}
use raft_etcd.Proto.{Entry, Snapshot}
use raft_etcd.Storage
use raft_etcd.Storage.{MemoryStorage}
use raft_etcd.Wal.Log.{Wal}
use raft_etcd.Wal.Log
use raft_etcd.Redis.Store.{Pairs, RaftCommit, RedisStore}
use raft_etcd.Redis.Store
use raft_etcd.Server.{Encodings, RaftNode, storage}

-- The entries behind the pointers that are read back, none of which is null.
unfoldable pub all_present : List (Option Entry) → Outcome (List Entry)
all_present [] = ret []
all_present (none ∷ xs) = fatal
all_present (some e ∷ xs) = all_present xs >>= λ es. ret (e ∷ es)

-- The storage with the snapshot that was loaded, if one was.
abbrev pub restored : Option Snapshot → MemoryStorage → MemoryStorage
restored none s = s
restored (some snap) s = (Storage.apply_snapshot snap s).1

abbrev pub snap_content : Option Snapshot → List ℕ
snap_content none = []
snap_content (some snap) = snap.content

-- `replay_WAL`, less the opening of the files: the storage, the last index and the bytes for the
-- store, which are those of the snapshot only if the log has no entries after it. A null pointer
-- among the entries cannot be read.
unfoldable pub replay_wal :
    Encodings → Option Snapshot → Wal → MemoryStorage → Outcome (MemoryStorage × ℕ × List ℕ × Wal)
replay_wal F snap w s = Log.read_all F.records w >>= λ (status, hs, ents, w').
    all_present ents >>= λ es.
    Storage.append es (Storage.set_hard_state hs (restored snap s)) >>= λ (status', s').
    ret (elim (get_last? es) [
      | none ↦ (s', 0, snap_content snap, w')
      | some e ↦ (s', e.index, [], w')
    ])

module _ {C : Type 0} where
  -- `schedule`, up to the timer: the indexes are those of the snapshot of the storage, and the
  -- store starts from the bytes that `replay_WAL` kept.
  unfoldable pub schedule : Encodings → List ℕ → RaftNode C → Outcome (RaftNode C)
  schedule F snap_data n = Store.new_store F.maps snap_data >>= λ st.
      let meta = (storage n).snapshot.metadata in
      ret (record n {
        conf_state = meta.conf_state;
        snapshot_index = meta.index;
        applied_index = meta.index;
        redis = st;
      })
