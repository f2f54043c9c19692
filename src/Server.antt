-- ===== src/Server.antt =====
-- `RaftNode` of raft-kv/server/raft_node.h and raft_node.cpp: the loop that takes what the Raft core
-- is ready with to the log on disk, the store and the other nodes. The storage is the one that the
-- log of the core has. What is posted to the thread of the store waits in a list, in order.
pub mod Rounds
pub mod Restart
pub mod Batch
pub mod Applying
pub mod Once
pub mod Compacting
use raft_etcd.Common.{
  ℕ, zero, suc, ◌+◌, ◌-◌, ◌*◌, Bool, true, false, not, List, [], ◌∷◌, ◌++◌, Option, none, some,
  Outcome, ret, fatal, ◌>>=◌, length, drop, is_empty, ltb, leb, ◌==◌, add64, sub64, get_last?,
  if◌then◌else◌,
}
use raft_etcd.Codec.{Codec}
use raft_etcd.Status.{Status, ok, is_ok}
use raft_etcd.Proto.{
  Entry, entry_normal, entry_conf_change, Message, Snapshot, is_empty_snapshot, ConfState,
  ConfChange,
}
use raft_etcd.Storage
use raft_etcd.Storage.{MemoryStorage}
use raft_etcd.RaftLog.{RaftLog}
use raft_etcd.Raft.State.{Raft}
use raft_etcd.Node.Ready.{Ready, contains_updates}
use raft_etcd.Node.RawNode.{RawNode}
use raft_etcd.Node.RawNode
use raft_etcd.Wal.Record.{WalSnapshot, Formats}
use raft_etcd.Wal.Log.{Wal}
use raft_etcd.Wal.Log
use raft_etcd.Snap.{SnapFormat, Directory}
use raft_etcd.Snap
use raft_etcd.Redis.Store.{Pairs, RaftCommit, RedisStore}
use raft_etcd.Redis.Store

-- The encodings that the server's parts use.
pub record Encodings : Type 0 where
  pub commits : Codec RaftCommit
  pub maps : Codec Pairs
  pub conf_changes : Codec ConfChange
  pub records : Formats
  pub snaps : SnapFormat

-- A function that is posted to the thread of the store.
pub data Posted : Type 0 where
  read_commit_post : List ℕ → Posted
  recover_post : List ℕ → Posted

pub record RaftNode (C : Type 0) : Type 0 where
  pub id : ℕ
  pub last_index : ℕ
  pub conf_state : ConfState
  pub snapshot_index : ℕ
  pub applied_index : ℕ
  pub node : RawNode
  pub redis : RedisStore C
  pub posted : List Posted
  pub wal : Wal
  pub snap_dir : Directory
  pub sent : List Message
  pub added_peers : List (ℕ × List ℕ)

abbrev pub snap_count : ℕ
snap_count = 100_000

abbrev pub snapshot_catch_up_entries_n : ℕ
snapshot_catch_up_entries_n = 100_000

-- The committed entries that are not applied yet.
unfoldable pub entries_to_apply : List Entry → ℕ → Outcome (List Entry)
entries_to_apply [] applied = ret []
entries_to_apply (e ∷ es) applied =
    if ltb (add64 applied 1) e.index
    then fatal
    else if ltb (add64 (sub64 applied e.index) 1) (length (e ∷ es))
    then ret (drop (add64 (sub64 applied e.index) 1) (e ∷ es))
    else ret []

-- The index to compact at.
unfoldable pub compact_index : ℕ → ℕ
compact_index applied =
    if ltb snapshot_catch_up_entries_n applied then sub64 applied snapshot_catch_up_entries_n else 1

module _ {C : Type 0} where
  abbrev pub with_raft : Raft → RaftNode C → RaftNode C
  with_raft r n = record n { node = record n.node { raft = r } }

  abbrev pub storage : RaftNode C → MemoryStorage
  storage n = n.node.raft.raft_log.storage

  abbrev pub with_storage : MemoryStorage → RaftNode C → RaftNode C
  with_storage s n =
      with_raft (record n.node.raft { raft_log = record n.node.raft.raft_log { storage = s } }) n

  -- The inner `switch` on a change: whether the loop goes on.
  abbrev pub after_change : ConfChange → RaftNode C → Bool × RaftNode C
  after_change cc n =
      if cc.conf_change_type == 0
      then (
        true,
        if is_empty cc.context
            then n
            else record n { added_peers = n.added_peers ++ (cc.node_id, cc.context) ∷ [] },
      )
      else if cc.conf_change_type == 1
      then (not (cc.node_id == n.id), n)
      else (true, n)

  -- One round for a change of the configuration; a change that is not understood is skipped.
  abbrev pub publish_change : ℕ → Option ConfChange → RaftNode C → Outcome (Bool × RaftNode C)
  publish_change index none n = ret (true, n)
  publish_change index (some cc) n = RawNode.apply_conf_change cc n.node.raft >>= λ (cs, r).
      let (on, n') = after_change cc (with_raft r (record n { conf_state = cs })) in
      ret (on, if on then record n' { applied_index = index } else n')

  abbrev pub publish_entry : Encodings → Entry → RaftNode C → Outcome (Bool × RaftNode C)
  publish_entry F e n =
      if e.type == entry_normal
      then ret (
        true,
        record n {
          posted =
              if is_empty e.payload then n.posted else n.posted ++ read_commit_post e.payload ∷ [];
          applied_index = e.index;
        },
      )
      else if e.type == entry_conf_change
      then publish_change e.index (F.conf_changes.unpack e.payload) n
      else fatal

  -- `false` if the node itself is removed.
  unfoldable pub publish_entries : Encodings → List Entry → RaftNode C → Outcome (Bool × RaftNode C)
  publish_entries F [] n = ret (true, n)
  publish_entries F (e ∷ es) n = publish_entry F e n >>= λ (on, n'). elim on [
    | true ↦ publish_entries F es n'
    | false ↦ ret (false, n')
  ]

  unfoldable pub publish_snapshot : Snapshot → RaftNode C → Outcome (RaftNode C)
  publish_snapshot snap n =
      if is_empty_snapshot snap
      then ret n
      else if leb snap.metadata.index n.applied_index
      then fatal
      else ret (record n {
        conf_state = snap.metadata.conf_state;
        snapshot_index = snap.metadata.index;
        applied_index = snap.metadata.index;
        posted = n.posted ++ recover_post snap.content ∷ [];
      })

  -- The end of `save_snap`: a failure of `fopen` ends the program.
  abbrev pub snap_saved : Status × Directory → RaftNode C → Outcome (Status × RaftNode C)
  snap_saved (s, dir) n = if is_ok s then ret (s, record n { snap_dir = dir }) else fatal

  unfoldable pub save_snap :
      Encodings → Bool → Snapshot → RaftNode C → Outcome (Status × RaftNode C)
  save_snap F opens snap n =
      Log.save_snapshot F.records
        (record { index = snap.metadata.index; term = snap.metadata.term }) n.wal
      >>= λ (s, w).
          if is_ok s
          then snap_saved (Snap.save_snap F.snaps opens snap n.snap_dir) (record n { wal = w })
          else ret (s, record n { wal = w })

  -- The thread of the store runs what is posted. The callback of a recovery ends the program if it
  -- failed.
  unfoldable pub run_posted : Encodings → ℕ → List Posted → RedisStore C → Outcome (RedisStore C)
  run_posted F id [] st = ret st
  run_posted F id (read_commit_post bytes ∷ ps) st =
      Store.read_commit F.commits id bytes st >>= λ st'. run_posted F id ps st'
  run_posted F id (recover_post snap ∷ ps) st =
      Store.recover_from_snapshot F.maps snap st >>= λ (s, st'). elim (is_ok s) [
        | true ↦ run_posted F id ps st'
        | false ↦ fatal
      ]

  -- What follows in `maybe_trigger_snapshot` once the store has handed over its map.
  unfoldable pub take_snapshot : Encodings → Bool → List ℕ → RaftNode C → Outcome (RaftNode C)
  unfolding compact_index save_snap
  take_snapshot F opens content n =
      Storage.create_snapshot n.applied_index (some n.conf_state) content (storage n)
      >>= λ (s, snap, kept).
          if is_ok s
          then save_snap F opens snap (with_storage kept n) >>= (λ (s', n').
            if is_ok s'
            then Storage.compact (compact_index n'.applied_index) (storage n')
              >>= (λ (s'', compacted).
                  if is_ok s''
                  then ret
                      (record (with_storage compacted n') { snapshot_index = n'.applied_index })
                  else fatal)
            else fatal)
          else fatal

  unfoldable pub maybe_trigger_snapshot : Encodings → Bool → RaftNode C → Outcome (RaftNode C)
  unfolding run_posted take_snapshot
  maybe_trigger_snapshot F opens n =
      if leb (sub64 n.applied_index n.snapshot_index) snap_count
      then ret n
      else run_posted F n.id n.posted n.redis >>= λ st.
          take_snapshot F opens (Store.get_snapshot F.maps st)
            (record n { redis = st; posted = [] })
