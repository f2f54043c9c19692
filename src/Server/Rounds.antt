-- ===== src/Server/Rounds.antt =====
-- The loop `pull_ready_events` of raft-kv/server/raft_node.cpp, and the calls that run it.
use raft_etcd.Common.{
  ℕ, zero, suc, Bool, true, false, List, ◌++◌, Outcome, ret, fatal, ◌>>=◌, is_empty, if◌then◌else◌,
}
use raft_etcd.Status.{Status, is_ok}
use raft_etcd.Proto.{Entry, Message, Snapshot, is_empty_snapshot}
use raft_etcd.Storage
use raft_etcd.Storage.{MemoryStorage}
use raft_etcd.Node.Ready.{Ready, contains_updates}
use raft_etcd.Node.RawNode.{RawNode}
use raft_etcd.Node.RawNode
use raft_etcd.Wal.Log.{Wal}
use raft_etcd.Wal.Log
use raft_etcd.Server.{
  Encodings, RaftNode, entries_to_apply, publish_entries, publish_snapshot, save_snap,
  maybe_trigger_snapshot, with_raft, with_storage, storage,
}

module _ {C : Type 0} where
  -- The parts of one round of `pull_ready_events`: the snapshot of the `Ready`, its entries, and
  -- the entries that it tells to be committed. The result of `publish_entries` is not looked at,
  -- and neither are those of the storage.
  unfoldable pub accept_snapshot : Encodings → Bool → Snapshot → RaftNode C → Outcome (RaftNode C)
  unfolding save_snap publish_snapshot
  accept_snapshot F opens snap n =
      if is_empty_snapshot snap
      then ret n
      else save_snap F opens snap n >>= λ (s, n').
          if is_ok s
          then publish_snapshot snap (with_storage (Storage.apply_snapshot snap (storage n')).1 n')
          else fatal

  unfoldable pub accept_entries : List Entry → RaftNode C → Outcome (RaftNode C)
  accept_entries es n =
      if is_empty es
      then ret n
      else Storage.append es (storage n) >>= λ (s, kept). ret (with_storage kept n)

  unfoldable pub apply_committed : Encodings → List Entry → RaftNode C → Outcome (RaftNode C)
  unfolding entries_to_apply publish_entries
  apply_committed F es n =
      if is_empty es
      then ret n
      else entries_to_apply es n.applied_index >>= λ ents.
          if is_empty ents then ret n else publish_entries F ents n >>= (λ (on, n'). ret n')

  -- One round on a `Ready` with updates.
  unfoldable pub handle_ready : Encodings → Bool → Ready → RaftNode C → Outcome (RaftNode C)
  unfolding accept_snapshot accept_entries apply_committed maybe_trigger_snapshot
  handle_ready F opens rd n = Log.save F.records rd.hard_state rd.entries n.wal >>= λ (s, w).
      accept_snapshot F opens rd.snapshot (record n { wal = w }) >>= λ n1.
      accept_entries rd.entries n1 >>= λ n2.
      apply_committed F rd.committed_entries (record n2 { sent = n2.sent ++ rd.messages }) >>= λ n3.
      maybe_trigger_snapshot F opens n3 >>= λ n4.
      RawNode.advance rd n4.node >>= λ node. ret (record n4 { node = node })

  -- `pull_ready_events` on as many rounds as are given; `false` if there was more to do.
  unfoldable pub pull_ready_events : Encodings → Bool → ℕ → RaftNode C → Outcome (Bool × RaftNode C)
  unfolding handle_ready
  pull_ready_events F opens zero n = ret (false, n)
  pull_ready_events F opens (suc rounds) n = RawNode.has_ready n.node >>= λ more. elim more [
    | false ↦ ret (true, n)
    | true ↦ RawNode.ready n.node >>= λ (rd, node). elim (contains_updates rd) [
      | false ↦ ret (true, record n { node = node })
      | true ↦ handle_ready F opens rd (record n { node = node }) >>= λ n'.
          pull_ready_events F opens rounds n'
    ]
  ]

  -- `propose` and `process`, on the thread of the node: the status for the callback, and the rounds.
  unfoldable pub propose :
      Encodings → Bool → ℕ → List ℕ → RaftNode C → Outcome (Status × Bool × RaftNode C)
  unfolding pull_ready_events
  propose F opens rounds bytes n = RawNode.propose bytes n.node.raft >>= λ (s, r).
      pull_ready_events F opens rounds (with_raft r n) >>= λ (done, n'). ret (s, done, n')

  unfoldable pub process :
      Encodings → Bool → ℕ → Message → RaftNode C → Outcome (Status × Bool × RaftNode C)
  unfolding pull_ready_events
  process F opens rounds msg n = RawNode.step_message msg n.node.raft >>= λ (s, r).
      pull_ready_events F opens rounds (with_raft r n) >>= λ (done, n'). ret (s, done, n')
