-- ===== src/Node/RawNode.antt =====
-- `RawNode` of raft-kv/raft/node.h and node.cpp. `ConfChange::serialize`, which msgpack implements,
-- is a parameter of the calls that use it. A failed status that is only logged is dropped.
use raft_etcd.Common.{
  ℕ, suc, ◌+◌, Bool, true, false, not, ◌&&◌, ◌||◌, none, some, List, [], ◌∷◌, Outcome, ret,
  ◌>>=◌ as bind, ltb, ◌==◌, length, is_empty, get_last?, if◌then◌else◌,
}
use raft_etcd.Proto.{
  Entry, entry_normal, entry_conf_change, Message, empty_message, msg_hup, msg_prop,
  msg_unreachable, msg_snap_status, msg_transfer_leader, msg_read_index, type_code, is_local_msg,
  is_response_msg, is_empty_snapshot, HardState, empty_hard_state, is_empty_state, same_hard_state,
  ConfState, ConfChange,
}
use raft_etcd.Status.{Status, invalid_argument}
use raft_etcd.Storage
use raft_etcd.RaftLog
use raft_etcd.Config.{Config}
use raft_etcd.Raft.State.{Raft}
use raft_etcd.Raft.Exec.{Exec, ◌>>=◌, ◌>>◌, pure, throw, gets, modify, on_log, on_some}
use raft_etcd.Raft.Progresses.{get_progress}
use raft_etcd.Raft.Replicate.{reduced_size}
use raft_etcd.Raft.Roles.{become_follower}
use raft_etcd.Raft.Step.{step}
use raft_etcd.Raft.Membership.{
  SoftState, soft_state, hard_state, add_node, add_node_or_learner, remove_node, nodes,
  learner_nodes,
}
use raft_etcd.Raft.Create.{new_raft, left_by}
use raft_etcd.Node.Ready.{Ready, new_ready, same_soft_state, applied_cursor}

pub record RawNode : Type 0 where
  pub raft : Raft
  pub prev_soft_state : SoftState
  pub prev_hard_state : HardState

-- `PeerContext`.
pub record PeerContext : Type 0 where
  pub id : ℕ
  pub context : List ℕ

unfoldable pub campaign : Exec Status
campaign = step (record empty_message { type = msg_hup })

unfoldable pub propose : List ℕ → Exec Status
propose payload = do
  own ← gets (λ r. r.id)
  step (record empty_message {
    type = msg_prop;
    from = own;
    entries = record { type = entry_normal; term = 0; index = 0; payload = payload } ∷ [];
  })

unfoldable pub propose_conf_change : (ConfChange → List ℕ) → ConfChange → Exec Status
propose_conf_change serialize cc = step (record empty_message {
  type = msg_prop;
  entries = record { type = entry_conf_change; term = 0; index = 0; payload = serialize cc } ∷ [];
})

-- Local messages are refused, and answers of nodes that are not in the configuration.
unfoldable pub step_message : Message → Exec Status
step_message m =
    if is_local_msg m.type
    then pure (invalid_argument "raft:cannot step raft local message")
    else do
      found ← gets (get_progress m.from)
      on_some found
          (if is_response_msg m.type
            then pure (invalid_argument "raft:cannot step as peer not found")
            else step m)
          (λ p. step m)

unfoldable pub ready : RawNode → Outcome (Ready × RawNode)
ready n = bind (new_ready n.prev_soft_state n.prev_hard_state n.raft) λ made.
    let r : Raft = record made.1 {
      msgs = [];
      uncommitted_size = reduced_size made.1.uncommitted_size made.0.committed_entries;
    } in
    ret (made.0, record n { raft = r })

unfoldable pub has_ready : RawNode → Outcome Bool
has_ready n =
    let hs = hard_state n.raft in
    let snap = n.raft.raft_log.unstable.snapshot in
    if not (same_soft_state (soft_state n.raft) n.prev_soft_state)
    then ret true
    else if not (is_empty_state hs) && not (same_hard_state hs n.prev_hard_state)
    then ret true
    else if elim snap [ none ↦ false | some s ↦ not (is_empty_snapshot s) ]
    then ret true
    else if not (is_empty n.raft.msgs) || not (is_empty n.raft.raft_log.unstable.entries)
    then ret true
    else bind (RaftLog.has_next_entries n.raft.raft_log)
        λ more. ret (more || not (is_empty n.raft.read_states))

-- The calls of the log in `advance`.
unfoldable pub advance_log : Ready → RaftLog.RaftLog → Outcome RaftLog.RaftLog
advance_log rd l =
    let index = applied_cursor rd in
    let applied = if ltb 0 index then RaftLog.applied_to index l else l in
    bind
      (elim (get_last? rd.entries) [
        | none ↦ ret applied
        | some e ↦ RaftLog.stable_to e.index e.term applied
      ])
      λ stable. ret (
        if is_empty_snapshot rd.snapshot
        then stable
        else RaftLog.stable_snap_to rd.snapshot.metadata.index stable)

unfoldable pub advance : Ready → RawNode → Outcome RawNode
advance rd n = bind (advance_log rd n.raft.raft_log) λ l. ret (record {
  raft = record n.raft {
    raft_log = l;
    read_states = if is_empty rd.read_state then n.raft.read_states else [];
  };
  prev_soft_state = elim rd.soft_state [ none ↦ n.prev_soft_state | some s ↦ s ];
  prev_hard_state = if is_empty_state rd.hard_state then n.prev_hard_state else rd.hard_state;
})

abbrev conf_state : Exec ConfState
conf_state = gets (λ r. record { nodes = nodes r; learners = learner_nodes r })

-- The types of a change are 0 (add), 1 (remove), 2 (update) and 3 (add a learner).
unfoldable pub apply_conf_change : ConfChange → Exec ConfState
apply_conf_change cc = if cc.node_id == 0 then conf_state else do
  if cc.conf_change_type == 0
      then add_node_or_learner cc.node_id false
      else if cc.conf_change_type == 3
      then add_node_or_learner cc.node_id true
      else if cc.conf_change_type == 1
      then remove_node cc.node_id
      else if cc.conf_change_type == 2
      then pure tt
      else throw
  conf_state

unfoldable pub transfer_leadership : ℕ → ℕ → Exec (Unit {0})
transfer_leadership lead transferee = do
  step (record empty_message { type = msg_transfer_leader; from = transferee; to = lead })
  pure tt

-- The entry has the number of a message type for its own type, as in the source.
unfoldable pub read_index : List ℕ → Exec Status
read_index rctx = step (record empty_message {
  type = msg_read_index;
  entries = record { type = type_code msg_read_index; term = 0; index = 0; payload = rctx } ∷ [];
})

unfoldable pub report_unreachable : ℕ → Exec (Unit {0})
report_unreachable id = do
  step (record empty_message { type = msg_unreachable; from = id })
  pure tt

-- `SnapshotFailure` is 2.
unfoldable pub report_snapshot : ℕ → ℕ → Exec (Unit {0})
report_snapshot id status = do
  step (record empty_message { type = msg_snap_status; from = id; reject = status == 2 })
  pure tt

-- The entries of a new cluster, one for each peer, from the place `i` on.
unfoldable pub bootstrap_entries : (ConfChange → List ℕ) → ℕ → List PeerContext → List Entry
bootstrap_entries serialize i [] = []
bootstrap_entries serialize i (p ∷ ps) =
    record {
      type = entry_conf_change;
      term = 1;
      index = i + 1;
      payload =
          serialize (record { id = 0; conf_change_type = 0; node_id = p.id; context = p.context });
    }
    ∷ bootstrap_entries serialize (suc i) ps

add_nodes : List PeerContext → Exec (Unit {0})
add_nodes [] = pure tt
add_nodes (p ∷ ps) = do add_node p.id; add_nodes ps

unfoldable pub bootstrap : (ConfChange → List ℕ) → List PeerContext → Exec (Unit {0})
unfolding add_nodes
bootstrap serialize peers = do
  become_follower 1 0
  let es = bootstrap_entries serialize 0 peers
  on_log (RaftLog.append es)
  modify (λ r. record r { raft_log = record r.raft_log { committed = length es } })
  add_nodes peers

abbrev node_of : ℕ → Raft → RawNode
node_of last r = record {
  raft = r;
  prev_soft_state = soft_state r;
  prev_hard_state = if last == 0 then empty_hard_state else hard_state r;
}

-- `RawNode(conf, peers)`: a new cluster, if the log is empty.
unfoldable pub start_node :
    (ConfChange → List ℕ) → Config → (ℕ → ℕ) → List PeerContext → Outcome RawNode
start_node serialize c draws peers = bind (new_raft c draws) λ r.
    bind (Storage.last_index c.storage) λ last.
      if last == 0
      then bind (left_by (bootstrap serialize peers r)) (λ r'. ret (node_of last r'))
      else ret (node_of last r)

-- `RawNode(conf)`.
unfoldable pub restart_node : Config → (ℕ → ℕ) → Outcome RawNode
restart_node c draws =
    bind (Storage.last_index c.storage) λ last. bind (new_raft c draws) (λ r. ret (node_of last r))
