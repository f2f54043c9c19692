-- ===== src/Raft/Leader.antt =====
-- `step_leader` of raft-kv/raft/raft.cpp, a function for each case.
pub mod Responses
use raft_etcd.Common.{
  ℕ, suc, ◌+◌, Bool, true, false, not, ◌&&◌, ◌||◌, none, some, List, [], ◌∷◌, ◌++◌, or_fatal, ltb,
  ◌==◌, is_empty, get_elem?, add64, if◌then◌else◌,
}
use raft_etcd.Common.Maps.{has_key, nat_keys}
use raft_etcd.Proto.{
  MessageType, Entry, entry_normal, entry_conf_change, Message, empty_message, msg_beat,
  msg_check_quorum, msg_prop, msg_read_index, msg_read_index_resp, msg_app_resp, msg_heartbeat_resp,
  msg_snap_status, msg_unreachable, msg_transfer_leader,
}
use raft_etcd.Status.{Status, ok, invalid_argument}
use raft_etcd.Progress.{
  Progress, ProgressState, probe, replicate, snapshot, become_probe, set_pause, snapshot_failure,
}
use raft_etcd.RaftLog
use raft_etcd.ReadOnly
use raft_etcd.ReadOnly.{ReadState, ReadOnlyOption, safe, lease_based}
use raft_etcd.Raft.State.{Raft, quorum}
use raft_etcd.Raft.Exec.{Exec, ◌>>=◌, ◌>>◌, pure, gets, modify, query, lift, on_some}
use raft_etcd.Raft.Progresses.{get_progress, update_progress, check_quorum_active}
use Responses.{handle_app_resp, handle_heartbeat_resp}
use raft_etcd.Raft.Send.{
  send, bcast_heartbeat, bcast_heartbeat_with_ctx, send_timeout_now, abort_leader_transfer,
}
use raft_etcd.Raft.Replicate.{send_append, bcast_append, append_entry}
use raft_etcd.Raft.Roles.{step_down}

abbrev pub dropped : Status
dropped = invalid_argument "raft proposal dropped"

-- The loop over the proposed entries, with `i` the place of the first: a change of the configuration
-- becomes an empty entry while another may be pending, and else is the pending one.
unfoldable pub screen_conf : ℕ → ℕ → ℕ → ℕ → List Entry → ℕ × List Entry
screen_conf applied last i pending [] = (pending, [])
screen_conf applied last i pending (e ∷ es) =
    let changes = e.type == entry_conf_change in
    let blocked = ltb applied pending in
    let pending' = if changes && not blocked then add64 (add64 last i) 1 else pending in
    let (p, rest) = screen_conf applied last (suc i) pending' es in
    (
      p,
      (if changes && blocked
            then record { type = entry_normal; term = 0; index = 0; payload = [] }
            else e)
          ∷ rest,
    )

unfoldable pub handle_prop : Message → Exec Status
handle_prop m = do
  es ← lift (or_fatal (get_elem? m.entries 0))
  member ← gets (λ r. has_key r.id r.prs)
  if not member then pure dropped else do
    transferee ← gets (λ r. r.lead_transferee)
    if not (transferee == 0) then pure dropped else do
      last ← query RaftLog.last_index
      screened ← gets (λ r. screen_conf r.raft_log.applied last 0 r.pending_conf_index m.entries)
      modify (λ r. record r { pending_conf_index = screened.0 })
      appended ← append_entry screened.1
      if not appended then pure dropped else do bcast_append; pure ok

-- A read is answered at once.
unfoldable pub push_read_state : ℕ → List ℕ → Exec (Unit {0})
push_read_state index ctx = modify λ r. record r {
  read_states = r.read_states ++ record { index = index; request_ctx = ctx } ∷ [];
}

-- The answer to another node goes to the receiver of the empty message, 0, in the source.
unfoldable pub read_by_lease : Message → ℕ → Exec (Unit {0})
read_by_lease m committed = do
  own ← gets (λ r. r.id)
  if m.from == 0 || m.from == own
      then (do e ← lift (or_fatal (get_elem? m.entries 0)); push_read_state committed e.payload)
      else send (record empty_message {
        to = 0;
        type = msg_read_index_resp;
        index = committed;
        entries = m.entries;
      })

unfoldable pub read_by_quorum : Message → ℕ → Exec (Unit {0})
read_by_quorum m committed = do
  ro ← gets (λ r. r.read_only)
  ro' ← lift (ReadOnly.add_request committed m ro)
  modify (λ r. record r { read_only = ro' })
  e ← lift (or_fatal (get_elem? m.entries 0))
  bcast_heartbeat_with_ctx e.payload

unfoldable pub read_by : ReadOnlyOption → Message → ℕ → Exec (Unit {0})
read_by safe m committed = read_by_quorum m committed
read_by lease_based m committed = read_by_lease m committed

-- Without other voters the read is answered at once.
unfoldable pub read_alone : Message → ℕ → Exec (Unit {0})
read_alone m committed = do
  e ← lift (or_fatal (get_elem? m.entries 0))
  push_read_state committed e.payload

unfoldable pub handle_read_index : Message → Exec (Unit {0})
handle_read_index m = do
  q ← gets quorum
  committed ← gets (λ r. r.raft_log.committed)
  if not (ltb 1 q) then read_alone m committed else do
    found ← query (RaftLog.term committed)
    t ← gets (λ r. r.term)
    if not (found.1 == t)
        then pure tt
        else do option ← gets (λ r. r.read_only.option); read_by option m committed

unfoldable pub handle_check_quorum : Exec (Unit {0})
handle_check_quorum = do active ← gets check_quorum_active; if active then pure tt else step_down

abbrev is_snapshot : ProgressState → Bool
is_snapshot snapshot = true
is_snapshot _ = false

abbrev is_replicate : ProgressState → Bool
is_replicate replicate = true
is_replicate _ = false

unfoldable pub handle_snap_status : Message → Progress → Exec (Unit {0})
handle_snap_status m pr =
    if not (is_snapshot pr.state)
    then pure tt
    else update_progress m.from
        (set_pause (become_probe (if m.reject then snapshot_failure pr else pr)))

unfoldable pub handle_unreachable : Message → Progress → Exec (Unit {0})
handle_unreachable m pr =
    if is_replicate pr.state then update_progress m.from (become_probe pr) else pure tt

-- The transfer to a node that is neither the current target nor the leader itself.
unfoldable pub start_transfer : ℕ → Progress → Exec (Unit {0})
start_transfer target pr = do
  modify (λ r. record r { election_elapsed = 0; lead_transferee = target })
  last ← query RaftLog.last_index
  if pr.match == last then send_timeout_now target else send_append target

unfoldable pub handle_transfer_leader : Message → Progress → Exec (Unit {0})
handle_transfer_leader m pr = if pr.is_learner then pure tt else do
  current ← gets (λ r. r.lead_transferee)
  own ← gets (λ r. r.id)
  if not (current == 0) && current == m.from then pure tt else do
    if current == 0 then pure tt else abort_leader_transfer
    if m.from == own then pure tt else start_transfer m.from pr

-- The cases that need the progress of the sender, by the type of the message.
unfoldable pub step_peer : MessageType → Message → Progress → Exec (Unit {0})
step_peer msg_app_resp m pr = handle_app_resp m pr
step_peer msg_heartbeat_resp m pr = handle_heartbeat_resp m pr
step_peer msg_snap_status m pr = handle_snap_status m pr
step_peer msg_unreachable m pr = handle_unreachable m pr
step_peer msg_transfer_leader m pr = handle_transfer_leader m pr
step_peer _ m pr = pure tt

unfoldable pub step_known : Message → Exec Status
step_known m = do
  found ← gets (get_progress m.from)
  on_some found (pure ok) (λ pr. step_peer m.type m pr >> pure ok)

unfoldable pub step_leader_by : MessageType → Message → Exec Status
step_leader_by msg_beat m = do bcast_heartbeat; pure ok
step_leader_by msg_check_quorum m = do handle_check_quorum; pure ok
step_leader_by msg_prop m = handle_prop m
step_leader_by msg_read_index m = do handle_read_index m; pure ok
step_leader_by _ m = step_known m

unfoldable pub step_leader : Message → Exec Status
step_leader m = step_leader_by m.type m
