-- ===== src/Raft/Leader/Responses.antt =====
-- What the leader of raft-kv/raft/raft.cpp does with the answers of its followers.
use raft_etcd.Common.{
  ℕ, ◌+◌, Bool, true, false, not, ◌&&◌, ◌||◌, List, [], ◌∷◌, ◌++◌, or_fatal, ltb, ◌==◌, is_empty,
  get_elem?, if◌then◌else◌,
}
use raft_etcd.Common.Maps.{nat_keys}
use raft_etcd.Proto.{Message, empty_message, msg_read_index_resp}
use raft_etcd.InFlights
use raft_etcd.Progress.{
  Progress, ProgressState, probe, replicate, snapshot, become_probe, become_replicate, is_paused,
  maybe_update, maybe_decreases_to, need_snapshot_abort,
}
use raft_etcd.RaftLog
use raft_etcd.ReadOnly
use raft_etcd.ReadOnly.{ReadIndexStatus, ReadOnlyOption, safe, lease_based}
use raft_etcd.Raft.State.{quorum}
use raft_etcd.Raft.Exec.{Exec, ◌>>=◌, ◌>>◌, pure, gets, modify, query, lift, when}
use raft_etcd.Raft.Progresses.{progress_of, update_progress}
use raft_etcd.Raft.Send.{send, send_timeout_now}
use raft_etcd.Raft.Commit.{maybe_commit}
use raft_etcd.Raft.Replicate.{send_append, bcast_append, send_while}

-- A probe or a whole window of messages, and the round that finds nothing to send.
abbrev pub loop_fuel : Progress → ℕ
loop_fuel pr = pr.inflights.size + 2

-- A rejection: the next index goes back.
unfoldable pub handle_rejection : Message → Progress → Exec (Unit {0})
handle_rejection m pr =
    let (decreased, pr') = maybe_decreases_to m.index m.reject_hint pr in
    if not decreased then update_progress m.from pr' else do
      update_progress m.from (elim pr'.state [ replicate ↦ become_probe pr' | _ ↦ pr' ])
      send_append m.from

-- The progress after an answer that moved the match, by its state.
unfoldable pub progress_updated : ProgressState → ℕ → Progress → Exec Progress
progress_updated probe index pr = pure (become_replicate pr)
progress_updated snapshot index pr = pure (if need_snapshot_abort pr then become_probe pr else pr)
progress_updated replicate index pr = do
  f ← lift (InFlights.free_to index pr.inflights)
  pure (record pr { inflights = f })

-- What the leader sends once the match of a follower has moved.
unfoldable pub send_more : Message → Bool → Exec (Unit {0})
send_more m old_paused = do
  committed ← maybe_commit
  if committed then bcast_append else when old_paused (send_append m.from)
  pr ← progress_of m.from
  send_while (loop_fuel pr) m.from
  transferee ← gets (λ r. r.lead_transferee)
  pr' ← progress_of m.from
  last ← query RaftLog.last_index
  when (m.from == transferee && pr'.match == last) (send_timeout_now m.from)

unfoldable pub handle_acceptance : Message → Progress → Exec (Unit {0})
handle_acceptance m pr =
    let (updated, pr') = maybe_update m.index pr in
    if not updated then update_progress m.from pr' else do
      pr'' ← progress_updated pr'.state m.index pr'
      update_progress m.from pr''
      send_more m (is_paused pr)

unfoldable pub handle_app_resp : Message → Progress → Exec (Unit {0})
handle_app_resp m pr =
    let active : Progress = record pr { recent_active = true } in
    if m.reject then handle_rejection m active else handle_acceptance m active

-- The answer to a read request that a quorum has confirmed.
unfoldable pub answer_read : ReadIndexStatus → Exec (Unit {0})
answer_read rs = do
  own ← gets (λ r. r.id)
  if rs.req.from == 0 || rs.req.from == own
      then (do
        e ← lift (or_fatal (get_elem? rs.req.entries 0))
        modify (λ r. record r {
          read_states = r.read_states ++ record { index = rs.index; request_ctx = e.payload } ∷ [];
        }))
      else send (record empty_message {
        to = rs.req.from;
        type = msg_read_index_resp;
        index = rs.index;
        entries = rs.req.entries;
      })

unfoldable pub answer_reads : List ReadIndexStatus → Exec (Unit {0})
answer_reads [] = pure tt
answer_reads (rs ∷ rss) = do answer_read rs; answer_reads rss

abbrev is_safe : ReadOnlyOption → Bool
is_safe safe = true
is_safe lease_based = false

-- The answer to a heartbeat counts for the reads that wait.
unfoldable pub confirm_reads : Message → Exec (Unit {0})
confirm_reads m = do
  ro ← gets (λ r. r.read_only)
  if not (is_safe ro.option) || is_empty m.context then pure tt else do
    let acked = ReadOnly.recv_ack m ro
    modify (λ r. record r { read_only = acked.1 })
    q ← gets quorum
    if ltb acked.0 q then pure tt else do
      served ← lift (ReadOnly.advance m acked.1)
      modify (λ r. record r { read_only = served.1 })
      answer_reads served.0

-- One slot of a full window is freed.
unfoldable pub freed : ProgressState → Progress → Exec Progress
freed replicate pr =
    if not (InFlights.is_full pr.inflights)
    then pure pr
    else do f ← lift (InFlights.free_first_one pr.inflights); pure (record pr { inflights = f })
freed _ pr = pure pr

unfoldable pub handle_heartbeat_resp : Message → Progress → Exec (Unit {0})
handle_heartbeat_resp m pr = do
  pr' ← freed pr.state (record pr { recent_active = true; paused = false })
  update_progress m.from pr'
  last ← query RaftLog.last_index
  when (ltb pr'.match last) (send_append m.from)
  confirm_reads m
