-- ===== src/Raft/Send.antt =====
-- `send` of raft-kv/raft/raft.cpp, and the methods that only build a message for it.
use raft_etcd.Common.{
  ℕ, Bool, true, false, not, ◌&&◌, List, [], ◌∷◌, ◌++◌, min, ◌==◌, if◌then◌else◌,
}
use raft_etcd.Common.Maps.{nat_keys}
use raft_etcd.Proto.{
  MessageType, msg_prop, msg_vote, msg_vote_resp, msg_heartbeat, msg_timeout_now, msg_read_index,
  msg_pre_vote, msg_pre_vote_resp, Message, empty_message, same_type, type_code,
}
use raft_etcd.ReadOnly.{last_pending_request_ctx}
use raft_etcd.Raft.State.{Raft}
use raft_etcd.Raft.Exec.{Exec, ◌>>=◌, pure, throw, gets, modify}
use raft_etcd.Raft.Progresses.{progress_of, all_ids, for_each}

-- The messages whose term the caller sets.
unfoldable pub is_vote_type : MessageType → Bool
is_vote_type msg_vote = true
is_vote_type msg_vote_resp = true
is_vote_type msg_pre_vote = true
is_vote_type msg_pre_vote_resp = true
is_vote_type _ = false

-- The second test of the last branch compares the term with a type, as the source does.
abbrev pub stamped : Raft → Message → Message
stamped r m =
    if is_vote_type m.type
    then record m { from = r.id }
    else if not (m.term == type_code msg_prop) && not (same_type m.type msg_read_index)
    then record m { from = r.id; term = r.term }
    else record m { from = r.id }

unfoldable pub send : Message → Exec (Unit {0})
unfolding is_vote_type
send m =
    if (if is_vote_type m.type then m.term == 0 else not (m.term == 0))
    then throw
    else modify (λ r. record r { msgs = r.msgs ++ stamped r m ∷ [] })

unfoldable pub send_heartbeat : ℕ → List ℕ → Exec (Unit {0})
send_heartbeat to ctx = do
  pr ← progress_of to
  committed ← gets (λ r. r.raft_log.committed)
  send (record empty_message {
    to = to;
    type = msg_heartbeat;
    commit = min pr.match committed;
    context = ctx;
  })

-- One round of a broadcast: the node itself is skipped.
unfoldable pub unless_self : (ℕ → Exec (Unit {0})) → ℕ → Exec (Unit {0})
unless_self f id = do own ← gets (λ r. r.id); if id == own then pure tt else f id

unfoldable pub bcast_heartbeat_with_ctx : List ℕ → Exec (Unit {0})
bcast_heartbeat_with_ctx ctx = do
  ids ← gets all_ids
  for_each ids (unless_self (λ id. send_heartbeat id ctx))

unfoldable pub bcast_heartbeat : Exec (Unit {0})
bcast_heartbeat = do
  ctx ← gets (λ r. last_pending_request_ctx r.read_only)
  bcast_heartbeat_with_ctx ctx

unfoldable pub send_timeout_now : ℕ → Exec (Unit {0})
send_timeout_now to = send (record empty_message { to = to; type = msg_timeout_now })

unfoldable pub abort_leader_transfer : Exec (Unit {0})
abort_leader_transfer = modify (λ r. record r { lead_transferee = 0 })
