-- ===== src/Raft/Follower.antt =====
-- What followers do with the messages of a leader in raft-kv/raft/raft.cpp.
use raft_etcd.Common.{
  ℕ, Bool, true, false, not, ◌&&◌, ◌||◌, List, [], ◌∷◌, ltb, leb, ◌==◌, add64, sub64, Outcome, ret,
  fatal, if◌then◌else◌,
}
use raft_etcd.Common.Maps.{nat_keys}
use raft_etcd.Proto.{Message, Snapshot, msg_app_resp, msg_heartbeat_resp, empty_message}
use raft_etcd.RaftLog
use raft_etcd.RaftLog.{RaftLog}
use raft_etcd.Raft.State.{Raft}
use raft_etcd.Raft.Exec.{Exec, ◌>>=◌, ◌>>◌, pure, gets, modify, query, on_log, on_some, when}
use raft_etcd.Raft.Progresses.{progress_of, set_progress}
use raft_etcd.Raft.Send.{send}

-- A `RaftLog` method without a result.
abbrev pub no_result : Outcome RaftLog → Outcome (Unit {0} × RaftLog)
no_result (ret l) = ret (tt, l)
no_result fatal = fatal

unfoldable pub commit_to : ℕ → Exec (Unit {0})
commit_to index = on_log (λ l. no_result (RaftLog.commit_to index l))

-- The answer to an append whose place in the log does not match.
unfoldable pub reject_append : Message → Exec (Unit {0})
reject_append m = do
  last ← query RaftLog.last_index
  send (record empty_message {
    to = m.from;
    type = msg_app_resp;
    index = m.index;
    reject = true;
    reject_hint = last;
  })

unfoldable pub accept_append : Message → ℕ → Exec (Unit {0})
accept_append m last =
    send (record empty_message { to = m.from; type = msg_app_resp; index = last })

unfoldable pub handle_append_entries : Message → Exec (Unit {0})
handle_append_entries m = do
  committed ← gets (λ r. r.raft_log.committed)
  if ltb m.index committed then accept_append m committed else do
    appended ← on_log (RaftLog.maybe_append m.index m.log_term m.commit m.entries)
    on_some appended (reject_append m) (accept_append m)

-- The source moves the context of the request onto itself, so the answer has none.
unfoldable pub handle_heartbeat : Message → Exec (Unit {0})
handle_heartbeat m = do
  commit_to m.commit
  send (record empty_message { to = m.from; type = msg_heartbeat_resp })

-- One node of the snapshot. The line that is logged reads the own progress, which must be there.
unfoldable pub restore_one : ℕ → Bool → Exec (Unit {0})
restore_one node is_learner = do
  last ← query RaftLog.last_index
  own ← gets (λ r. r.id)
  let next = add64 last 1
  when (node == own) (modify (λ r. record r { is_learner = is_learner }))
  set_progress node (if node == own then sub64 next 1 else 0) next is_learner
  progress_of own
  pure tt

unfoldable pub restore_node : List ℕ → Bool → Exec (Unit {0})
restore_node [] is_learner = pure tt
restore_node (node ∷ nodes) is_learner = do
  restore_one node is_learner
  restore_node nodes is_learner

abbrev member : ℕ → List ℕ → Bool
member a [] = false
member a (x ∷ xs) = x == a || member a xs

-- The part of `restore` that replaces the log and the nodes.
unfoldable pub install : Snapshot → Exec (Unit {0})
install s = do
  modify (λ r. record r { raft_log = RaftLog.restore s r.raft_log; prs = []; learner_prs = [] })
  restore_node s.metadata.conf_state.nodes false
  restore_node s.metadata.conf_state.learners true

-- The snapshot would make a learner of a voter.
unfoldable pub is_demoted : Snapshot → Raft → Bool
is_demoted s r = not r.is_learner && member r.id s.metadata.conf_state.learners

-- `restore` of a snapshot beyond the commit index.
unfoldable pub restore_newer : Snapshot → Exec Bool
restore_newer s = do
  same ← query (RaftLog.match_term s.metadata.index s.metadata.term)
  if same then (do commit_to s.metadata.index; pure false) else do
    demoted ← gets (is_demoted s)
    if demoted then pure false else (do install s; pure true)

unfoldable pub restore : Snapshot → Exec Bool
restore s = do
  committed ← gets (λ r. r.raft_log.committed)
  if leb s.metadata.index committed then pure false else restore_newer s

-- The index is set on the request and not on the answer, which so keeps 0.
unfoldable pub handle_snapshot : Message → Exec (Unit {0})
handle_snapshot m = do
  restored ← restore m.snapshot
  if restored then (do query RaftLog.last_index; pure tt) else pure tt
  send (record empty_message { to = m.from; type = msg_app_resp })
