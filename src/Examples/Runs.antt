-- ===== src/Examples/Runs.antt =====
-- Runs of one node of raft-kv/raft/raft.cpp, and its theorems on them.
use raft_etcd.Common.{
  ℕ, ◌≡◌, ◌≤◌, ◌<◌, ◌⊎◌, refl, inl, arith, ret, true, List, [], ◌∷◌, ◌++◌, add64, sub64, to_u32,
}
use raft_etcd.Proto.{msg_heartbeat, Message, empty_message, msg_vote_resp, same_type, type_code}
use raft_etcd.Util.{vote_resp_msg_type}
use raft_etcd.Status.{Status, ok}
use raft_etcd.Storage
use raft_etcd.Unstable
use raft_etcd.RaftLog
use raft_etcd.Raft.State.{Raft, quorum}
use raft_etcd.Raft.Exec.{◌>>=◌, pure, gets, modify, query, lift, on_log, when}
use raft_etcd.Raft.Send.{send, is_vote_type}
use raft_etcd.Raft.Election.{grant_vote, reject_vote, grant_or_reject, answer_vote, handle_vote}
use raft_etcd.Raft.Step.{step, dispatch}
use raft_etcd.Raft.Commit.{maybe_commit, quorum_match, sort, insert}
use raft_etcd.Raft.Still.{From}
use raft_etcd.Raft.Still.Runs.{Runs, start, step_on, one_vote, runs_forward, runs_signed}
use raft_etcd.Raft.Still.Votes.{Earned, handle_vote_lem}
use raft_etcd.Raft.Still.Earlier.{Answered, step_earlier_term}
use raft_etcd.Raft.Rule.{maybe_commit_lem}
use raft_etcd.Raft.Quorum.{reaching, quorum_match_lem, quorum_match_most}
use raft_etcd.Examples.{node, log, vote_request}

-- The node after it has refused the request of 3.
abbrev refused : Raft
refused = record (node 2) {
  msgs =
      record empty_message { from = 1; to = 3; term = 5; type = msg_vote_resp; reject = true } ∷ [];
}

-- The node after it has granted the request of 3.
abbrev granted : Raft
granted = record (node 0) {
  vote = 3;
  msgs = record empty_message { from = 1; to = 3; term = 5; type = msg_vote_resp } ∷ [];
}

refused-step : step (vote_request 3) (node 2) ≡ ret (ok, refused)
unfolding step dispatch handle_vote answer_vote reject_vote send is_vote_type ◌>>=◌ pure gets modify
    lift vote_resp_msg_type same_type type_code
refused-step = refl

granted_step : handle_vote (vote_request 3) (node 0) ≡ ret (tt, granted)
unfolding handle_vote answer_vote grant_or_reject grant_vote send is_vote_type when ◌>>=◌ pure gets
    modify lift query vote_resp_msg_type same_type type_code RaftLog.is_up_to_date RaftLog.last_term
    RaftLog.last_index RaftLog.first_index RaftLog.term Unstable.maybe_last_index
    Unstable.maybe_first_index Unstable.maybe_term Storage.first_index Storage.last_index add64
    sub64
granted_step = refl

refused_run : Runs (node 2) refused
refused_run = step_on (vote_request 3) ok start (ground arith, ground arith, inl refl) refused-step

one_vote_example : refused.vote ≡ 2
one_vote_example = one_vote refused_run refl (ground arith)

runs_forward_example :
    (5 ≤ refused.term)
    × (1 ≤ refused.raft_log.committed)
    × (refused.raft_log.applied ≡ (node 2).raft_log.applied)
    × (refused.raft_log.storage ≡ (node 2).raft_log.storage)
runs_forward_example = runs_forward refused_run

runs_signed_example : (sent : List Message) × (refused.msgs ≡ (node 2).msgs ++ sent) × From 1 sent
runs_signed_example = runs_signed refused_run

handle_vote_lem_example : Earned (vote_request 3) (node 0) granted
handle_vote_lem_example = handle_vote_lem (vote_request 3) (node 0) granted granted_step

-- The node after it has committed the entry 2, which two of the three match.
abbrev committed : Raft
committed = record (node 0) { raft_log = record log { committed = 2 } }

committed_step : maybe_commit (node 0) ≡ ret (true, committed)
unfolding maybe_commit quorum_match sort insert quorum ◌>>=◌ gets lift on_log RaftLog.maybe_commit
    RaftLog.commit_to RaftLog.last_index RaftLog.first_index RaftLog.term Unstable.maybe_last_index
    Unstable.maybe_first_index Unstable.maybe_term Storage.first_index Storage.last_index add64
    sub64 to_u32
committed_step = refl

maybe_commit_lem_example :
    (committed.raft_log ≡ log)
    ⊎ ((quorum (node 0) ≤ reaching 2 (3 ∷ 2 ∷ 1 ∷ []))
        × (1 < 2)
        × ((st : Status) × (RaftLog.term 2 log ≡ ret (st, 5))))
maybe_commit_lem_example =
    maybe_commit_lem (node 0) committed true (ground arith) (ground arith) committed_step

quorum_match_lem_example :
    (m : ℕ) × (quorum_match (node 0) ≡ ret m) × (quorum (node 0) ≤ reaching m (3 ∷ 2 ∷ 1 ∷ []))
quorum_match_lem_example = quorum_match_lem (node 0) (ground arith) (ground arith)

picked : quorum_match (node 0) ≡ ret 2
unfolding quorum_match sort insert quorum sub64 to_u32
picked = refl

quorum_match_most_example : reaching 3 (3 ∷ 2 ∷ 1 ∷ []) < quorum (node 0)
quorum_match_most_example =
    quorum_match_most (node 0) 2 3 (ground arith) (ground arith) picked (ground arith)

-- A heartbeat of a leader of the term 3.
abbrev old_heartbeat : Message
old_heartbeat = record empty_message { type = msg_heartbeat; from = 2; to = 1; term = 3 }

step_earlier_term_example :
    (s : Raft) × (step old_heartbeat (node 2) ≡ ret (ok, s)) × Answered (node 2) s
step_earlier_term_example = step_earlier_term old_heartbeat (node 2) (ground arith) (ground arith)
