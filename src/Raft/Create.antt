-- ===== src/Raft/Create.antt =====
-- The constructor of `Raft`, and `load_state`, in raft-kv/raft/raft.cpp.
use raft_etcd.Common.{
  ℕ, true, false, not, ◌&&◌, ◌||◌, List, [], ◌∷◌, Outcome, ret, fatal, ltb, ◌==◌, is_empty,
  if◌then◌else◌,
}
use raft_etcd.Common.Maps.{put, has_key, nat_keys}
use raft_etcd.Proto.{HardState, is_empty_state, ConfState}
use raft_etcd.Config.{Config}
use raft_etcd.Progress.{new_progress}
use raft_etcd.Storage
use raft_etcd.RaftLog
use raft_etcd.RaftLog.{RaftLog}
use raft_etcd.Raft.State.{Raft, follower, as_follower, unset}
use raft_etcd.Raft.Exec.{Exec, ◌>>=◌, ◌>>◌, pure, throw, gets, modify, query, when}
use raft_etcd.Raft.Roles.{become_follower}

unfoldable pub load_state : HardState → Exec (Unit {0})
load_state hs = do
  committed ← gets (λ r. r.raft_log.committed)
  last ← query RaftLog.last_index
  if ltb hs.commit committed || ltb last hs.commit
      then throw
      else modify λ r. record r {
        raft_log = record r.raft_log { committed = hs.commit };
        term = hs.term;
        vote = hs.vote;
      }

-- A progress for each voter and for each learner.
unfoldable pub add_peers : List ℕ → Exec (Unit {0})
add_peers [] = pure tt
add_peers (peer ∷ peers) = do
  modify λ r. record r { prs = put peer (record (new_progress r.max_inflight) { next = 1 }) r.prs }
  add_peers peers

unfoldable pub add_learners : List ℕ → Exec (Unit {0})
add_learners [] = pure tt
add_learners (learner ∷ learners) = do
  voter ← gets (λ r. has_key learner r.prs)
  if voter then throw else do
    modify λ r. record r {
      learner_prs =
          put learner (record (new_progress r.max_inflight) { next = 1; is_learner = true })
            r.learner_prs;
      is_learner = r.is_learner || r.id == learner;
    }
    add_learners learners

-- The members after the initialiser list and the first line of the body.
abbrev pub blank : Config → RaftLog → (ℕ → ℕ) → Raft
blank c l draws = record {
  id = c.id;
  term = 0;
  vote = 0;
  read_states = [];
  raft_log = l;
  max_msg_size = c.max_size_per_msg;
  max_uncommitted_size = c.max_uncommitted_entries_size;
  max_inflight = c.max_inflight_msgs;
  prs = [];
  learner_prs = [];
  state = follower;
  is_learner = false;
  votes = [];
  msgs = [];
  lead = 0;
  lead_transferee = 0;
  pending_conf_index = 0;
  uncommitted_size = 0;
  read_only = record {
    option = c.read_only_option;
    pending_read_index = [];
    read_index_queue = [];
  };
  election_elapsed = 0;
  heartbeat_elapsed = 0;
  check_quorum = c.check_quorum;
  pre_vote = c.pre_vote;
  heartbeat_timeout = c.heartbeat_tick;
  election_timeout = c.election_tick;
  randomized_election_timeout = 0;
  disable_proposal_forwarding = c.disable_proposal_forwarding;
  tick_fn = unset;
  step_fn = as_follower;
  draws = draws;
}

-- The nodes of the configuration, or those of the snapshot if it has any; never both.
unfoldable pub initial_nodes : Config → ConfState → Outcome (List ℕ × List ℕ)
initial_nodes c cs =
    if is_empty cs.nodes && is_empty cs.learners
    then ret (c.peers, c.learners)
    else if is_empty c.peers && is_empty c.learners
    then ret (cs.nodes, cs.learners)
    else fatal

unfoldable pub set_up : Config → HardState → List ℕ × List ℕ → Exec (Unit {0})
set_up c hs members = do
  add_peers members.0
  add_learners members.1
  when (not (is_empty_state hs)) (load_state hs)
  when (ltb 0 c.applied)
      (modify (λ r. record r { raft_log = RaftLog.applied_to c.applied r.raft_log }))
  t ← gets (λ r. r.term)
  become_follower t 0

-- The object that a method leaves.
abbrev pub left_by : Outcome (Unit {0} × Raft) → Outcome Raft
left_by (ret (u, r)) = ret r
left_by fatal = fatal

abbrev pub start : Config → (ℕ → ℕ) → Outcome RaftLog → Outcome (List ℕ × List ℕ) → Outcome Raft
start c draws (ret l) (ret members) =
    left_by (set_up c (Storage.initial_state c.storage).0 members (blank c l draws))
start c draws (ret l) fatal = fatal
start c draws fatal members = fatal

-- `Raft(c)`, with the numbers that its random device is going to return.
unfoldable pub new_raft : Config → (ℕ → ℕ) → Outcome Raft
new_raft c draws =
    start c draws (RaftLog.new_raft_log c.storage c.max_committed_size_per_ready)
      (initial_nodes c (Storage.initial_state c.storage).1)
