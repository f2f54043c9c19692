-- ===== src/Examples.antt =====
-- Concrete inputs on which the theorems are applied: one node of three, and its window and log.
mod Runs
mod Data
mod Front
mod Codecs
mod Disk
mod Service
use raft_etcd.Common.{ℕ, Bool, true, false, none, some, List, [], ◌∷◌}
use raft_etcd.Proto.{Entry, Message, empty_message, msg_vote, empty_entry}
use raft_etcd.Storage.{MemoryStorage, new_storage}
use raft_etcd.Unstable.{Unstable}
use raft_etcd.RaftLog.{RaftLog}
use raft_etcd.InFlights.{InFlights}
use raft_etcd.Progress.{Progress, new_progress, replicate}
use raft_etcd.ReadOnly.{safe}
use raft_etcd.Raft.State.{Raft, follower, tick_election, as_follower}

abbrev pub entry : ℕ → ℕ → Entry
entry i t = record { type = 0; term = t; index = i; payload = 7 ∷ [] }

-- Three entries, the first one committed.
abbrev pub three_entries : Unstable
three_entries = record {
  snapshot = none;
  entries = entry 1 4 ∷ entry 2 5 ∷ entry 3 5 ∷ [];
  offset = 1;
}

abbrev pub log : RaftLog
log = record {
  storage = new_storage;
  unstable = three_entries;
  committed = 1;
  applied = 0;
  max_next_ents_size = 1000;
}

-- A window of two, of which one is used.
abbrev pub window : InFlights
window = record { start = 0; count = 1; size = 2; buffer = 3 ∷ [] }

abbrev pub progress : ℕ → Progress
progress m = record (new_progress 2) { match = m; next = 4; state = replicate; inflights = window }

-- The node 1 of three, in the term 5, with a vote for `v`.
abbrev pub node : ℕ → Raft
node v = record {
  id = 1;
  term = 5;
  vote = v;
  read_states = [];
  raft_log = log;
  max_msg_size = 1000;
  max_uncommitted_size = 1000;
  max_inflight = 2;
  prs = (1, progress 3) ∷ (2, progress 2) ∷ (3, progress 1) ∷ [];
  learner_prs = [];
  state = follower;
  is_learner = false;
  votes = [];
  msgs = [];
  lead = 0;
  lead_transferee = 0;
  pending_conf_index = 0;
  uncommitted_size = 0;
  read_only = record { option = safe; pending_read_index = []; read_index_queue = [] };
  election_elapsed = 0;
  heartbeat_elapsed = 0;
  check_quorum = false;
  pre_vote = false;
  heartbeat_timeout = 1;
  election_timeout = 10;
  randomized_election_timeout = 12;
  disable_proposal_forwarding = false;
  tick_fn = tick_election;
  step_fn = as_follower;
  draws = λ n. 0;
}

-- A request of `from` for a vote in the term 5, with a log up to the entry 3 of that term.
abbrev pub vote_request : ℕ → Message
vote_request c = record empty_message {
  type = msg_vote;
  from = c;
  to = 1;
  term = 5;
  log_term = 5;
  index = 3;
}
