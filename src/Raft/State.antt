-- ===== src/Raft/State.antt =====
-- The members of `Raft` in raft-kv/raft/raft.h. `match_buf_`, a buffer that `maybe_commit` clears
-- before use, is local there. The two `std::function` members are the method that they are bound
-- to. `random_device_`, a library's, is the sequence of the numbers that `gen` is going to return.
use raft_etcd.Common.{ℕ, Bool, List, ◌/◌, ◌+◌, length, to_u32}
use raft_etcd.Proto.{Message}
use raft_etcd.RaftLog.{RaftLog}
use raft_etcd.Progress.{Progress}
use raft_etcd.ReadOnly.{ReadOnly, ReadState}

pub data RaftState : Type 0 where
  follower candidate leader pre_candidate : RaftState

abbrev pub is_leader : RaftState → Bool
is_leader leader = Bool.true
is_leader _ = Bool.false

pub data StepFn : Type 0 where
  as_follower as_candidate as_leader : StepFn

-- `unset` is the empty function of a `Raft` under construction.
pub data TickFn : Type 0 where
  unset tick_election tick_heartbeat : TickFn

pub record Raft : Type 0 where
  pub id : ℕ
  pub term : ℕ
  pub vote : ℕ
  pub read_states : List ReadState
  pub raft_log : RaftLog
  pub max_msg_size : ℕ
  pub max_uncommitted_size : ℕ
  pub max_inflight : ℕ
  pub prs : List (ℕ × Progress)
  pub learner_prs : List (ℕ × Progress)
  pub state : RaftState
  pub is_learner : Bool
  pub votes : List (ℕ × Bool)
  pub msgs : List Message
  pub lead : ℕ
  pub lead_transferee : ℕ
  pub pending_conf_index : ℕ
  pub uncommitted_size : ℕ
  pub read_only : ReadOnly
  pub election_elapsed : ℕ
  pub heartbeat_elapsed : ℕ
  pub check_quorum : Bool
  pub pre_vote : Bool
  pub heartbeat_timeout : ℕ
  pub election_timeout : ℕ
  pub randomized_election_timeout : ℕ
  pub disable_proposal_forwarding : Bool
  pub tick_fn : TickFn
  pub step_fn : StepFn
  pub draws : ℕ → ℕ

-- `Raft::quorum`.
unfoldable pub quorum : Raft → ℕ
quorum r = to_u32 (length r.prs / 2 + 1)
