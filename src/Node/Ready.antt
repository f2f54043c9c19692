-- ===== src/Node/Ready.antt =====
-- `Ready` of raft-kv/raft/ready.h and ready.cpp: what the application has to save, apply and send.
use raft_etcd.Common.{
  ℕ, Bool, true, false, not, ◌&&◌, ◌||◌, Option, none, some, List, [], Outcome, ret, ◌>>=◌, ltb,
  ◌==◌, length, is_empty, get_last?, if◌then◌else◌,
}
use raft_etcd.Proto.{
  Entry, Message, Snapshot, empty_snapshot, is_empty_snapshot, HardState, empty_hard_state,
  is_empty_state, same_hard_state,
}
use raft_etcd.Util.{is_must_sync}
use raft_etcd.ReadOnly.{ReadState}
use raft_etcd.RaftLog
use raft_etcd.Raft.State.{Raft, RaftState, follower, candidate, leader, pre_candidate}
use raft_etcd.Raft.Membership.{SoftState, soft_state, hard_state}

pub record Ready : Type 0 where
  pub soft_state : Option SoftState
  pub hard_state : HardState
  pub read_state : List ReadState
  pub entries : List Entry
  pub snapshot : Snapshot
  pub committed_entries : List Entry
  pub messages : List Message
  pub must_sync : Bool

abbrev state_code : RaftState → ℕ
state_code follower = 0
state_code candidate = 1
state_code leader = 2
state_code pre_candidate = 3

-- `SoftState::equal`.
unfoldable pub same_soft_state : SoftState → SoftState → Bool
same_soft_state a b = a.lead == b.lead && state_code a.state == state_code b.state

-- `Ready(raft, pre_soft_state, pre_hard_state)`, which takes the messages of the node. The last line
-- compares the hard state with the member that has just been set, as the source does.
unfoldable pub new_ready : SoftState → HardState → Raft → Outcome (Ready × Raft)
new_ready pre_soft pre_hard r = do
  committed ← RaftLog.next_entries r.raft_log
  let hs = hard_state r
  let changed : HardState = if same_hard_state hs pre_hard then empty_hard_state else hs
  ret (
    record {
      soft_state = if same_soft_state (soft_state r) pre_soft then none else some (soft_state r);
      hard_state = changed;
      read_state = r.read_states;
      entries = r.raft_log.unstable.entries;
      snapshot = elim r.raft_log.unstable.snapshot [ none ↦ empty_snapshot | some s ↦ s ];
      committed_entries = committed;
      messages = r.msgs;
      must_sync = is_must_sync hs changed (length r.raft_log.unstable.entries);
    },
    record r { msgs = [] },
  )

abbrev is_some {ℓ} : {A : Type ℓ} → Option A → Bool
is_some none = false
is_some (some a) = true

-- The last disjunct holds when there is no read state, as in the source.
unfoldable pub contains_updates : Ready → Bool
contains_updates rd =
    is_some rd.soft_state
    || not (is_empty_state rd.hard_state)
    || not (is_empty_snapshot rd.snapshot)
    || not (is_empty rd.entries)
    || not (is_empty rd.committed_entries)
    || not (is_empty rd.messages)
    || is_empty rd.read_state

unfoldable pub applied_cursor : Ready → ℕ
applied_cursor rd = elim (get_last? rd.committed_entries) [
  | some e ↦ e.index
  | none ↦ if ltb 0 rd.snapshot.metadata.index then rd.snapshot.metadata.index else 0
]
