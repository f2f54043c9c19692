-- ===== src/Config.antt =====
-- `Config` of raft-kv/raft/config.h and config.cpp.
use raft_etcd.Common.{ℕ, Bool, not, ◌&&◌, List, leb, ◌==◌, max64, if◌then◌else◌}
use raft_etcd.Status.{Status, ok, invalid_argument}
use raft_etcd.Storage.{MemoryStorage}
use raft_etcd.ReadOnly.{ReadOnlyOption, safe, lease_based}

pub record Config : Type 0 where
  pub id : ℕ
  pub peers : List ℕ
  pub learners : List ℕ
  pub election_tick : ℕ
  pub heartbeat_tick : ℕ
  pub storage : MemoryStorage
  pub applied : ℕ
  pub max_size_per_msg : ℕ
  pub max_committed_size_per_ready : ℕ
  pub max_uncommitted_entries_size : ℕ
  pub max_inflight_msgs : ℕ
  pub check_quorum : Bool
  pub pre_vote : Bool
  pub read_only_option : ReadOnlyOption
  pub disable_proposal_forwarding : Bool

abbrev is_lease_based : ReadOnlyOption → Bool
is_lease_based lease_based = Bool.true
is_lease_based safe = Bool.false

-- The limits that are left open get their defaults.
abbrev with_defaults : Config → Config
with_defaults c = record c {
  max_uncommitted_entries_size =
      if c.max_uncommitted_entries_size == 0 then max64 else c.max_uncommitted_entries_size;
  max_committed_size_per_ready =
      if c.max_committed_size_per_ready == 0
      then c.max_size_per_msg
      else c.max_committed_size_per_ready;
}

unfoldable pub validate : Config → Status × Config
validate c =
    if c.id == 0
    then (invalid_argument "cannot use none as id", c)
    else if leb c.heartbeat_tick 0
    then (invalid_argument "heartbeat tick must be greater than 0", c)
    else if leb c.election_tick c.heartbeat_tick
    then (invalid_argument "election tick must be greaer than heartbeat tick", c)
    else if leb c.max_inflight_msgs 0
    then (invalid_argument "max inflight messages must be greater than 0", with_defaults c)
    else if is_lease_based c.read_only_option && not c.check_quorum
    then (
      invalid_argument "check_quorum must be enabled when read_only_option is ReadOnlyLeaseBased",
      with_defaults c,
    )
    else (ok, with_defaults c)
