-- ===== src/Proto.antt =====
-- The messages and log entries of raft-kv/raft/proto.h, and the sizes of proto.cpp.
use raft_etcd.Common.{
  ℕ, ◌+◌, ◌^◌, ◌-◌, Bool, true, false, ◌&&◌, List, [], ltb, leb, ◌==◌, length, add32, to_u32,
  if◌then◌else◌,
}

-- `uint8_t MessageType`: the values 0 to 18 that the protocol uses.
pub data MessageType : Type 0 where
  msg_hup msg_beat msg_prop msg_app msg_app_resp msg_vote msg_vote_resp msg_snap : MessageType
  msg_heartbeat msg_heartbeat_resp msg_unreachable msg_snap_status msg_check_quorum : MessageType
  msg_transfer_leader msg_timeout_now msg_read_index msg_read_index_resp : MessageType
  msg_pre_vote msg_pre_vote_resp : MessageType

-- The number that stands for a type on the wire.
unfoldable pub type_code : MessageType → ℕ
type_code msg_hup = 0
type_code msg_beat = 1
type_code msg_prop = 2
type_code msg_app = 3
type_code msg_app_resp = 4
type_code msg_vote = 5
type_code msg_vote_resp = 6
type_code msg_snap = 7
type_code msg_heartbeat = 8
type_code msg_heartbeat_resp = 9
type_code msg_unreachable = 10
type_code msg_snap_status = 11
type_code msg_check_quorum = 12
type_code msg_transfer_leader = 13
type_code msg_timeout_now = 14
type_code msg_read_index = 15
type_code msg_read_index_resp = 16
type_code msg_pre_vote = 17
type_code msg_pre_vote_resp = 18

-- `a == b` on message types.
unfoldable pub same_type : MessageType → MessageType → Bool
unfolding type_code
same_type a b = type_code a == type_code b

-- `uint8_t EntryType`.
abbrev pub entry_normal : ℕ
entry_normal = 0

abbrev pub entry_conf_change : ℕ
entry_conf_change = 1

-- `Entry`; a byte is a number.
pub record Entry : Type 0 where
  pub type : ℕ
  pub term : ℕ
  pub index : ℕ
  pub payload : List ℕ

-- `Entry()`.
abbrev pub empty_entry : Entry
empty_entry = record { type = entry_normal; term = 0; index = 0; payload = [] }

pub record ConfState : Type 0 where
  pub nodes : List ℕ
  pub learners : List ℕ

pub record SnapshotMetadata : Type 0 where
  pub conf_state : ConfState
  pub index : ℕ
  pub term : ℕ

pub record Snapshot : Type 0 where
  pub content : List ℕ
  pub metadata : SnapshotMetadata

-- `Snapshot()`.
abbrev pub empty_snapshot : Snapshot
empty_snapshot = record {
  content = [];
  metadata = record { conf_state = record { nodes = []; learners = [] }; index = 0; term = 0 };
}

-- `Snapshot::is_empty`.
abbrev pub is_empty_snapshot : Snapshot → Bool
is_empty_snapshot s = s.metadata.index == 0

pub record Message : Type 0 where
  pub type : MessageType
  pub to : ℕ
  pub from : ℕ
  pub term : ℕ
  pub log_term : ℕ
  pub index : ℕ
  pub entries : List Entry
  pub commit : ℕ
  pub snapshot : Snapshot
  pub reject : Bool
  pub reject_hint : ℕ
  pub context : List ℕ

-- `Message()`.
abbrev pub empty_message : Message
empty_message = record {
  type = msg_hup;
  to = 0;
  from = 0;
  term = 0;
  log_term = 0;
  index = 0;
  entries = [];
  commit = 0;
  snapshot = empty_snapshot;
  reject = false;
  reject_hint = 0;
  context = [];
}

-- What MSGPACK_DEFINE names of a snapshot and of a message: the metadata without its `conf_state`,
-- the message without its `snapshot`. What is unpacked has the values of the constructors there.
abbrev pub saved_snapshot : Snapshot → Snapshot
saved_snapshot s = record s {
  metadata = record s.metadata { conf_state = record { nodes = []; learners = [] } };
}

abbrev pub sent_message : Message → Message
sent_message m = record m { snapshot = empty_snapshot }

-- `Message::is_local_msg`, and `is_local_msg` of util.cpp.
unfoldable pub is_local_msg : MessageType → Bool
is_local_msg msg_hup = true
is_local_msg msg_beat = true
is_local_msg msg_unreachable = true
is_local_msg msg_snap_status = true
is_local_msg msg_check_quorum = true
is_local_msg _ = false

-- `Message::is_response_msg`.
unfoldable pub is_response_msg : MessageType → Bool
is_response_msg msg_app_resp = true
is_response_msg msg_vote_resp = true
is_response_msg msg_heartbeat_resp = true
is_response_msg msg_unreachable = true
is_response_msg msg_pre_vote_resp = true
is_response_msg _ = false

pub record HardState : Type 0 where
  pub term : ℕ
  pub vote : ℕ
  pub commit : ℕ

-- `HardState()`.
abbrev pub empty_hard_state : HardState
empty_hard_state = record { term = 0; vote = 0; commit = 0 }

-- `HardState::is_empty_state`.
abbrev pub is_empty_state : HardState → Bool
is_empty_state hs = hs.term == 0 && hs.vote == 0 && hs.commit == 0

-- `HardState::equal`.
abbrev pub same_hard_state : HardState → HardState → Bool
same_hard_state a b = a.term == b.term && a.vote == b.vote && a.commit == b.commit

-- `ConfChange`; the type of a change is a `uint8_t` from 0 to 3.
pub record ConfChange : Type 0 where
  pub id : ℕ
  pub conf_change_type : ℕ
  pub node_id : ℕ
  pub context : List ℕ

u8_serialize_size : ℕ → ℕ
u8_serialize_size d = if ltb d (2 ^ 7) then 1 else 2

u64_serialize_size : ℕ → ℕ
u64_serialize_size d =
    if ltb d (2 ^ 8)
    then if ltb d (2 ^ 7) then 1 else 2
    else if ltb d (2 ^ 16)
    then 3
    else if ltb d (2 ^ 32)
    then 5
    else 9

-- A `uint32_t` length is at most 2 ^ 32 - 1, so the third test of the source holds and the
-- assertion after it is not reached.
data_serialize_size : ℕ → ℕ
data_serialize_size len =
    if leb len (2 ^ 8 - 1)
    then add32 2 len
    else if leb len (2 ^ 16 - 1)
    then add32 3 len
    else add32 5 len

-- `Entry::payload_size`.
unfoldable pub payload_size : Entry → ℕ
payload_size e = to_u32 (length e.payload)

-- `Entry::serialize_size`.
unfoldable pub serialize_size : Entry → ℕ
unfolding u8_serialize_size u64_serialize_size data_serialize_size
serialize_size e =
    add32 (1 + u8_serialize_size e.type + u64_serialize_size e.term + u64_serialize_size e.index)
      (data_serialize_size (to_u32 (length e.payload)))
