-- ===== src/Examples/Codecs.antt =====
-- Encodings that satisfy what the server relies on: each value is the pairs of its fields.
use raft_etcd.Common.{
  ℕ, zero, suc, ◌+◌, ◌%◌, ◌^◌, ◌<◌, ◌≡◌, refl, Bool, true, false, List, [], ◌∷◌, arith, length,
  ◌==◌,
}
use raft_etcd.Codec.{Codec, Packing}
use raft_etcd.Examples.Front.{Front, number, both, via, list, codec, packing, bytes}
use raft_etcd.Proto.{
  MessageType, msg_hup, msg_beat, msg_prop, msg_app, msg_app_resp, msg_vote, msg_vote_resp,
  msg_snap, msg_heartbeat, msg_heartbeat_resp, msg_unreachable, msg_snap_status, msg_check_quorum,
  msg_transfer_leader, msg_timeout_now, msg_read_index, msg_read_index_resp, msg_pre_vote,
  msg_pre_vote_resp, type_code, Entry, saved_snapshot, empty_snapshot, sent_message, HardState,
  ConfChange,
}
use raft_etcd.Wal.Record.{WalSnapshot, Formats}
use raft_etcd.Snap.{SnapFormat}
use raft_etcd.Redis.Store.{Pairs, RaftCommit}
use raft_etcd.Server.{Encodings}

-- The values that are packed, as pairs of their fields.
abbrev wal_snapshot : Front WalSnapshot
wal_snapshot =
    via (λ s. (s.index, s.term)) (λ x. record { index = x.0; term = x.1 }) (λ s. refl)
      (both number number)

abbrev entry : Front Entry
entry =
    via (λ e. ((e.type, e.term), (e.index, e.payload)))
      (λ x. record { type = x.0.0; term = x.0.1; index = x.1.0; payload = x.1.1 }) (λ e. refl)
      (both (both number number) (both number bytes))

abbrev hard_state : Front HardState
hard_state =
    via (λ h. (h.term, (h.vote, h.commit)))
      (λ x. record { term = x.0; vote = x.1.0; commit = x.1.1 }) (λ h. refl)
      (both number (both number number))

abbrev snapshots : Packing saved_snapshot
snapshots =
    packing saved_snapshot (λ s. (s.content, (s.metadata.index, s.metadata.term)))
      (λ x. record {
        content = x.0;
        metadata = record {
          index = x.1.0;
          term = x.1.1;
          conf_state = record { nodes = []; learners = [] };
        };
      })
      (λ s. refl) (both bytes (both number number))

abbrev conf_change : Front ConfChange
conf_change =
    via (λ c. ((c.id, c.conf_change_type), (c.node_id, c.context)))
      (λ x. record { id = x.0.0; conf_change_type = x.0.1; node_id = x.1.0; context = x.1.1 })
      (λ c. refl) (both (both number number) (both number bytes))

abbrev commit : Front RaftCommit
commit =
    via (λ c. ((c.node_id, c.commit_id), (c.redis_data.type, c.redis_data.strs)))
      (λ x. record {
        node_id = x.0.0;
        commit_id = x.0.1;
        redis_data = record { type = x.1.0; strs = x.1.1 };
      })
      (λ c. refl) (both (both number number) (both number (list bytes)))

abbrev bit : Bool → ℕ
bit true = 1
bit false = 0

pub bit_back : (b : Bool) → (bit b == 1) ≡ b
bit_back true = refl
bit_back false = refl

abbrev nth_type : List MessageType → ℕ → MessageType
nth_type [] n = msg_hup
nth_type (t ∷ ts) zero = t
nth_type (t ∷ ts) (suc n) = nth_type ts n

abbrev all_types : List MessageType
all_types =
    msg_hup ∷ msg_beat ∷ msg_prop ∷ msg_app ∷ msg_app_resp ∷ msg_vote ∷ msg_vote_resp ∷ msg_snap
    ∷ msg_heartbeat ∷ msg_heartbeat_resp ∷ msg_unreachable ∷ msg_snap_status ∷ msg_check_quorum
    ∷ msg_transfer_leader ∷ msg_timeout_now ∷ msg_read_index ∷ msg_read_index_resp ∷ msg_pre_vote
    ∷ msg_pre_vote_resp ∷ []

pub type_back : (t : MessageType) → nth_type all_types (type_code t) ≡ t
unfolding type_code
type_back msg_hup = refl
type_back msg_beat = refl
type_back msg_prop = refl
type_back msg_app = refl
type_back msg_app_resp = refl
type_back msg_vote = refl
type_back msg_vote_resp = refl
type_back msg_snap = refl
type_back msg_heartbeat = refl
type_back msg_heartbeat_resp = refl
type_back msg_unreachable = refl
type_back msg_snap_status = refl
type_back msg_check_quorum = refl
type_back msg_transfer_leader = refl
type_back msg_timeout_now = refl
type_back msg_read_index = refl
type_back msg_read_index_resp = refl
type_back msg_pre_vote = refl
type_back msg_pre_vote_resp = refl

abbrev message_type : Front MessageType
message_type = via type_code (nth_type all_types) type_back number

abbrev flag : Front Bool
flag = via bit (λ n. n == 1) bit_back number

abbrev pub messages : Packing sent_message
messages =
    packing sent_message
      (λ m. (
        ((m.type, (m.to, m.from)), (m.term, (m.log_term, m.index))),
        ((m.entries, m.commit), (m.reject, (m.reject_hint, m.context))),
      ))
      (λ x. record {
        type = x.0.0.0;
        to = x.0.0.1.0;
        from = x.0.0.1.1;
        term = x.0.1.0;
        log_term = x.0.1.1.0;
        index = x.0.1.1.1;
        entries = x.1.0.0;
        commit = x.1.0.1;
        snapshot = empty_snapshot;
        reject = x.1.1.0;
        reject_hint = x.1.1.1.0;
        context = x.1.1.1.1;
      })
      (λ m. refl)
      (both (both (both message_type (both number number)) (both number (both number number)))
        (both (both (list entry) number) (both flag (both number bytes))))

-- A checksum of 32 bits that is not 0 on short strings.
abbrev pub checksum : List ℕ → ℕ
checksum s = (length s + 1) % 2 ^ 32

pub checksum-lt : (s : List ℕ) → checksum s < 2 ^ 32
checksum-lt s = omega arith

abbrev pub formats : Formats
formats = record {
  checksum = checksum;
  checksum-lt = checksum-lt;
  snapshots = codec wal_snapshot;
  entries = codec entry;
  states = codec hard_state;
}

abbrev pub snap_format : SnapFormat
snap_format = record { checksum = checksum; checksum-lt = checksum-lt; snapshots = snapshots }

abbrev pub maps : Codec Pairs
maps = codec (list (both bytes bytes))

abbrev pub commits : Codec RaftCommit
commits = codec commit

abbrev pub encodings : Encodings
encodings = record {
  commits = commits;
  maps = maps;
  conf_changes = codec conf_change;
  records = formats;
  snaps = snap_format;
}
