-- ===== src/Wal/Record.antt =====
-- The records of raft-kv/wal/wal.h: a type, a length in three bytes, a checksum and the data. The
-- checksum `compute_crc32` of the library and the MessagePack encodings are parameters.
use raft_etcd.Common.{
  ℕ, ◌+◌, ◌*◌, ◌/◌, ◌%◌, ◌^◌, ◌-◌, ◌<◌, min, List, ◌∷◌, ◌++◌, length, le32, to_u32,
}
use raft_etcd.Codec.{Codec}
use raft_etcd.Proto.{Entry, HardState}

pub record WalSnapshot : Type 0 where
  pub index : ℕ
  pub term : ℕ

-- The library's part: a 32-bit checksum, and the encodings of what is written.
pub record Formats : Type 0 where
  pub checksum : List ℕ → ℕ
  pub checksum-lt : (bytes : List ℕ) → checksum bytes < 2 ^ 32
  pub snapshots : Codec WalSnapshot
  pub entries : Codec Entry
  pub states : Codec HardState

abbrev pub wal_invalid_type : ℕ
wal_invalid_type = 0

abbrev pub wal_entry_type : ℕ
wal_entry_type = 1

abbrev pub wal_state_type : ℕ
wal_state_type = 2

abbrev pub wal_crc_type : ℕ
wal_crc_type = 3

abbrev pub wal_snapshot_type : ℕ
wal_snapshot_type = 4

-- `WAL_Record`, the header of 8 bytes.
pub record WalRecord : Type 0 where
  pub type : ℕ
  pub len0 : ℕ
  pub len1 : ℕ
  pub len2 : ℕ
  pub crc : ℕ

abbrev pub max_wal_record_len : ℕ
max_wal_record_len = 2 ^ 24 - 1

-- `WAL_Record_len`: the bits of the three bytes do not meet, so `|` is a sum.
unfoldable pub wal_record_len : WalRecord → ℕ
wal_record_len r = r.len2 * 2 ^ 16 + r.len1 * 2 ^ 8 + r.len0

-- `set_WAL_Record_len`, which caps the length.
unfoldable pub set_wal_record_len : ℕ → WalRecord → WalRecord
set_wal_record_len len r =
    let n = min (to_u32 len) max_wal_record_len in
    record r { len2 = n / 2 ^ 16 % 256; len1 = n / 2 ^ 8 % 256; len0 = n % 256 }

-- The header as it lies in memory, on a little-endian machine.
abbrev pub header_bytes : WalRecord → List ℕ
header_bytes r = r.type ∷ r.len0 ∷ r.len1 ∷ r.len2 ∷ le32 r.crc

-- What `WAL_File::append` adds to the buffer.
unfoldable pub record_bytes : Formats → ℕ → List ℕ → List ℕ
unfolding set_wal_record_len le32
record_bytes F type bytes =
    header_bytes (
      set_wal_record_len (length bytes)
        (record { type = type; len0 = 0; len1 = 0; len2 = 0; crc = F.checksum bytes }))
    ++ bytes
