-- ===== src/Wal/Frames.antt =====
-- One record of raft-kv/wal/wal.cpp, as `append` writes it and the loop of `read_all` reads it.
use raft_etcd.Common.{
  ℕ, zero, suc, ◌+◌, ◌/◌, ◌%◌, ◌^◌, ◌≤◌, ◌<◌, ◌≡◌, refl, sym, List, ◌++◌, arith, length, take,
  take-append, drop-append, length-append, length-take, of_bytes, le32, of_bytes-le32, to_u32_lem,
  ==-refl,
}
use raft_etcd.Wal.Record.{
  WalRecord, Formats, wal_record_len, set_wal_record_len, max_wal_record_len, record_bytes,
}
use raft_etcd.Wal.Reading.{torn, found, checked, next_record}

wal_record_len-set :
    (n : ℕ) (r : WalRecord) → n ≤ max_wal_record_len → wal_record_len (set_wal_record_len n r) ≡ n
unfolding wal_record_len set_wal_record_len
wal_record_len-set n r h = rw (to_u32_lem n (omega arith)) (omega arith)

-- The header before its length is set, with the checksum as it is read back.
abbrev read_back : Formats → ℕ → List ℕ → WalRecord
read_back F type bytes = record {
  type = type;
  len0 = 0;
  len1 = 0;
  len2 = 0;
  crc =
      of_bytes (F.checksum bytes % 256) (F.checksum bytes / 256 % 256)
        (F.checksum bytes / 2 ^ 16 % 256) (F.checksum bytes / 2 ^ 24 % 256);
}

checked_lem :
    (F : Formats) (r : WalRecord) (bytes rest : List ℕ)
    → 0 < r.type
    → wal_record_len r ≡ length bytes
    → F.checksum bytes ≡ r.crc
    → checked F r (bytes ++ rest) ≡ found r.type bytes rest
unfolding checked
checked_lem F r bytes rest h e c =
    rw
      (
        e,
        take-append (length bytes) bytes rest refl,
        drop-append (length bytes) bytes rest refl,
        c,
        ==-refl r.crc,
      )
      ground (arith, length-append bytes rest)

pub next_record-record_bytes :
    (F : Formats) (type : ℕ) (bytes rest : List ℕ)
    → 0 < type
    → length bytes ≤ max_wal_record_len
    → next_record F (record_bytes F type bytes ++ rest) ≡ found type bytes rest
unfolding next_record record_bytes le32 set_wal_record_len
next_record-record_bytes F type bytes rest h k =
    checked_lem F (set_wal_record_len (length bytes) (read_back F type bytes)) bytes rest h
      (wal_record_len-set (length bytes) (read_back F type bytes) k)
      (sym (of_bytes-le32 (F.checksum bytes) (F.checksum-lt bytes)))

pub length-record_bytes :
    (F : Formats) (type : ℕ) (bytes : List ℕ)
    → length (record_bytes F type bytes) ≡ 8 + length bytes
unfolding record_bytes le32
length-record_bytes F type bytes = omega arith

checked_short :
    (F : Formats) (r : WalRecord) (left : List ℕ)
    → 0 < r.type
    → length left < wal_record_len r
    → checked F r left ≡ torn
unfolding checked
checked_short F r left h k = ground arith

-- A record that is cut off is told from a whole one, wherever the cut is.
pub next_record_cut :
    (F : Formats) (k type : ℕ) (bytes : List ℕ)
    → 0 < type
    → length bytes ≤ max_wal_record_len
    → k < 8 + length bytes
    → next_record F (take k (record_bytes F type bytes)) ≡ torn
unfolding next_record record_bytes le32 set_wal_record_len
next_record_cut F zero type bytes h m l = refl
next_record_cut F (suc zero) type bytes h m l = refl
next_record_cut F (suc (suc zero)) type bytes h m l = refl
next_record_cut F (suc (suc (suc zero))) type bytes h m l = refl
next_record_cut F (suc (suc (suc (suc zero)))) type bytes h m l = refl
next_record_cut F (suc (suc (suc (suc (suc zero))))) type bytes h m l = refl
next_record_cut F (suc (suc (suc (suc (suc (suc zero)))))) type bytes h m l = refl
next_record_cut F (suc (suc (suc (suc (suc (suc (suc zero))))))) type bytes h m l = refl
next_record_cut F (suc (suc (suc (suc (suc (suc (suc (suc k)))))))) type bytes h m l =
    checked_short F _ (take k bytes) h (
      rw (wal_record_len-set (length bytes) (read_back F type bytes) m)
        (omega (arith, l, length-take k bytes)))
