-- ===== src/Examples/Disk.antt =====
-- The theorems on raft-kv/common/bytebuffer.cpp, raft-kv/wal, raft-kv/snap and raft-kv/transport on
-- concrete inputs.
use raft_etcd.Common.{
  ◌≤◌, ltb, if◌then◌else◌, ◌<◌, Option, suc, zero, ℕ, ◌+◌, ◌≡◌, refl, arith, true, false, List, [],
  ◌∷◌, ◌++◌, map, none, some, ret, length, take, le32, ◌>>=◌,
}
use raft_etcd.Common.Maps.{bytes_keys}
use raft_etcd.Status.{ok}
use raft_etcd.Proto.{
  HardState, Snapshot, saved_snapshot, sent_message, Message, empty_message, empty_hard_state,
  empty_snapshot, msg_beat,
}
use raft_etcd.Util.{is_must_sync}
use raft_etcd.Examples.{entry}
use raft_etcd.Examples.Codecs.{formats, snap_format, messages}
use raft_etcd.Buffer.{ByteBuffer, slice}
use raft_etcd.Buffer.Queue.{Holds, put_op, Follows, call-Follows}
use raft_etcd.Wal.Record.{WalSnapshot, record_bytes, set_wal_record_len}
use raft_etcd.Wal.File.{WalFile, open_file}
use raft_etcd.Wal.Reading.{Reading, read_records}
use raft_etcd.Wal.Log.{Wal, opened, save, read_all}
use raft_etcd.Wal.Fuel.{Rounds, read_records-Rounds}
use raft_etcd.Wal.Replay.{
  Item, entry_item, state_item, snapshot_item, written, replay, none_left, Ends, stop_at,
  read_records-written,
}
use raft_etcd.Wal.Replay.Entries.{with_entries, replay-entries}
use raft_etcd.Wal.Saved.{Keeps, Saved, saved_items, with_file, save_lem}
use raft_etcd.Wal.Recovery.{Fresh, save-read_all}
use raft_etcd.Wal.Names.{
  wal_name, parse_wal_name, search_index, search_below, scan_hex, scan_digits, hex_value,
  split_dash,
}
use raft_etcd.Wal.Names.Digits.{parse_wal_name-wal_name}
use raft_etcd.Wal.Names.Search.{IndexAt, Named, Found, search_index_lem}
use raft_etcd.Snap.{save_snap, load, snap_names, hex_digits, hex_digit}
use raft_etcd.Snap.Newest.{load-save_snap, top}
use raft_etcd.Transport.{ClientSession, send, read_frames, transport_type_stream}
use raft_etcd.Transport.Framing.{Sent, frame, frames, read_frames-frames, send-Sent}

-- A buffer of eight bytes, from which the first of three was read.
abbrev buffer : ByteBuffer
buffer = record { reader = 1; writer = 3; buff = 5 ∷ 6 ∷ 7 ∷ 0 ∷ 0 ∷ 0 ∷ 0 ∷ 0 ∷ [] }

buffer-Holds : Holds buffer (6 ∷ 7 ∷ [])
unfolding slice
buffer-Holds = record {
  valid = record { ordered = omega arith; inside = omega arith; narrow = omega arith };
  same = refl;
}

call-Follows_example : Follows (put_op (8 ∷ 9 ∷ [])) buffer (ret (6 ∷ 7 ∷ 8 ∷ 9 ∷ []))
call-Follows_example =
    call-Follows (put_op (8 ∷ 9 ∷ [])) buffer (6 ∷ 7 ∷ []) buffer-Holds (omega arith)

-- A log that starts at the index 3, and a reader for it.
abbrev start : WalSnapshot
start = record { index = 3; term = 2 }

abbrev state : HardState
state = record { term = 5; vote = 1; commit = 4 }

abbrev reading : Reading
reading = record { hs = empty_hard_state; ents = []; enti = 0; matchsnap = false }

abbrev items : List Item
items = snapshot_item start ∷ entry_item (entry 4 5) ∷ state_item state ∷ []

read_records-Rounds_example :
    Rounds formats start 0
      (written formats items)
      reading
      (read_records formats start 90 0 (written formats items) reading)
unfolding record_bytes set_wal_record_len le32
read_records-Rounds_example =
    read_records-Rounds formats start 90 0 (written formats items) reading (omega arith)

read_records-written_example :
    read_records formats start 60 0 (written formats items ++ []) reading
    ≡ (replay start items reading >>= λ r. ret (r, stop_at (0 + length (written formats items)) []))
unfolding record_bytes set_wal_record_len le32
read_records-written_example =
    read_records-written formats start 60 0 items [] reading
      (omega arith, (omega arith, (omega arith, tt))) none_left (omega arith)

replay-entries_example :
    replay start
      (map entry_item (entry 5 7 ∷ entry 6 7 ∷ []))
      (record reading { ents = some (entry 4 5) ∷ some (entry 5 5) ∷ some (entry 6 5) ∷ [] })
    ≡ ret (
        with_entries 1
          (entry 5 7 ∷ entry 6 7 ∷ [])
          (record reading { ents = some (entry 4 5) ∷ some (entry 5 5) ∷ some (entry 6 5) ∷ [] }))
replay-entries_example =
    replay-entries start (entry 5 7) (entry 6 7 ∷ [])
      (record reading { ents = some (entry 4 5) ∷ some (entry 5 5) ∷ some (entry 6 5) ∷ [] })
      (omega arith) (omega arith) (refl, tt)

-- The file with the record of the snapshot.
abbrev file : WalFile
file = open_file (written formats (snapshot_item start ∷ [])) 0 0

abbrev wal : Wal
wal = record { state = empty_hard_state; start = start; enti = 0; files = [] }

file-Keeps : Keeps formats file (snapshot_item start ∷ [])
unfolding record_bytes set_wal_record_len le32
file-Keeps = record { bytes = refl }

save_lem_example :
    (w : Wal) × (save formats state (entry 4 5 ∷ []) (with_file file wal) ≡ ret (ok, w))
    × Saved formats
        (snapshot_item start ∷ saved_items state (entry 4 5 ∷ []))
        (is_must_sync state empty_hard_state 1)
        file.content
        w
save_lem_example =
    save_lem formats state (entry 4 5 ∷ []) file (snapshot_item start ∷ []) wal file-Keeps refl

file-Fresh : Fresh formats start file
unfolding record_bytes set_wal_record_len le32
file-Fresh = record { content = refl; unflushed = refl; data_buffer = refl }

save-read_all_example :
    (w : Wal) × (g : WalFile) × (save formats state
        (entry 4 5 ∷ entry 5 5 ∷ [])
        (with_file file wal)
      ≡ ret (ok, w))
    × (w.files ≡ g ∷ [])
    × (m : ℕ) × (u : Wal) × (h : WalFile) × (read_all formats
          (opened start (open_file (g.content ++ take 30 g.unflushed) 0 0 ∷ []))
        ≡ ret (
          ok,
          (if ltb 2 m then state else empty_hard_state),
          map some (take m (entry 4 5 ∷ entry 5 5 ∷ [])),
          u,
        ))
    × (u.files ≡ h ∷ [])
    × (h.content
        ≡ written formats
            (snapshot_item start ∷ take m (saved_items state (entry 4 5 ∷ entry 5 5 ∷ []))))
    × (tail : List ℕ) × (g.content ++ take 30 g.unflushed ≡ h.content ++ tail)
    × Ends formats tail
    × (is_must_sync state empty_hard_state 2 ≡ true → length g.unflushed ≤ 30 → 2 < m)
save-read_all_example =
    save-read_all formats start state (entry 4 5 ∷ entry 5 5 ∷ []) file wal 30 0 0 file-Fresh refl
      (refl, (refl, tt)) (omega arith, (omega arith, (omega arith, tt))) (omega arith)

parse_wal_name-wal_name_example : parse_wal_name (wal_name 3 0x2710) ≡ some (3, 0x2710)
parse_wal_name-wal_name_example = parse_wal_name-wal_name 3 0x2710 (omega arith) (omega arith)

-- Two files, for the entries from 0 and from 16 on.
abbrev file_names : List (List ℕ)
file_names = wal_name 0 0 ∷ wal_name 1 16 ∷ []

second_found : search_index file_names 20 ≡ ret (some 1)
unfolding search_index search_below parse_wal_name wal_name scan_hex scan_digits hex_value
    split_dash hex_digits hex_digit
second_found = refl

file_names-Named : Named file_names
file_names-Named = record { at = file_name }
  where
    file_name : (j : ℕ) → j < 2 → (cur : ℕ) × IndexAt file_names j cur
    file_name zero h = (
      0,
      record {
        name = wal_name 0 0;
        seq = 0;
        there = refl;
        parses = parse_wal_name-wal_name 0 0 (omega arith) (omega arith);
      },
    )
    file_name (suc zero) h = (
      16,
      record {
        name = wal_name 1 16;
        seq = 1;
        there = refl;
        parses = parse_wal_name-wal_name 1 16 (omega arith) (omega arith);
      },
    )
    file_name (suc (suc j)) h = absurd (omega (arith, h))

search_index_lem_example :
    (o : Option ℕ) × (search_index file_names 20 ≡ ret o) × Found file_names 20 2 o
search_index_lem_example = search_index_lem (wal_name 0 0) (wal_name 1 16 ∷ []) 20 file_names-Named

-- A snapshot, saved in a directory without files.
abbrev snap : Snapshot
snap = record empty_snapshot {
  content = 9 ∷ 8 ∷ [];
  metadata = record {
    conf_state = record { nodes = 1 ∷ 2 ∷ []; learners = [] };
    index = 7;
    term = 2;
  };
}

load-save_snap_example :
    ((save_snap snap_format true snap []).0 ≡ ok)
    × (load snap_format (save_snap snap_format true snap []).1
        ≡ ret (some (saved_snapshot snap), (save_snap snap_format true snap []).1))
unfolding top snap_names
load-save_snap_example =
    load-save_snap snap_format snap [] (omega arith) (omega arith) (omega arith) refl

abbrev beat : Message
beat = record empty_message { type = msg_beat; from = 1; to = 2 }

read_frames-frames_example :
    read_frames messages 5 (
      frames messages (beat ∷ empty_message ∷ [])
      ++ take 3 (frame transport_type_stream (messages.pack beat)))
    ≡ ret (map sent_message (beat ∷ empty_message ∷ []))
read_frames-frames_example =
    read_frames-frames messages 5 3 (beat ∷ empty_message ∷ []) beat
      (omega arith, omega arith, (omega arith, omega arith, tt)) (omega arith) (omega arith)
      (omega arith)

abbrev session : ClientSession
session = record { buffer = buffer; connected = true; writing = none }

send-Sent_example :
    Sent session ((6 ∷ 7 ∷ []) ++ frame 1 (4 ∷ 4 ∷ [])) (send 1 (4 ∷ 4 ∷ []) session)
send-Sent_example = send-Sent 1 (4 ∷ 4 ∷ []) (6 ∷ 7 ∷ []) session buffer-Holds (omega arith)
