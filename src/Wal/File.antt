-- ===== src/Wal/File.antt =====
-- `WAL_File` of raft-kv/wal/wal.cpp. Calls of the C library succeed. What `ftell` answers just after
-- `fopen` in mode "a+" is open, so it is an argument. What `fwrite` takes waits in the buffer of the
-- stream until `fseek` or `fclose`; before that, the library may have passed on any beginning of it.
-- The content is what has been passed on for certain.
use raft_etcd.Common.{ℕ, ◌+◌, List, [], ◌++◌, length, drop, is_empty, if◌then◌else◌}
use raft_etcd.Buffer.{resize}
use raft_etcd.Wal.Record.{Formats, record_bytes}

pub record WalFile : Type 0 where
  pub data_buffer : List ℕ
  pub seq : ℕ
  pub file_size : ℕ
  pub content : List ℕ
  pub unflushed : List ℕ
  pub position : ℕ

-- `WAL_File(path, seq)` on a file with these bytes, none if it is new.
abbrev pub open_file : List ℕ → ℕ → ℕ → WalFile
open_file content told seq = record {
  data_buffer = [];
  seq = seq;
  file_size = told;
  content = content;
  unflushed = [];
  position = 0;
}

-- `ftruncate` is on the file, and the `fseek` after it passes on what waits, to the end of the file.
unfoldable pub truncate : ℕ → WalFile → WalFile
unfolding resize
truncate offset f = record f {
  content = resize offset f.content ++ f.unflushed;
  unflushed = [];
  position = offset;
  file_size = offset;
  data_buffer = [];
}

unfoldable pub append : Formats → ℕ → List ℕ → WalFile → WalFile
unfolding record_bytes
append F type bytes f = record f { data_buffer = f.data_buffer ++ record_bytes F type bytes }

-- `fwrite`, and nothing that flushes the stream. In mode "a+" it writes at the end of the file.
unfoldable pub sync : WalFile → WalFile
sync f = if is_empty f.data_buffer then f else record f {
  unflushed = f.unflushed ++ f.data_buffer;
  position = length f.content + (length f.unflushed + length f.data_buffer);
  file_size = f.file_size + length f.data_buffer;
  data_buffer = [];
}

-- `fclose` of the destructor.
unfoldable pub close : WalFile → WalFile
close f = record f { content = f.content ++ f.unflushed; unflushed = [] }

-- `read_all`: the loop reads from the position until the end of the file, and `fseek` follows. The
-- class reads a file before it writes to it, so nothing waits then.
unfoldable pub read_all : WalFile → List ℕ × WalFile
read_all f =
    let whole = f.content ++ f.unflushed in
    (
      drop f.position f.content,
      record f { content = whole; unflushed = []; position = length whole },
    )
