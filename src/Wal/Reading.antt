-- ===== src/Wal/Reading.antt =====
-- How `WAL::read_all` of raft-kv/wal/wal.cpp reads the records of a file.
use raft_etcd.Common.{
  ℕ, zero, suc, ◌+◌, ◌-◌, Bool, true, false, not, ◌&&◌, List, [], ◌∷◌, ◌++◌, Option, none, some,
  Outcome, ret, fatal, or_fatal, ◌>>=◌, length, take, drop, ltb, ◌==◌, of_bytes, if◌then◌else◌,
}
use raft_etcd.Proto.{Entry, HardState}
use raft_etcd.Wal.Record.{
  WalSnapshot, WalRecord, Formats, wal_record_len, wal_invalid_type, wal_entry_type, wal_state_type,
  wal_snapshot_type,
}
use raft_etcd.Wal.File.{WalFile, truncate}
use raft_etcd.Wal.File

-- What a round of the loop finds: an incomplete or damaged record, a record with the invalid type,
-- or a type with its data and what follows.
pub data Next : Type 0 where
  torn invalid : Next
  found : ℕ → List ℕ → List ℕ → Next

-- The tests on a header and the bytes after it, in their order.
unfoldable pub checked : Formats → WalRecord → List ℕ → Next
unfolding wal_record_len
checked F r left =
    if r.type == wal_invalid_type
    then invalid
    else if ltb (length left) (wal_record_len r)
    then torn
    else if not (r.crc == 0) && not (F.checksum (take (wal_record_len r) left) == r.crc)
    then torn
    else found r.type (take (wal_record_len r) left) (drop (wal_record_len r) left)

unfoldable pub next_record : Formats → List ℕ → Next
unfolding checked of_bytes
next_record F (t ∷ l0 ∷ l1 ∷ l2 ∷ c0 ∷ c1 ∷ c2 ∷ c3 ∷ left) =
    checked F (record { type = t; len0 = l0; len1 = l1; len2 = l2; crc = of_bytes c0 c1 c2 c3 })
      left
next_record F _ = torn

-- The variables that the loop fills, with the member `enti_`. The vector of entries can hold null
-- pointers, as `resize` adds them.
pub record Reading : Type 0 where
  pub hs : HardState
  pub ents : List (Option Entry)
  pub enti : ℕ
  pub matchsnap : Bool

-- `ents.resize(n)`.
unfoldable pub resize_ents : ℕ → List (Option Entry) → List (Option Entry)
resize_ents zero xs = []
resize_ents (suc n) [] = none ∷ resize_ents n []
resize_ents (suc n) (x ∷ xs) = x ∷ resize_ents n xs

abbrev pub take_entry : WalSnapshot → Entry → Reading → Reading
take_entry start e r =
    record (if ltb start.index e.index
      then record r { ents = resize_ents (e.index - start.index - 1) r.ents ++ some e ∷ [] }
      else r) { enti = e.index }

abbrev pub take_snapshot : WalSnapshot → WalSnapshot → Reading → Outcome Reading
take_snapshot start snap r =
    if snap.index == start.index
    then if snap.term == start.term then ret (record r { matchsnap = true }) else fatal
    else ret r

-- `handle_record_wal_record`: an exception of the decoder leaves `read_all`, as LOG_FATAL does.
unfoldable pub handle_record : Formats → WalSnapshot → ℕ → List ℕ → Reading → Outcome Reading
unfolding resize_ents
handle_record F start type bytes r =
    if type == wal_entry_type
    then or_fatal (F.entries.unpack bytes) >>= (λ e. ret (take_entry start e r))
    else if type == wal_state_type
    then or_fatal (F.states.unpack bytes) >>= (λ hs. ret (record r { hs = hs }))
    else if type == wal_snapshot_type
    then or_fatal (F.snapshots.unpack bytes) >>= (λ snap. take_snapshot start snap r)
    else fatal

-- The end of a round.
abbrev pub mark_snapshot : ℕ → Reading → Reading
mark_snapshot type r = if type == wal_snapshot_type then record r { matchsnap = true } else r

-- A round: what is done with what it finds, where `more` reads on from an offset.
abbrev pub one_round :
    Formats
    → WalSnapshot
    → ℕ
    → Reading
    → (ℕ → List ℕ → Reading → Outcome (Reading × Option ℕ))
    → Next
    → Outcome (Reading × Option ℕ)
one_round F start offset r more torn = ret (r, some offset)
one_round F start offset r more invalid = ret (r, none)
one_round F start offset r more (found type bytes rest) =
    handle_record F start type bytes r >>= λ r'.
    more (offset + 8 + length bytes) rest (mark_snapshot type r')

-- The loop, from the offset of the bytes that are left: what it read, and where the file is to be
-- truncated. A round takes 8 bytes or more, so the number of bytes is enough fuel.
unfoldable pub read_records :
    Formats → WalSnapshot → ℕ → ℕ → List ℕ → Reading → Outcome (Reading × Option ℕ)
unfolding next_record handle_record
read_records F start fuel offset [] r = ret (r, none)
read_records F start zero offset (b ∷ bs) r = fatal
read_records F start (suc fuel) offset (b ∷ bs) r =
    one_round F start offset r (λ o rest r'. read_records F start fuel o rest r')
      (next_record F (b ∷ bs))

abbrev pub truncated : Option ℕ → WalFile → WalFile
truncated none f = f
truncated (some offset) f = truncate offset f

-- The body of the loop over the files.
unfoldable pub read_file : Formats → WalSnapshot → WalFile → Reading → Outcome (Reading × WalFile)
unfolding read_records File.read_all truncate
read_file F start f r =
    let (bytes, f') = File.read_all f in
    read_records F start (length bytes) 0 bytes (record r { matchsnap = false }) >>= λ (r', stop).
    if r'.matchsnap then ret (r', truncated stop f') else fatal

unfoldable pub read_files :
    Formats → WalSnapshot → List WalFile → Reading → Outcome (Reading × List WalFile)
unfolding read_file
read_files F start [] r = ret (r, [])
read_files F start (f ∷ fs) r = read_file F start f r >>= λ (r', f').
    read_files F start fs r' >>= λ (r'', fs'). ret (r'', f' ∷ fs')
