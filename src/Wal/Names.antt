-- ===== src/Wal/Names.antt =====
-- The names of the files of the write-ahead log in raft-kv/wal/wal.cpp, and `open`. Of what a
-- `stringstream` reads as a hexadecimal number, the digits are modelled: not a sign, white space or
-- a prefix `0x` before them.
pub mod Search
pub mod Digits
use raft_etcd.Common.{
  ℕ, zero, suc, ◌+◌, ◌-◌, ◌*◌, min, Bool, true, false, not, ◌&&◌, List, [], ◌∷◌, ◌++◌, Option, none,
  some, Outcome, ret, fatal, or_fatal, ◌>>=◌, length, get_elem?, take, drop, is_empty, ltb, leb,
  ◌==◌, sub64, max64, if◌then◌else◌,
}
use raft_etcd.Common.Maps.{find, bytes_keys, same_bytes}
use raft_etcd.Snap.{Directory, hex_digits, less}
use raft_etcd.Wal.Record.{WalSnapshot}
use raft_etcd.Wal.File.{WalFile, open_file}
use raft_etcd.Wal.Log.{Wal, opened}

abbrev pub dot_wal : List ℕ
dot_wal = b'.' ∷ b'w' ∷ b'a' ∷ b'l' ∷ []

unfoldable pub wal_name : ℕ → ℕ → List ℕ
unfolding hex_digits
wal_name seq index = (hex_digits 16 seq ++ b'-' ∷ hex_digits 16 index) ++ dot_wal

unfoldable pub hex_value : ℕ → Option ℕ
hex_value c =
    if leb b'0' c && leb c b'9'
    then some (c - b'0')
    else if leb b'a' c && leb c b'f'
    then some (c - b'a' + 10)
    else if leb b'A' c && leb c b'F'
    then some (c - b'A' + 10)
    else none

-- The digits up to the first byte that is none.
unfoldable pub scan_digits : ℕ → List ℕ → ℕ
unfolding hex_value
scan_digits acc [] = acc
scan_digits acc (c ∷ cs) = elim (hex_value c) [
  | none ↦ acc
  | some d ↦ scan_digits (acc * 16 + d) cs
]

-- `ss >> std::hex >> x`: a number that does not fit is read as the largest one.
unfoldable pub scan_hex : List ℕ → ℕ
unfolding scan_digits
scan_hex s = min max64 (scan_digits 0 s)

abbrev pub prepend : ℕ → Option (List ℕ × List ℕ) → Option (List ℕ × List ℕ)
prepend c none = none
prepend c (some (a, b)) = some (c ∷ a, b)

-- `find('-')`: what is before the first dash and after it.
unfoldable pub split_dash : List ℕ → Option (List ℕ × List ℕ)
split_dash [] = none
split_dash (c ∷ cs) =
    let rest = prepend c (split_dash cs) in if c == b'-' then some ([], cs) else rest

abbrev pub has_extension : List ℕ → Bool
has_extension name = leb 4 (length name) && same_bytes (drop (length name - 4) name) dot_wal

abbrev pub parse_parts : Option (List ℕ × List ℕ) → Option (ℕ × ℕ)
parse_parts none = none
parse_parts (some (a, b)) = if is_empty b then none else some (scan_hex a, scan_hex b)

unfoldable pub parse_wal_name : List ℕ → Option (ℕ × ℕ)
unfolding scan_hex split_dash same_bytes
parse_wal_name name =
    if has_extension name then parse_parts (split_dash (take (length name - 4) name)) else none

-- The loop of `is_valid_seq`, from the last number that was read.
unfoldable pub valid_from : ℕ → List (List ℕ) → Outcome Bool
unfolding parse_wal_name
valid_from last [] = ret true
valid_from last (name ∷ names) = or_fatal (parse_wal_name name) >>= λ (seq, index).
    elim (not (last == 0) && not (last == sub64 seq 1)) [
      | true ↦ ret false
      | false ↦ valid_from seq names
    ]

unfoldable pub is_valid_seq : List (List ℕ) → Outcome Bool
unfolding valid_from
is_valid_seq names = valid_from 0 names

-- The loop of `search_index`, at `i - 1` and below.
unfoldable pub search_below : List (List ℕ) → ℕ → ℕ → Outcome (Option ℕ)
unfolding parse_wal_name
search_below names index zero = ret none
search_below names index (suc i) = or_fatal (get_elem? names i) >>= λ name.
    or_fatal (parse_wal_name name) >>= λ (seq, cur). elim (leb cur index) [
      | true ↦ ret (some i)
      | false ↦ search_below names index i
    ]

-- Without names the first read is out of range.
unfoldable pub search_index : List (List ℕ) → ℕ → Outcome (Option ℕ)
unfolding search_below
search_index [] index = fatal
search_index (n ∷ ns) index = search_below (n ∷ ns) index (length (n ∷ ns))

-- `std::sort` with `std::less`, of the names that end in ".wal".
unfoldable pub insert_name : List ℕ → List (List ℕ) → List (List ℕ)
unfolding less
insert_name x [] = x ∷ []
insert_name x (y ∷ ys) = let rest = insert_name x ys in if less y x then y ∷ rest else x ∷ y ∷ ys

unfoldable pub get_wal_names : Directory → List (List ℕ)
unfolding insert_name same_bytes
get_wal_names [] = []
get_wal_names ((name, bytes) ∷ dir) =
    let rest = get_wal_names dir in if has_extension name then insert_name name rest else rest

-- The files behind some names. `told` is what `ftell` answers for each.
unfoldable pub open_files : Directory → ℕ → List (List ℕ) → Outcome (List WalFile)
unfolding parse_wal_name find
open_files dir told [] = ret []
open_files dir told (name ∷ names) = or_fatal (parse_wal_name name) >>= λ (seq, index).
    or_fatal (find name dir) >>= λ bytes.
    open_files dir told names >>= λ fs. ret (open_file bytes told seq ∷ fs)

-- `open`, from the files that the search gives on.
unfoldable pub open_from : Directory → ℕ → WalSnapshot → List (List ℕ) → Outcome Wal
unfolding search_index is_valid_seq open_files opened
open_from dir told snap names = search_index names snap.index >>= λ found. or_fatal found >>= λ i.
    is_valid_seq (drop i names) >>= λ valid.
    if valid then open_files dir told (drop i names) >>= (λ fs. ret (opened snap fs)) else fatal

unfoldable pub open_wal : Directory → ℕ → WalSnapshot → Outcome Wal
unfolding get_wal_names open_from
open_wal dir told snap = open_from dir told snap (get_wal_names dir)
