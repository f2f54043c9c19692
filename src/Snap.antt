-- ===== src/Snap.antt =====
-- `Snapshotter` of raft-kv/snap/snapshotter.cpp. The directory is the names and bytes of its files;
-- calls of the C library succeed, but for `fopen` in `save_snap`, and paths fit their buffer.
pub mod Newest
use raft_etcd.Common.{
  ℕ, zero, suc, ◌+◌, ◌-◌, ◌*◌, ◌/◌, ◌%◌, ◌^◌, ◌<◌, Bool, true, false, not, ◌&&◌, ◌||◌, List, [],
  ◌∷◌, ◌++◌, Option, none, some, Outcome, ret, fatal, ◌>>=◌, length, take, drop, le32, of_bytes,
  to_u32, ltb, leb, ◌==◌, if◌then◌else◌,
}
use raft_etcd.Common.Maps.{find, put, erase, same_bytes, bytes_keys, keys}
use raft_etcd.Codec.{Packing}
use raft_etcd.Status.{Status, ok, failed, not_found_code, io_error_code}
use raft_etcd.Proto.{Snapshot, saved_snapshot}

-- The library's part: the checksum and the encoding.
pub record SnapFormat : Type 0 where
  pub checksum : List ℕ → ℕ
  pub checksum-lt : (bytes : List ℕ) → checksum bytes < 2 ^ 32
  pub snapshots : Packing saved_snapshot

abbrev pub Directory : Type 0
Directory = List (List ℕ × List ℕ)

unfoldable pub hex_digit : ℕ → ℕ
hex_digit d = if ltb d 10 then b'0' + d else b'a' + (d - 10)

-- "%016" PRIx64: the 16 digits of 64 bits.
unfoldable pub hex_digits : ℕ → ℕ → List ℕ
unfolding hex_digit
hex_digits zero n = []
hex_digits (suc k) n = hex_digit (n / 16 ^ k % 16) ∷ hex_digits k n

abbrev pub dot_snap : List ℕ
dot_snap = b'.' ∷ b's' ∷ b'n' ∷ b'a' ∷ b'p' ∷ []

abbrev pub dot_broken : List ℕ
dot_broken = b'.' ∷ b'b' ∷ b'r' ∷ b'o' ∷ b'k' ∷ b'e' ∷ b'n' ∷ []

unfoldable pub snap_name : ℕ → ℕ → List ℕ
unfolding hex_digits
snap_name term index = (hex_digits 16 term ++ b'-' ∷ hex_digits 16 index) ++ dot_snap

-- The `SnapshotRecord` of a snapshot, on a little-endian machine.
unfoldable pub snap_bytes : SnapFormat → Snapshot → List ℕ
unfolding le32
snap_bytes F s =
    let packed = F.snapshots.pack s in
    (le32 (to_u32 (length packed)) ++ le32 (F.checksum packed))
    ++ take (to_u32 (length packed)) packed

-- `save_snap`: the file with the name of the snapshot is written anew, if it can be opened.
unfoldable pub save_snap : SnapFormat → Bool → Snapshot → Directory → Status × Directory
unfolding snap_name snap_bytes put
save_snap F opens s dir =
    if opens
    then (ok, put (snap_name s.metadata.term s.metadata.index) (snap_bytes F s) dir)
    else (failed io_error_code "strerror", dir)

-- `filename.extension() == ".snap"`.
unfoldable pub has_extension : List ℕ → Bool
unfolding same_bytes
has_extension name = leb 5 (length name) && same_bytes (drop (length name - 5) name) dot_snap

-- `a < b` on strings.
unfoldable pub less : List ℕ → List ℕ → Bool
less a [] = false
less [] (y ∷ ys) = true
less (x ∷ xs) (y ∷ ys) = let rest = less xs ys in if x == y then rest else ltb x y

unfoldable pub insert : List ℕ → List (List ℕ) → List (List ℕ)
unfolding less
insert x [] = x ∷ []
insert x (y ∷ ys) = let rest = insert x ys in if less x y then y ∷ rest else x ∷ y ∷ ys

-- `std::sort` with `std::greater`.
unfoldable pub sort : List (List ℕ) → List (List ℕ)
unfolding insert
sort [] = []
sort (x ∷ xs) = insert x (sort xs)

unfoldable pub snap_names : List (List ℕ) → List (List ℕ)
unfolding has_extension
snap_names [] = []
snap_names (n ∷ ns) = let rest = snap_names ns in if has_extension n then n ∷ rest else rest

unfoldable pub get_snap_names : Directory → List (List ℕ)
unfolding snap_names sort
get_snap_names dir = sort (snap_names (keys dir))

-- The tests of `load_snap` on a header and what follows it.
unfoldable pub read_record : SnapFormat → ℕ → ℕ → List ℕ → Option Snapshot
read_record F len crc rest =
    if (len == 0) || (crc == 0)
    then none
    else if ltb (length rest) len
    then none
    else if F.checksum (take len rest) == crc
    then F.snapshots.unpack (take len rest)
    else none

unfoldable pub read_snap : SnapFormat → List ℕ → Option Snapshot
unfolding read_record of_bytes
read_snap F (a ∷ b ∷ c ∷ d ∷ e ∷ f ∷ g ∷ h ∷ rest) =
    read_record F (of_bytes a b c d) (of_bytes e f g h) rest
read_snap F _ = none

-- The end of `load_snap`: a broken file is renamed.
abbrev pub loaded : List ℕ → List ℕ → Directory → Option Snapshot → Option Snapshot × Directory
loaded name bytes dir (some s) = (some s, dir)
loaded name bytes dir none = (none, put (name ++ dot_broken) bytes (erase name dir))

abbrev pub load_found :
    SnapFormat → List ℕ → Directory → Option (List ℕ) → Outcome (Option Snapshot × Directory)
load_found F name dir none = fatal
load_found F name dir (some bytes) = ret (loaded name bytes dir (read_snap F bytes))

-- The snapshot of a file, where the status is ok. The rename of a missing file throws.
unfoldable pub load_snap : SnapFormat → List ℕ → Directory → Outcome (Option Snapshot × Directory)
unfolding find put erase read_snap
load_snap F name dir = load_found F name dir (find name dir)

-- The loop of `load`: the first name that loads.
unfoldable pub load_first :
    SnapFormat → List (List ℕ) → Directory → Outcome (Option Snapshot × Directory)
unfolding load_snap
load_first F [] dir = ret (none, dir)
load_first F (name ∷ names) dir = load_snap F name dir >>= λ (o, dir'). elim o [
  | some s ↦ ret (some s, dir')
  | none ↦ load_first F names dir'
]

-- `none` is the status that tells that no snapshot is found.
unfoldable pub load : SnapFormat → Directory → Outcome (Option Snapshot × Directory)
unfolding get_snap_names load_first
load F dir = load_first F (get_snap_names dir) dir
