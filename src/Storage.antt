-- ===== src/Storage.antt =====
-- `MemoryStorage` of raft-kv/raft/storage.h and storage.cpp. The mutex is not modelled: a call is
-- one step. A vector of shared entries is a list of entries: the only write through such a pointer
-- is to the first one, in `compact`, and that entry is never one of a caller's.
pub mod Appending
use raft_etcd.Common.{
  ℕ, zero, suc, Option, none, some, List, [], ◌∷◌, ◌++◌, ◌-◌, Outcome, ret, fatal, check, or_fatal,
  ◌>>=◌, ◌>>◌, ltb, leb, ◌==◌, length, get_elem?, take, drop, add64, sub64, if◌then◌else◌,
}
use raft_etcd.Proto.{
  Entry, empty_entry, Snapshot, empty_snapshot, HardState, empty_hard_state, ConfState,
}
use raft_etcd.Status.{Status, ok, invalid_argument}
use raft_etcd.Util.{entry_limit_size}

pub record MemoryStorage : Type 0 where
  pub hard_state : HardState
  pub snapshot : Snapshot
  pub entries : List Entry

-- `MemoryStorage()`: one dummy entry.
abbrev pub new_storage : MemoryStorage
new_storage = record {
  hard_state = empty_hard_state;
  snapshot = empty_snapshot;
  entries = empty_entry ∷ [];
}

unfoldable pub initial_state : MemoryStorage → HardState × ConfState
initial_state s = (s.hard_state, s.snapshot.metadata.conf_state)

unfoldable pub set_hard_state : HardState → MemoryStorage → MemoryStorage
set_hard_state hs s = record s { hard_state = hs }

-- `entries_[0]->index`.
abbrev pub offset : MemoryStorage → Outcome ℕ
offset s = do e ← or_fatal (get_elem? s.entries 0); ret e.index

unfoldable pub last_index : MemoryStorage → Outcome ℕ
last_index s = do o ← offset s; ret (sub64 (add64 o (length s.entries)) 1)

unfoldable pub first_index : MemoryStorage → Outcome ℕ
first_index s = do o ← offset s; ret (add64 o 1)

-- The entries at `i`, `i + 1`, … (`n` of them), pushed one by one.
pub read_range : List Entry → ℕ → ℕ → Outcome (List Entry)
read_range es i zero = ret []
read_range es i (suc n) = do
  e ← or_fatal (get_elem? es i)
  rest ← read_range es (suc i) n
  ret (e ∷ rest)

-- The loop runs from `low - offset` to below `high - offset`, so as often as their difference on ℕ.
-- The vector that the callers pass is empty, so the result is what is pushed to it.
unfoldable pub entries : ℕ → ℕ → ℕ → MemoryStorage → Outcome (Status × List Entry)
unfolding last_index
entries low high max_size s = do
  check (ltb low high)
  o ← offset s
  if ltb low o
      then ret (invalid_argument "requested index is unavailable due to campaction", [])
      else do
        last ← last_index s
        check (leb high (add64 last 1))
        if length s.entries == 1
            then ret (invalid_argument "request entry at index is unavailable", [])
            else do
              es ← read_range s.entries (sub64 low o) (sub64 high o - sub64 low o)
              ret (ok, entry_limit_size max_size es)

-- The term, if the status is ok.
unfoldable pub term : ℕ → MemoryStorage → Outcome (Status × ℕ)
term i s = do
  o ← offset s
  if ltb i o
      then ret (invalid_argument "requested index is unavailable due to compaction", 0)
      else if leb (length s.entries) (sub64 i o)
      then ret (invalid_argument "requested entry at index is unavailable", 0)
      else do e ← or_fatal (get_elem? s.entries (sub64 i o)); ret (ok, e.term)

unfoldable pub compact : ℕ → MemoryStorage → Outcome (Status × MemoryStorage)
unfolding last_index
compact compact_index s = do
  front ← or_fatal (get_elem? s.entries 0)
  if leb compact_index front.index
      then ret (invalid_argument "requested idnex is unavailable due to compaction", s)
      else do
        last ← last_index s
        check (leb compact_index last)
        let i = sub64 compact_index front.index
        e ← or_fatal (get_elem? s.entries i)
        ret (
          ok,
          record s {
            entries = record front { index = e.index; term = e.term } ∷ drop (add64 i 1) s.entries;
          },
        )

-- The tail of `append`, once the entries that are already compacted are dropped.
append_at : List Entry → MemoryStorage → Outcome (Status × MemoryStorage)
append_at new s = do
  o ← offset s
  first_new ← or_fatal (get_elem? new 0)
  let at = sub64 first_new.index o
  if ltb at (length s.entries)
      then ret (ok, record s { entries = take at s.entries ++ new })
      else if length s.entries == at
      then ret (ok, record s { entries = s.entries ++ new })
      else fatal

unfoldable pub append : List Entry → MemoryStorage → Outcome (Status × MemoryStorage)
unfolding append_at first_index
append [] s = ret (ok, s)
append (e ∷ es) s = do
  first ← first_index s
  let last = sub64 (add64 e.index (length (e ∷ es))) 1
  if ltb last first
      then ret (ok, s)
      else append_at (if ltb e.index first then drop (sub64 first e.index) (e ∷ es) else e ∷ es) s

-- The snapshot that the out parameter points to is the storage's own.
unfoldable pub create_snapshot :
    ℕ → Option ConfState → List ℕ → MemoryStorage → Outcome (Status × Snapshot × MemoryStorage)
unfolding last_index
create_snapshot index cs content s =
    if leb index s.snapshot.metadata.index
    then ret
        (invalid_argument "request index is older than the existing snapshot", empty_snapshot, s)
    else do
      o ← offset s
      last ← last_index s
      check (leb index last)
      e ← or_fatal (get_elem? s.entries (sub64 index o))
      let conf : ConfState = elim cs [ none ↦ s.snapshot.metadata.conf_state | some c ↦ c ]
      let snap : Snapshot = record {
        content = content;
        metadata = record { conf_state = conf; index = index; term = e.term };
      }
      ret (ok, snap, record s { snapshot = snap })

unfoldable pub apply_snapshot : Snapshot → MemoryStorage → Status × MemoryStorage
apply_snapshot snap s =
    if leb snap.metadata.index s.snapshot.metadata.index
    then (invalid_argument "requested index is older than the existing snapshot", s)
    else (
      ok,
      record s {
        snapshot = snap;
        entries =
            record empty_entry { term = snap.metadata.term; index = snap.metadata.index } ∷ [];
      },
    )
