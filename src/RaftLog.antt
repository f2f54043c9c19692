-- ===== src/RaftLog.antt =====
-- `RaftLog` of raft-kv/raft/raft_log.h and raft_log.cpp: the stable log (the storage, which the
-- application shares) and the unstable one, with the commit and apply cursors. A query whose status
-- is not ok leaves its out parameter alone; the model then returns 0 beside the status.
pub mod Advance
pub mod Conflict
use raft_etcd.Common.{
  ℕ, Bool, true, false, not, Option, none, some, List, [], ◌∷◌, ◌++◌, min, max, Outcome, ret, fatal,
  check, ◌>>=◌, ◌>>◌, ltb, leb, ◌==◌, ◌&&◌, ◌||◌, length, drop, add64, sub64, if◌then◌else◌,
}
use raft_etcd.Proto.{Entry, Snapshot}
use raft_etcd.Status.{Status, ok, failed, invalid_argument, is_ok}
use raft_etcd.Util.{entry_limit_size}
use raft_etcd.Storage
use raft_etcd.Storage.{MemoryStorage}
use raft_etcd.Unstable
use raft_etcd.Unstable.{Unstable}

pub record RaftLog : Type 0 where
  pub storage : MemoryStorage
  pub unstable : Unstable
  pub committed : ℕ
  pub applied : ℕ
  pub max_next_ents_size : ℕ

-- `RaftLog(storage, max_next_ents_size)`.
unfoldable pub new_raft_log : MemoryStorage → ℕ → Outcome RaftLog
new_raft_log s max_size = do
  first ← Storage.first_index s
  last ← Storage.last_index s
  ret (record {
    storage = s;
    unstable = Unstable.new_unstable (add64 last 1);
    committed = sub64 first 1;
    applied = sub64 first 1;
    max_next_ents_size = max_size;
  })

unfoldable pub first_index : RaftLog → Outcome ℕ
first_index l = elim (Unstable.maybe_first_index l.unstable) [
  | some i ↦ ret i
  | none ↦ Storage.first_index l.storage
]

unfoldable pub last_index : RaftLog → Outcome ℕ
last_index l = elim (Unstable.maybe_last_index l.unstable) [
  | some i ↦ ret i
  | none ↦ Storage.last_index l.storage
]

unfoldable pub term : ℕ → RaftLog → Outcome (Status × ℕ)
term index l = do
  first ← first_index l
  last ← last_index l
  if ltb index (sub64 first 1) || ltb last index then ret (ok, 0) else do
    found ← Unstable.maybe_term index l.unstable
    elim found [ some t ↦ ret (ok, t) | none ↦ Storage.term index l.storage ]

unfoldable pub last_term : RaftLog → Outcome ℕ
last_term l = do last ← last_index l; found ← term last l; check (is_ok found.0); ret found.1

unfoldable pub match_term : ℕ → ℕ → RaftLog → Outcome Bool
match_term index t l = do found ← term index l; ret (is_ok found.0 && t == found.1)

unfoldable pub is_up_to_date : ℕ → ℕ → RaftLog → Outcome Bool
is_up_to_date lasti t l = do
  lt ← last_term l
  last ← last_index l
  ret (ltb lt t || t == lt && leb last lasti)

unfoldable pub must_check_out_of_bounds : ℕ → ℕ → RaftLog → Outcome Status
must_check_out_of_bounds low high l = do
  check (leb low high)
  first ← first_index l
  if ltb low first
      then ret (invalid_argument "requested index is unavailable due to compaction")
      else do
        last ← last_index l
        let len = sub64 (add64 last 1) first
        if ltb low first || ltb (add64 first len) high then fatal else ret ok

-- The part of a slice that is in `unstable_`, behind the part that is not.
slice_unstable : ℕ → ℕ → ℕ → List Entry → RaftLog → Outcome (Status × List Entry)
slice_unstable low high max_size stable l =
    if ltb l.unstable.offset high
    then (do
      es ← Unstable.slice (max low l.unstable.offset) high l.unstable
      ret (ok, entry_limit_size max_size (stable ++ es)))
    else ret (ok, entry_limit_size max_size stable)

-- What follows the read of the storage.
slice_rest : ℕ → ℕ → ℕ → Status × List Entry → RaftLog → Outcome (Status × List Entry)
unfolding slice_unstable
slice_rest low high max_size (failed c msg, es) l = ret (failed c msg, es)
slice_rest low high max_size (ok, es) l =
    if ltb (length es) (sub64 (min high l.unstable.offset) low)
    then ret (ok, es)
    else slice_unstable low high max_size es l

-- The vector that the callers pass is empty.
unfoldable pub slice : ℕ → ℕ → ℕ → RaftLog → Outcome (Status × List Entry)
unfolding slice_rest slice_unstable
slice low high max_size l = do
  status ← must_check_out_of_bounds low high l
  if not (is_ok status)
      then ret (status, [])
      else if low == high
      then ret (ok, [])
      else if ltb low l.unstable.offset
      then (do
        stable ← Storage.entries low (min high l.unstable.offset) max_size l.storage
        slice_rest low high max_size stable l)
      else slice_unstable low high max_size [] l

unfoldable pub entries : ℕ → ℕ → RaftLog → Outcome (Status × List Entry)
entries index max_size l = do
  last ← last_index l
  if ltb last index then ret (ok, []) else slice index (add64 last 1) max_size l

unfoldable pub next_entries : RaftLog → Outcome (List Entry)
next_entries l = do
  first ← first_index l
  let off = max (add64 l.applied 1) first
  if ltb off (add64 l.committed 1)
      then (do
        found ← slice off (add64 l.committed 1) l.max_next_ents_size l
        check (is_ok found.0)
        ret found.1)
      else ret []

unfoldable pub has_next_entries : RaftLog → Outcome Bool
has_next_entries l = do
  first ← first_index l
  ret (ltb (max (add64 l.applied 1) first) (add64 l.committed 1))

unfoldable pub snapshot : RaftLog → Status × Snapshot
snapshot l = elim l.unstable.snapshot [ some s ↦ (ok, s) | none ↦ (ok, l.storage.snapshot) ]

unfoldable pub find_conflict : List Entry → RaftLog → Outcome ℕ
find_conflict [] l = ret 0
find_conflict (e ∷ es) l = do
  same ← match_term e.index e.term l
  elim same [ true ↦ find_conflict es l | false ↦ ret e.index ]

unfoldable pub append : List Entry → RaftLog → Outcome (ℕ × RaftLog)
append [] l = do last ← last_index l; ret (last, l)
append (e ∷ es) l = if ltb (sub64 e.index 1) l.committed then fatal else do
  u ← Unstable.truncate_and_append (e ∷ es) l.unstable
  let l' : RaftLog = record l { unstable = u }
  last ← last_index l'
  ret (last, l')

unfoldable pub commit_to : ℕ → RaftLog → Outcome RaftLog
commit_to to_commit l =
    if ltb l.committed to_commit
    then (do
      last ← last_index l
      if ltb last to_commit then fatal else ret (record l { committed = to_commit }))
    else ret l

-- What `maybe_append` does with the conflict that it found (0 for none).
append_conflict : ℕ → List Entry → ℕ → RaftLog → Outcome RaftLog
append_conflict index es ci l =
    if ci == 0
    then ret l
    else if leb ci l.committed
    then fatal
    else do appended ← append (drop (sub64 ci (add64 index 1)) es) l; ret appended.1

-- The index of the last new entry, or `none` where the source sets `ok` to false.
unfoldable pub maybe_append : ℕ → ℕ → ℕ → List Entry → RaftLog → Outcome (Option ℕ × RaftLog)
unfolding append_conflict
maybe_append index log_term committed es l = do
  same ← match_term index log_term l
  if same
      then (do
        let lastnewi = add64 index (length es)
        ci ← find_conflict es l
        l' ← append_conflict index es ci l
        l'' ← commit_to (min committed lastnewi) l'
        ret (some lastnewi, l''))
      else ret (none, l)

unfoldable pub maybe_commit : ℕ → ℕ → RaftLog → Outcome (Bool × RaftLog)
maybe_commit max_index t l =
    if ltb l.committed max_index
    then (do
      found ← term max_index l
      if found.1 == t then (do l' ← commit_to max_index l; ret (true, l')) else ret (false, l))
    else ret (false, l)

unfoldable pub restore : Snapshot → RaftLog → RaftLog
restore s l = record l { committed = s.metadata.index; unstable = Unstable.restore s l.unstable }

-- The range check only logs.
unfoldable pub applied_to : ℕ → RaftLog → RaftLog
applied_to index l = if index == 0 then l else record l { applied = index }

unfoldable pub stable_to : ℕ → ℕ → RaftLog → Outcome RaftLog
stable_to index t l = do u ← Unstable.stable_to index t l.unstable; ret (record l { unstable = u })

unfoldable pub stable_snap_to : ℕ → RaftLog → RaftLog
stable_snap_to index l = record l { unstable = Unstable.stable_snap_to index l.unstable }
