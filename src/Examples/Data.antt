-- ===== src/Examples/Data.antt =====
-- The log, the window and the progress of one node of raft-kv/raft, and their theorems on them.
use raft_etcd.Common.{
  max64, length, ◌+◌, ℕ, ◌≡◌, ◌≤◌, ◌<◌, ◌↔◌, ◌⊎◌, refl, inl, arith, ret, true, some, List, [], ◌∷◌,
  add64, sub64, add32, to_u32,
}
use raft_etcd.Proto.{empty_entry, Entry, serialize_size}
use raft_etcd.Storage
use raft_etcd.Unstable
use raft_etcd.Status.{ok}
use raft_etcd.Storage.{MemoryStorage, new_storage, append}
use raft_etcd.Storage.Appending.{holding, append_lem, append-Numbered}
use raft_etcd.Unstable.{Unstable, truncate_and_append}
use raft_etcd.Unstable.Contiguous.{
  Numbered, Contiguous, truncate_and_append_lem, truncate_and_append-Contiguous,
}
use raft_etcd.RaftLog
use raft_etcd.RaftLog.{RaftLog, find_conflict, match_term, maybe_append}
use raft_etcd.RaftLog.Conflict.{
  AllMatch, FirstMismatch, find_conflict_lem, Appended, maybe_append_lem,
}
use raft_etcd.Util.{entry_limit_size}
use raft_etcd.Util.Limit.{Cut, total_size, entry_limit_size-Cut}
use raft_etcd.InFlights.{InFlights, add}
use raft_etcd.InFlights.Freeing.{Window, Freeing}
use raft_etcd.InFlights.Fits.{Fits, add-Fits}
use raft_etcd.Progress.{Progress, maybe_update, maybe_decreases_to}
use raft_etcd.Progress.Window.{
  Ordered, Move, Behind, Move-Ordered, maybe_decreases_to_back, maybe_update_lem,
}
use raft_etcd.Examples.{entry, three_entries, log, window, progress}

-- The leader has another entry 3, and the entry 4.
abbrev leaders : List Entry
leaders = entry 2 5 ∷ entry 3 6 ∷ entry 4 6 ∷ []

found : find_conflict leaders log ≡ ret 3
unfolding find_conflict match_term RaftLog.term RaftLog.last_index RaftLog.first_index
    Unstable.maybe_last_index Unstable.maybe_first_index Unstable.maybe_term Storage.first_index
    Storage.last_index add64 sub64
found = refl

find_conflict_lem_example : (Path ℕ 3 0 × AllMatch log leaders) ⊎ FirstMismatch log leaders 3
find_conflict_lem_example = find_conflict_lem leaders log 3 found

-- The log after the entries of the leader, which has committed up to 9.
abbrev longer : RaftLog
longer = record log {
  committed = 4;
  unstable = record three_entries { entries = entry 1 4 ∷ entry 2 5 ∷ entry 3 6 ∷ entry 4 6 ∷ [] };
}

appended : maybe_append 1 4 9 leaders log ≡ ret (some 4, longer)
unfolding maybe_append RaftLog.append RaftLog.commit_to truncate_and_append Unstable.slice
    find_conflict match_term RaftLog.term RaftLog.last_index RaftLog.first_index
    Unstable.maybe_last_index Unstable.maybe_first_index Unstable.maybe_term Storage.first_index
    Storage.last_index add64 sub64
appended = refl

maybe_append_lem_example : Appended 1 4 9 leaders log (some 4, longer)
maybe_append_lem_example = maybe_append_lem 1 4 9 leaders log (some 4, longer) appended

truncate_and_append_lem_example :
    truncate_and_append (entry 3 6 ∷ entry 4 6 ∷ []) three_entries
    ≡ ret (record three_entries { entries = entry 1 4 ∷ entry 2 5 ∷ entry 3 6 ∷ entry 4 6 ∷ [] })
truncate_and_append_lem_example =
    truncate_and_append_lem (entry 3 6) (entry 4 6 ∷ []) three_entries (ground arith) (ground arith)

contiguous : Contiguous three_entries
contiguous = record { numbered = (refl, (refl, (refl, tt))); fits = ground arith }

truncate_and_append-Contiguous_example :
    (u' : Unstable) × (truncate_and_append (entry 3 6 ∷ entry 4 6 ∷ []) three_entries ≡ ret u')
    × Contiguous u'
truncate_and_append-Contiguous_example =
    truncate_and_append-Contiguous (entry 3 6) (entry 4 6 ∷ []) three_entries contiguous
      (refl, (refl, tt)) (ground arith) (ground arith)

sizes : total_size (entry 2 5 ∷ entry 3 6 ∷ []) ≡ 14
unfolding serialize_size add32 to_u32
sizes = refl

entry_limit_size-Cut_example :
    (kept : List Entry) × (entry_limit_size 6 (entry 2 5 ∷ entry 3 6 ∷ []) ≡ entry 2 5 ∷ kept)
    × Cut 6 (serialize_size (entry 2 5)) (entry 3 6 ∷ []) kept
entry_limit_size-Cut_example =
    entry_limit_size-Cut 6 (entry 2 5) (entry 3 6 ∷ []) (omega (arith, sizes))

window-Fits : Fits window
window-Fits = record {
  count = ground arith;
  start = ground arith;
  buffer = ground arith;
  used = inl (ground arith);
  size = ground arith;
}

add-Fits_example : (f' : InFlights) × (add 4 window ≡ ret f') × (f'.count ≡ 2) × Fits f'
add-Fits_example = add-Fits 4 window window-Fits (ground arith)

progress-Ordered : Ordered (progress 2)
progress-Ordered = record { below = ground arith; room = ground arith }

Move-Ordered_example :
    ((q : Progress) → Move (progress 2) q → Ordered q)
    × ((at last : ℕ)
        → last + 1 < max64
        → (Ordered (maybe_decreases_to at last (progress 2)).1 ⊎ Behind at last (progress 2))
          × (Behind at last (progress 2)
              → (maybe_decreases_to at last (progress 2)).1.next ≤ (progress 2).match))
Move-Ordered_example = Move-Ordered (progress 2) progress-Ordered

rejected_now : (maybe_decreases_to 3 9 (progress 2)).0 ≡ true
unfolding maybe_decreases_to
rejected_now = refl

maybe_decreases_to_back_example :
    ((maybe_decreases_to 3 9 (progress 2)).1.next ≤ 4)
    × ((maybe_decreases_to 3 9 (progress 2)).1.match ≡ 2)
maybe_decreases_to_back_example =
    maybe_decreases_to_back 3 9 (progress 2) progress-Ordered (ground arith) (ground arith)
      rejected_now

maybe_update_lem_example :
    ((maybe_update 3 (progress 2)).1.match ≡ 3)
    × ((maybe_update 3 (progress 2)).1.next ≡ 4)
    × (((maybe_update 3 (progress 2)).0 ≡ true) ↔ (2 < 3))
maybe_update_lem_example = maybe_update_lem 3 (progress 2) (ground arith)

storage-Numbered : Numbered 0 (empty_entry ∷ entry 1 4 ∷ entry 2 4 ∷ [])
storage-Numbered = (refl, (refl, (refl, tt)))

append_lem_example :
    append
      (entry 2 5 ∷ entry 3 5 ∷ [])
      (holding empty_entry (entry 1 4 ∷ entry 2 4 ∷ []) new_storage)
    ≡ ret
        (ok, record new_storage { entries = empty_entry ∷ entry 1 4 ∷ entry 2 5 ∷ entry 3 5 ∷ [] })
append_lem_example =
    append_lem (entry 2 5) (entry 3 5 ∷ []) empty_entry (entry 1 4 ∷ entry 2 4 ∷ []) new_storage
      (ground arith) (ground arith) (ground arith)

append-Numbered_example :
    (s' : MemoryStorage) × (append
        (entry 2 5 ∷ entry 3 5 ∷ [])
        (holding empty_entry (entry 1 4 ∷ entry 2 4 ∷ []) new_storage)
      ≡ ret (ok, s'))
    × Numbered 0 s'.entries
    × (0 + length s'.entries ≡ 4)
append-Numbered_example =
    append-Numbered (entry 2 5) (entry 3 5 ∷ []) empty_entry (entry 1 4 ∷ entry 2 4 ∷ [])
      new_storage storage-Numbered (refl, (refl, tt)) (ground arith) (ground arith) (ground arith)
