-- ===== src/Server/Compacting.antt =====
-- The compaction at the end of `maybe_trigger_snapshot` of raft-kv/server/raft_node.cpp.
use raft_etcd.Common.{
  ℕ, zero, suc, ◌+◌, ◌-◌, ◌^◌, ◌≤◌, ◌<◌, ◌≡◌, refl, List, [], ◌∷◌, some, ret, arith, length,
  get_elem?, drop, add64, add64_lem, sub64_lem,
}
use raft_etcd.Status.{ok}
use raft_etcd.Proto.{Entry}
use raft_etcd.Unstable.Contiguous.{Numbered}
use raft_etcd.Storage.{MemoryStorage, compact, last_index}
use raft_etcd.Server.{compact_index, snap_count, snapshot_catch_up_entries_n}

get_elem?-Numbered :
    (i j : ℕ) (es : List Entry)
    → Numbered j es
    → i < length es
    → (e : Entry) × (get_elem? es i ≡ some e) × (e.index ≡ j + i)
get_elem?-Numbered i j [] n h = absurd (omega (arith, h))
get_elem?-Numbered zero j (e ∷ es) n h = (e, refl, omega (arith, n.0))
get_elem?-Numbered (suc i) j (e ∷ es) n h =
    let found = get_elem?-Numbered i (suc j) es n.1 (omega (arith, h)) in
    (found.0, found.1, omega (arith, found.2))

compact_index_lem :
    (snapshot_index applied : ℕ)
    → applied < 2 ^ 64
    → snapshot_index + snap_count < applied
    → compact_index applied ≡ applied - snapshot_catch_up_entries_n
unfolding compact_index
compact_index_lem i a f h =
    rw (sub64_lem a snapshot_catch_up_entries_n (omega (arith, h)) f) (ground (arith, h))

-- If a node has applied more than `snap_count` entries since its last snapshot, and its storage has
-- numbered entries from the index of that snapshot or an earlier one up to the applied index or
-- further, all below 2 ^ 64 - 1, then the index to compact at is after the snapshot and before the
-- applied index, `compact` answers an ok status, and the storage then starts at that index.
pub compact-compact_index :
    (s : MemoryStorage) (front : Entry) (es : List Entry) (snapshot_index applied : ℕ)
    → s.entries ≡ front ∷ es
    → Numbered front.index (front ∷ es)
    → front.index ≤ snapshot_index
    → snapshot_index + snap_count < applied
    → applied ≤ front.index + length es
    → front.index + length es + 1 < 2 ^ 64
    → (snapshot_index < compact_index applied)
      × (compact_index applied < applied)
      × (s' : MemoryStorage) × (compact (compact_index applied) s ≡ ret (ok, s'))
      × (new : Entry) × (kept : List Entry) × (s'.entries ≡ new ∷ kept)
      × (new.index ≡ compact_index applied)
unfolding compact last_index
compact-compact_index s front es i a q n h l r f =
    rw (compact_index_lem i a (omega (arith, r, f)) l) (
      omega (arith, l),
      omega (arith, l),
      record s {
        entries =
            record front { index = at.0.index; term = at.0.term }
            ∷ drop (add64 (a - snapshot_catch_up_entries_n - front.index) 1) (front ∷ es);
      },
      rw
          (
            q,
            add64_lem front.index (length (front ∷ es)) (omega (arith, f)),
            sub64_lem (front.index + length (front ∷ es)) 1 (omega arith) (omega (arith, f)),
            sub64_lem (a - snapshot_catch_up_entries_n) front.index (omega (arith, h, l))
                (omega (arith, r, f)),
            at.1,
          )
          (ground (arith, h, l, r)),
      record front { index = at.0.index; term = at.0.term },
      drop (add64 (a - snapshot_catch_up_entries_n - front.index) 1) (front ∷ es),
      refl,
      omega (arith, at.2, h, l),
    )
  where
    at :
        (e : Entry) × (get_elem? (front ∷ es) (a - snapshot_catch_up_entries_n - front.index)
          ≡ some e)
        × (e.index ≡ front.index + (a - snapshot_catch_up_entries_n - front.index))
    at =
        get_elem?-Numbered (a - snapshot_catch_up_entries_n - front.index) front.index (front ∷ es)
          n (omega (arith, r, h, l))
