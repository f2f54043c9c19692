-- ===== src/Unstable.antt =====
-- `Unstable` of raft-kv/raft/unstable.h and unstable.cpp: the entries, and the snapshot, that are
-- not yet in the storage.
pub mod Contiguous
use raft_etcd.Common.{
  ℕ, Option, none, some, List, [], ◌∷◌, ◌++◌, Outcome, ret, fatal, check, or_fatal, ◌>>=◌, ◌>>◌,
  ltb, leb, ◌==◌, ◌&&◌, ◌||◌, length, get_elem?, take, drop, add64, sub64, if◌then◌else◌,
}
use raft_etcd.Proto.{Entry, Snapshot}

pub record Unstable : Type 0 where
  pub snapshot : Option Snapshot
  pub entries : List Entry
  pub offset : ℕ

-- `Unstable(offset)`.
abbrev pub new_unstable : ℕ → Unstable
new_unstable o = record { snapshot = none; entries = []; offset = o }

-- `none` where the source sets `ok` to false.
unfoldable pub maybe_first_index : Unstable → Option ℕ
maybe_first_index u = elim u.snapshot [ none ↦ none | some s ↦ some (add64 s.metadata.index 1) ]

unfoldable pub maybe_last_index : Unstable → Option ℕ
maybe_last_index u = elim u.entries [
  | [] ↦ elim u.snapshot [ none ↦ none | some s ↦ some s.metadata.index ]
  | e ∷ es ↦ some (sub64 (add64 u.offset (length (e ∷ es))) 1)
]

-- The term of the pending snapshot, at its own index.
abbrev snapshot_term : ℕ → Option Snapshot → Option ℕ
snapshot_term index none = none
snapshot_term index (some s) = if s.metadata.index == index then some s.metadata.term else none

unfoldable pub maybe_term : ℕ → Unstable → Outcome (Option ℕ)
unfolding maybe_last_index
maybe_term index u =
    if ltb index u.offset then ret (snapshot_term index u.snapshot) else elim (maybe_last_index u) [
      | none ↦ ret none
      | some last ↦
          if ltb last index
          then ret none
          else do e ← or_fatal (get_elem? u.entries (sub64 index u.offset)); ret (some e.term)
    ]

-- `stable_to`, from the term that `maybe_term` found.
stable_from : ℕ → ℕ → Option ℕ → Unstable → Unstable
stable_from index t none u = u
stable_from index t (some gt) u =
    if gt == t && leb u.offset index
    then record u {
      entries = drop (add64 (sub64 index u.offset) 1) u.entries;
      offset = add64 index 1;
    }
    else u

unfoldable pub stable_to : ℕ → ℕ → Unstable → Outcome Unstable
unfolding maybe_term stable_from
stable_to index t u = do gt ← maybe_term index u; ret (stable_from index t gt u)

unfoldable pub stable_snap_to : ℕ → Unstable → Unstable
stable_snap_to index u = elim u.snapshot [
  | none ↦ u
  | some s ↦ if s.metadata.index == index then record u { snapshot = none } else u
]

unfoldable pub restore : Snapshot → Unstable → Unstable
restore s u = record { snapshot = some s; entries = []; offset = add64 s.metadata.index 1 }

-- `assert(high > low)`, and the bounds, which are fatal.
unfoldable pub slice : ℕ → ℕ → Unstable → Outcome (List Entry)
slice low high u = do
  check (ltb low high)
  let upper = add64 u.offset (length u.entries)
  if ltb low u.offset || ltb upper high
      then fatal
      else ret (take (sub64 high low) (drop (sub64 low u.offset) u.entries))

unfoldable pub truncate_and_append : List Entry → Unstable → Outcome Unstable
unfolding slice
truncate_and_append [] u = ret u
truncate_and_append (e ∷ es) u =
    let after = e.index in
    if after == add64 (length u.entries) u.offset
    then ret (record u { entries = u.entries ++ e ∷ es })
    else if leb after u.offset
    then ret (record u { offset = after; entries = e ∷ es })
    else do kept ← slice u.offset after u; ret (record u { entries = kept ++ e ∷ es })
