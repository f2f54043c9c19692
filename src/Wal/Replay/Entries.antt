-- ===== src/Wal/Replay/Entries.antt =====
-- The entries that `WAL::read_all` of raft-kv/wal/wal.cpp collects of the records of entries.
use mathlib.Core.List.{append_assoc}
use raft_etcd.Common.{
  ℕ, zero, suc, ◌+◌, ◌-◌, ◌≤◌, ◌<◌, ◌≡◌, refl, ap, ◌∙◌, inl, inr, Bool-cases, List, [], ◌∷◌, ◌++◌,
  map, Option, some, ret, arith, length, take, length-append, length-take, take-all, ltb,
}
use raft_etcd.Proto.{Entry}
use raft_etcd.Unstable.Contiguous.{Numbered}
use raft_etcd.Wal.Record.{WalSnapshot}
use raft_etcd.Wal.Reading.{Reading, resize_ents, take_entry}
use raft_etcd.Wal.Replay.{entry_item, replay}

resize_ents-take : (n : ℕ) (xs : List (Option Entry)) → n ≤ length xs → resize_ents n xs ≡ take n xs
unfolding resize_ents
resize_ents-take zero xs h = refl
resize_ents-take (suc n) [] h = absurd (omega (arith, h))
resize_ents-take (suc n) (x ∷ xs) h = ap (λ ys. x ∷ ys) (resize_ents-take n xs (omega (arith, h)))

-- `enti_` after some entries.
abbrev pub last_enti : ℕ → List Entry → ℕ
last_enti i [] = i
last_enti i (e ∷ es) = last_enti e.index es

-- The reader after entries that replace those from a place on.
abbrev pub with_entries : ℕ → List Entry → Reading → Reading
with_entries n es r = record r { ents = take n r.ents ++ map some es; enti = last_enti r.enti es }

take_entry_lem :
    (start : WalSnapshot) (e : Entry) (r : Reading)
    → start.index < e.index
    → e.index ≤ start.index + 1 + length r.ents
    → take_entry start e r ≡ with_entries (e.index - start.index - 1) (e ∷ []) r
take_entry_lem start e r h k = elim (Bool-cases (ltb start.index e.index)) [
  | inl a ↦ rw a (rw (resize_ents-take (e.index - start.index - 1) r.ents (omega arith)) refl)
  | inr a ↦ absurd (ground arith)
]

-- If the index of the first of some entries is above the one of the snapshot that the log starts
-- from, and at most one past the entries that were collected so far, and each of the others has the
-- index after the one before, then reading them keeps what was collected below the first index, and
-- they replace the rest.
pub replay-entries :
    (start : WalSnapshot) (e : Entry) (es : List Entry) (r : Reading)
    → start.index < e.index
    → e.index ≤ start.index + 1 + length r.ents
    → Numbered (suc e.index) es
    → replay start (map entry_item (e ∷ es)) r
      ≡ ret (with_entries (e.index - start.index - 1) (e ∷ es) r)
replay-entries start e [] r h k n = ap ret (take_entry_lem start e r h k)
replay-entries start e (e' ∷ es) r h k n =
    ap (λ r'. replay start (map entry_item (e' ∷ es)) r') (take_entry_lem start e r h k)
    ∙ replay-entries start e' es one (omega (arith, n.0)) (omega (arith, n.0, size)) following
    ∙ ap (λ xs. ret (record r { ents = xs; enti = last_enti e'.index es }))
        (ap (λ xs. xs ++ map some (e' ∷ es)) (take-all _ one.ents (omega (arith, n.0, size)))
          ∙ append_assoc (take (e.index - start.index - 1) r.ents) (some e ∷ []) _)
  where
    one : Reading
    one = with_entries (e.index - start.index - 1) (e ∷ []) r

    size : length one.ents ≡ e.index - start.index
    size = omega (
      arith,
      h,
      k,
      length-append (take (e.index - start.index - 1) r.ents) (some e ∷ []),
      length-take (e.index - start.index - 1) r.ents,
    )

    following : Numbered (suc e'.index) es
    following = renumbered (suc (suc e.index)) (suc e'.index) (omega (arith, n.0)) n.1
      where
        renumbered : (i j : ℕ) → i ≡ j → Numbered i es → Numbered j es
        renumbered i j q m = rw (← q) m
