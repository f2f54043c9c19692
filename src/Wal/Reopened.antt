-- ===== src/Wal/Reopened.antt =====
-- What the class `WAL` of raft-kv/wal/wal.cpp reads of a file that it opens after a save.
use mathlib.Core.List.{append-nil}
use raft_etcd.Common.{
  false, take-all, ltb, if◌then◌else◌, ℕ, zero, suc, ◌+◌, ◌-◌, ◌≤◌, ◌≡◌, refl, ap, ◌∙◌, inl, inr,
  true, false, Bool-cases, List, [], ◌∷◌, ◌++◌, map, some, ret, ◌>>=◌, arith, length, take,
  length-append, take-append, ==-refl,
}
use raft_etcd.Proto.{Entry, HardState, is_empty_state, empty_hard_state}
use raft_etcd.Unstable.Contiguous.{Numbered, Numbered-take}
use raft_etcd.Buffer.{resize, zeros}
use raft_etcd.Wal.Record.{WalSnapshot, Formats, max_wal_record_len}
use raft_etcd.Wal.File.{WalFile, open_file, truncate}
use raft_etcd.Wal.File
use raft_etcd.Wal.Reading.{Reading, read_file, read_files, truncated}
use raft_etcd.Wal.Torn.{take-none}
use raft_etcd.Wal.Replay.{
  Item, entry_item, state_item, snapshot_item, written, Short, replay, replay_one, continued, Ends,
  stop_at, read_records-written,
}
use raft_etcd.Wal.Replay.Entries.{last_enti, replay-entries}
use raft_etcd.Wal.Saved.{saved_items}

resize-append : (xs ys : List ℕ) → resize (length xs) (xs ++ ys) ≡ xs
unfolding resize zeros
resize-append xs ys =
    ap (λ zs. zs ++ zeros (length xs - length (xs ++ ys))) (take-append (length xs) xs ys refl)
    ∙ ap (λ n. xs ++ zeros n) no_room
    ∙ append-nil xs
  where
    no_room : length xs - length (xs ++ ys) ≡ 0
    no_room = omega (arith, length-append xs ys)

-- The file as it is left by the reader.
left_content :
    (tail : List ℕ) (whole : List ℕ) (f : WalFile)
    → f.content ≡ whole ++ tail
    → f.unflushed ≡ []
    → (truncated (stop_at (length whole) tail) f).content ≡ whole
unfolding truncate
left_content [] whole f e n = e ∙ append-nil whole
left_content (b ∷ bs) whole f e n =
    ap (λ bytes. resize (length whole) f.content ++ bytes) n
    ∙ append-nil (resize (length whole) f.content)
    ∙ ap (λ bytes. resize (length whole) bytes) e
    ∙ resize-append whole (b ∷ bs)

replay-append :
    (start : WalSnapshot) (a b : List Item) (r : Reading)
    → replay start (a ++ b) r ≡ (replay start a r >>= λ r'. replay start b r')
replay-append start [] b r = refl
replay-append start (snapshot_item snap ∷ a) b r =
    continued (replay_one start (snapshot_item snap) r) (λ r'. replay start a r')
      (λ r'. replay start b r') λ r'. replay-append start a b r'
replay-append start (entry_item e ∷ a) b r = replay-append start a b _
replay-append start (state_item hs ∷ a) b r = replay-append start a b _

-- The reader at the start, and after all that a start and one save leave.
abbrev pub nothing_read : Reading
nothing_read = record { hs = empty_hard_state; ents = []; enti = 0; matchsnap = false }

abbrev matched : Reading
matched = record nothing_read { matchsnap = true }

-- The reader after the first `m` items of a save.
abbrev pub read_of : HardState → List Entry → ℕ → Reading
read_of hs es m = record {
  hs = if ltb (length es) m then hs else empty_hard_state;
  ents = map some (take m es);
  enti = last_enti 0 (take m es);
  matchsnap = true;
}

replay-Numbered :
    (start : WalSnapshot) (es : List Entry)
    → Numbered (suc start.index) es
    → replay start (map entry_item es) matched
      ≡ ret (record matched { ents = map some es; enti = last_enti 0 es })
replay-Numbered start [] n = refl
replay-Numbered start (e ∷ es) n =
    replay-entries start e es matched (omega (arith, n.0)) (omega (arith, n.0))
      (renumbered (suc (suc start.index)) (suc e.index) (omega (arith, n.0)) n.1)
    ∙ ap
        (λ xs. ret (record matched { ents = xs ++ map some (e ∷ es); enti = last_enti e.index es }))
        (take-none (e.index - start.index - 1))
  where
    renumbered : (i j : ℕ) → i ≡ j → Numbered i es → Numbered j es
    renumbered i j q m = rw (← q) m

-- The items of a save up to one of the entries, and all of them.
saved_items-short :
    (hs : HardState) (es : List Entry) (m : ℕ)
    → m ≤ length es
    → take m (saved_items hs es) ≡ map entry_item (take m es)
saved_items-short hs es zero h = refl
saved_items-short hs [] (suc m) h = absurd (omega (arith, h))
saved_items-short hs (e ∷ es) (suc m) h =
    ap (λ is. entry_item e ∷ is) (saved_items-short hs es m (omega (arith, h)))

pub length-saved_items :
    (hs : HardState) (es : List Entry)
    → is_empty_state hs ≡ false
    → length (saved_items hs es) ≡ suc (length es)
length-saved_items hs [] h = rw h refl
length-saved_items hs (e ∷ es) h = ap suc (length-saved_items hs es h)

replay-all :
    (start : WalSnapshot) (hs : HardState) (es : List Entry)
    → is_empty_state hs ≡ false
    → Numbered (suc start.index) es
    → replay start (saved_items hs es) matched
      ≡ ret (record matched { hs = hs; ents = map some es; enti = last_enti 0 es })
replay-all start hs es h n = rw h (
    replay-append start (map entry_item es) (state_item hs ∷ []) matched
    ∙ ap (λ o. o >>= λ r'. replay start (state_item hs ∷ []) r') (replay-Numbered start es n))

pub replay-cut :
    (start : WalSnapshot) (hs : HardState) (es : List Entry) (m : ℕ)
    → is_empty_state hs ≡ false
    → Numbered (suc start.index) es
    → replay start (snapshot_item start ∷ take m (saved_items hs es)) nothing_read
      ≡ ret (read_of hs es m)
replay-cut start hs es m h n =
    rw (==-refl start.index, ==-refl start.term)
      elim (Bool-cases (ltb (length es) m)) [
        | inl t ↦
            ap (λ is. replay start is matched)
              (take-all m (saved_items hs es) (ground (arith, t, length-saved_items hs es h)))
            ∙ replay-all start hs es h n
            ∙ rw (t, take-all m es (ground (arith, t))) refl
        | inr t ↦
            ap (λ is. replay start is matched) (saved_items-short hs es m (ground (arith, t)))
            ∙ replay-Numbered start (take m es) (Numbered-take (suc start.index) m es n)
            ∙ rw t refl
      ]

zero_plus : (n : ℕ) → 0 + n ≡ n
zero_plus n = omega arith

pub read_file-written :
    (F : Formats) (start : WalSnapshot) (items : List Item) (tail : List ℕ) (told seq : ℕ)
    (r : Reading)
    → Short F items
    → Ends F tail
    → replay start items nothing_read ≡ ret r
    → r.matchsnap ≡ true
    → (f : WalFile) × (f.content ≡ written F items)
      × (read_files F start (open_file (written F items ++ tail) told seq ∷ []) nothing_read
          ≡ ret (r, f ∷ []))
unfolding read_files read_file File.read_all
read_file-written F start items tail told seq r s t e m =
    let o = open_file (written F items ++ tail) told seq in
    let f = record o {
      content = (written F items ++ tail) ++ [];
      position = length ((written F items ++ tail) ++ []);
    } in
    (
      truncated (stop_at (length (written F items)) tail) f,
      left_content tail (written F items) f (append-nil (written F items ++ tail)) refl,
      rw
          (
            read_records-written F start (length (written F items ++ tail)) 0 items tail
                nothing_read s t (omega arith),
            e,
            m,
          )
          (rw (zero_plus (length (written F items))) refl),
    )

pub Short-saved :
    (F : Formats) (hs : HardState) (es : List Entry)
    → Short F (map entry_item es)
    → length (F.states.pack hs) ≤ max_wal_record_len
    → Short F (saved_items hs es)
Short-saved F hs [] s h = elim (Bool-cases (is_empty_state hs)) [
  | inl e ↦ rw e tt
  | inr e ↦ rw e (h, tt)
]
Short-saved F hs (e ∷ es) s h = (s.0, Short-saved F hs es s.1 h)
