-- ===== src/Wal/Recovery.antt =====
-- A save, a crash while more is written, and the start after it: `save` and `read_all` of
-- raft-kv/wal/wal.cpp.
use mathlib.Core.List.{append_assoc, append-nil}
use raft_etcd.Common.{
  false, drop, drop-append, ltb, if◌then◌else◌, ℕ, suc, ◌≤◌, ◌<◌, ◌≡◌, refl, ap, sym, ◌∙◌, true,
  false, List, [], ◌∷◌, ◌++◌, map, some, ret, arith, length, length-take, take, length-append,
}
use raft_etcd.Status.{ok}
use raft_etcd.Proto.{Entry, HardState, is_empty_state, empty_hard_state}
use raft_etcd.Util.{is_must_sync}
use raft_etcd.Unstable.Contiguous.{Numbered}
use raft_etcd.Wal.Record.{WalSnapshot, Formats, max_wal_record_len}
use raft_etcd.Wal.File.{WalFile, open_file}
use raft_etcd.Wal.Log.{Wal, save, opened, read_all}
use raft_etcd.Wal.Torn.{take-front, written-Cut, Short-take}
use raft_etcd.Wal.Replay.{Item, entry_item, snapshot_item, written, Short, Ends}
use raft_etcd.Wal.Replay.Entries.{last_enti}
use raft_etcd.Wal.Saved.{Keeps, saved_items, with_file, save_lem, written-append}
use raft_etcd.Wal.Reopened.{read_of, length-saved_items, replay-cut, read_file-written, Short-saved}

-- A file that was just opened, with the record of the snapshot that the log starts from.
pub record Fresh (F : Formats) (start : WalSnapshot) (f : WalFile) : Type 0 where
  pub content : f.content ≡ written F (snapshot_item start ∷ [])
  pub unflushed : f.unflushed ≡ []
  pub data_buffer : f.data_buffer ≡ []

Fresh-Keeps :
    (F : Formats) (start : WalSnapshot) (f : WalFile)
    → Fresh F start f
    → Keeps F f (snapshot_item start ∷ [])
Fresh-Keeps F start f h = record {
  bytes =
      rw (h.unflushed, h.data_buffer)
        (append-nil (f.content ++ []) ∙ append-nil f.content ∙ h.content);
}

-- What a save writes to such a file waits in the stream and in the buffer of the class.
waiting :
    (F : Formats) (start : WalSnapshot) (items : List Item) (g : WalFile)
    → g.content ≡ written F (snapshot_item start ∷ [])
    → Keeps F g (snapshot_item start ∷ items)
    → g.unflushed ++ g.data_buffer ≡ written F items
waiting F start items g c h =
    sym (drop-append (length g.content) g.content (g.unflushed ++ g.data_buffer) refl)
    ∙ ap (λ bytes. drop (length g.content) bytes)
        (sym (append_assoc g.content g.unflushed g.data_buffer)
          ∙ h.bytes
          ∙ written-append F (snapshot_item start ∷ []) items
          ∙ ap (λ bytes. bytes ++ written F items) (sym c))
    ∙ drop-append (length g.content) g.content (written F items) refl

-- A log of one file that was just opened, with the snapshot record that it starts from, saves
-- entries numbered from the one after the snapshot and a hard state that is not empty, all of which
-- fit in records: the save returns an ok status. Let the program then end when the C library has
-- passed on, of what waits in its stream, any beginning of `k` bytes. When the file is opened and
-- read, `read_all` returns some first `m` of the entries, all in order, and the hard state only with
-- all of the entries; the records of just these are left in the file, and what is cut off does not
-- start with a whole record (`Ends`). If the save was one that must be synced, and all that waited
-- was passed on, nothing is lost.
pub save-read_all :
    (F : Formats) (start : WalSnapshot) (hs : HardState) (es : List Entry) (f : WalFile) (w : Wal)
    (k told seq : ℕ)
    → Fresh F start f
    → is_empty_state hs ≡ false
    → Numbered (suc start.index) es
    → Short F (snapshot_item start ∷ map entry_item es)
    → length (F.states.pack hs) ≤ max_wal_record_len
    → (w' : Wal) × (g : WalFile) × (save F hs es (with_file f w) ≡ ret (ok, w'))
      × (w'.files ≡ g ∷ [])
      × (m : ℕ) × (u : Wal) × (h : WalFile) × (read_all F
            (opened start (open_file (g.content ++ take k g.unflushed) told seq ∷ []))
          ≡ ret (ok, (if ltb (length es) m then hs else empty_hard_state), map some (take m es), u))
      × (u.files ≡ h ∷ [])
      × (h.content ≡ written F (snapshot_item start ∷ take m (saved_items hs es)))
      × (tail : List ℕ) × (g.content ++ take k g.unflushed ≡ h.content ++ tail)
      × Ends F tail
      × (is_must_sync hs w.state (length es) ≡ true → length g.unflushed ≤ k → length es < m)
unfolding read_all opened
save-read_all F start hs es f w k told seq fresh full numbered short small =
    let saved =
      save_lem F hs es f (snapshot_item start ∷ []) w (Fresh-Keeps F start f fresh)
        (rw full refl) in
    let g = saved.2.file in
    let at_start : g.content ≡ written F (snapshot_item start ∷ []) =
      saved.2.same_content ∙ fresh.content in
    let wait = waiting F start (saved_items hs es) g at_start saved.2.keeps in
    let cut =
      written-Cut F (saved_items hs es) (length (take k g.unflushed))
        (Short-saved F hs es short.1 small) in
    let crashed : g.content ++ take k g.unflushed
        ≡ written F (snapshot_item start ∷ take cut.whole (saved_items hs es)) ++ cut.torn_end =
      ap (λ bytes. g.content ++ bytes)
        (take-front k g.unflushed g.data_buffer
          ∙ ap (λ bytes. take (length (take k g.unflushed)) bytes) wait
          ∙ cut.parts)
      ∙ ap (λ bytes. bytes ++ (written F (take cut.whole (saved_items hs es)) ++ cut.torn_end))
          at_start
      ∙ sym (
          append_assoc (written F (snapshot_item start ∷ []))
            (written F (take cut.whole (saved_items hs es))) cut.torn_end)
      ∙ ap (λ bytes. bytes ++ cut.torn_end)
          (sym
            (written-append F (snapshot_item start ∷ []) (take cut.whole (saved_items hs es)))) in
    let read =
      read_file-written F start (snapshot_item start ∷ take cut.whole (saved_items hs es))
        cut.torn_end told seq (read_of hs es cut.whole)
        (short.0, Short-take F cut.whole (saved_items hs es) (Short-saved F hs es short.1 small))
        cut.ends (replay-cut start hs es cut.whole full numbered) refl in
    (
      saved.0,
      g,
      saved.1,
      saved.2.alone,
      cut.whole,
      record (opened start (read.0 ∷ [])) { enti = last_enti 0 (take cut.whole es) },
      read.0,
      rw crashed (rw read.2 refl),
      refl,
      read.1,
      cut.torn_end,
      crashed ∙ ap (λ bytes. bytes ++ cut.torn_end) (sym read.1),
      cut.ends,
      λ must all. omega (
        arith,
        length-saved_items hs es full,
        cut.all (
            omega (
              arith,
              all,
              ap length wait,
              ap length (saved.2.handed must),
              length-append g.unflushed g.data_buffer,
              length-take k g.unflushed,
            )),
      ),
    )
