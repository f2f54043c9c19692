-- ===== src/Wal/Saved.antt =====
-- What `WAL::save` of raft-kv/wal/wal.cpp leaves in its file and in the buffer of that file.
use mathlib.Core.List.{append_assoc, append-nil}
use raft_etcd.Common.{
  arith, ℕ, ◌+◌, ◌≡◌, refl, ap, sym, ◌∙◌, inl, inr, Bool, true, false, ◌&&◌, Bool-cases, List, [],
  ◌∷◌, ◌++◌, map, ret, length, is_empty, ltb, if◌then◌else◌,
}
use raft_etcd.Status.{ok}
use raft_etcd.Proto.{Entry, HardState, is_empty_state}
use raft_etcd.Util.{is_must_sync}
use raft_etcd.Wal.Record.{Formats, record_bytes, wal_entry_type, wal_state_type}
use raft_etcd.Wal.File.{WalFile, append, sync}
use raft_etcd.Wal.Log.{
  Wal, on_back, back, save_entry, save_entries, save_hard_state, finish_save, save,
  segment_size_bytes, cut,
}
use raft_etcd.Wal.Replay.{Item, entry_item, state_item, item_type, packed, written}
use raft_etcd.Wal.Replay.Entries.{last_enti}

-- All the bytes of the file, of its stream and of its buffer are the records of these items.
pub record Keeps (F : Formats) (f : WalFile) (items : List Item) : Type 0 where
  pub bytes : (f.content ++ f.unflushed) ++ f.data_buffer ≡ written F items

-- The items that a call of `save` writes.
abbrev pub saved_items : HardState → List Entry → List Item
saved_items hs es = map entry_item es ++ (if is_empty_state hs then [] else state_item hs ∷ [])

abbrev pub with_file : WalFile → Wal → Wal
with_file f w = record w { files = f ∷ [] }

pub written-append :
    (F : Formats) (a b : List Item) → written F (a ++ b) ≡ written F a ++ written F b
written-append F [] b = refl
written-append F (i ∷ a) b =
    ap (λ bytes. record_bytes F (item_type i) (packed F i) ++ bytes) (written-append F a b)
    ∙ sym (append_assoc (record_bytes F (item_type i) (packed F i)) (written F a) (written F b))

append-Keeps :
    (F : Formats) (f : WalFile) (items : List Item) (i : Item)
    → Keeps F f items
    → Keeps F (append F (item_type i) (packed F i) f) (items ++ i ∷ [])
unfolding append
append-Keeps F f items i h = record {
  bytes =
      sym (
        append_assoc (f.content ++ f.unflushed) f.data_buffer
          (record_bytes F (item_type i) (packed F i)))
      ∙ ap (λ bytes. bytes ++ record_bytes F (item_type i) (packed F i)) h.bytes
      ∙ ap (λ bytes. written F items ++ bytes)
          (sym (append-nil (record_bytes F (item_type i) (packed F i))))
      ∙ sym (written-append F items (i ∷ []));
}

sync-Keeps :
    (F : Formats) (f : WalFile) (items : List Item) → Keeps F f items → Keeps F (sync f) items
unfolding sync
sync-Keeps F f items h = elim (Bool-cases (is_empty f.data_buffer)) [
  | inl e ↦ rw e h
  | inr e ↦ rw e (record {
    bytes =
        append-nil (f.content ++ (f.unflushed ++ f.data_buffer))
        ∙ sym (append_assoc f.content f.unflushed f.data_buffer)
        ∙ h.bytes;
  })
]

sync-data_buffer : (f : WalFile) → (sync f).data_buffer ≡ []
unfolding sync
sync-data_buffer f = by_buffer f.data_buffer refl
  where
    by_buffer :
        (bytes : List ℕ)
        → f.data_buffer ≡ bytes
        → (if is_empty bytes then f else record f {
          unflushed = f.unflushed ++ bytes;
          position = length f.content + (length f.unflushed + length bytes);
          file_size = f.file_size + length bytes;
          data_buffer = [];
        }).data_buffer
          ≡ []
    by_buffer [] e = e
    by_buffer (b ∷ bs) e = refl

sync-content : (f : WalFile) → (sync f).content ≡ f.content
unfolding sync
sync-content f = ground arith

-- The file with the records of some entries in its buffer.
abbrev append_entries : Formats → List Entry → WalFile → WalFile
append_entries F [] f = f
append_entries F (e ∷ es) f = append_entries F es (append F wal_entry_type (F.entries.pack e) f)

save_entries_lem :
    (F : Formats) (es : List Entry) (f : WalFile) (w : Wal)
    → save_entries F es (with_file f w)
      ≡ ret (ok, record (with_file (append_entries F es f) w) { enti = last_enti w.enti es })
unfolding save_entries save_entry on_back
save_entries_lem F [] f w = refl
save_entries_lem F (e ∷ es) f w =
    save_entries_lem F es (append F wal_entry_type (F.entries.pack e) f)
      (record w { enti = e.index })

append_entries-content :
    (F : Formats) (es : List Entry) (f : WalFile) → (append_entries F es f).content ≡ f.content
unfolding append
append_entries-content F [] f = refl
append_entries-content F (e ∷ es) f =
    append_entries-content F es (append F wal_entry_type (F.entries.pack e) f)

append_entries-Keeps :
    (F : Formats) (es : List Entry) (f : WalFile) (items : List Item)
    → Keeps F f items
    → Keeps F (append_entries F es f) (items ++ map entry_item es)
append_entries-Keeps F [] f items h = record {
  bytes = h.bytes ∙ ap (λ is. written F is) (sym (append-nil items));
}
append_entries-Keeps F (e ∷ es) f items h = record {
  bytes =
      (append_entries-Keeps F es (append F wal_entry_type (F.entries.pack e) f)
        (items ++ entry_item e ∷ []) (append-Keeps F f items (entry_item e) h)).bytes
      ∙ ap (λ is. written F is) (append_assoc items (entry_item e ∷ []) (map entry_item es));
}

abbrev append_state : Formats → HardState → WalFile → WalFile
append_state F hs f = if is_empty_state hs then f else append F wal_state_type (F.states.pack hs) f

abbrev state_after : HardState → Wal → Wal
state_after hs w = if is_empty_state hs then w else record w { state = hs }

save_hard_state_lem :
    (F : Formats) (hs : HardState) (f : WalFile) (w : Wal)
    → save_hard_state F hs (with_file f w)
      ≡ ret (ok, with_file (append_state F hs f) (state_after hs w))
unfolding save_hard_state on_back
save_hard_state_lem F hs f w = elim (Bool-cases (is_empty_state hs)) [
  | inl e ↦ rw e refl
  | inr e ↦ rw e refl
]

append_state-content :
    (F : Formats) (hs : HardState) (f : WalFile) → (append_state F hs f).content ≡ f.content
unfolding append
append_state-content F hs f = ground arith

append_state-Keeps :
    (F : Formats) (hs : HardState) (f : WalFile) (items : List Item)
    → Keeps F f items
    → Keeps F
        (append_state F hs f)
        (items ++ (if is_empty_state hs then [] else state_item hs ∷ []))
append_state-Keeps F hs f items h = elim (Bool-cases (is_empty_state hs)) [
  | inl e ↦ rw e (record { bytes = h.bytes ∙ ap (λ is. written F is) (sym (append-nil items)) })
  | inr e ↦ rw e (append-Keeps F f items (state_item hs) h)
]

-- What a save leaves: one file, which keeps the items, with an empty buffer if it had to be synced.
-- Nothing more of it has been passed on for certain than before.
pub record Saved (F : Formats) (items : List Item) (must : Bool) (content : List ℕ) (w : Wal)
    : Type 0 where
  pub file : WalFile
  pub alone : w.files ≡ file ∷ []
  pub keeps : Keeps F file items
  pub handed : must ≡ true → file.data_buffer ≡ []
  pub same_content : file.content ≡ content

finish_save_lem :
    (F : Formats) (must : Bool) (f : WalFile) (items : List Item) (w : Wal)
    → Keeps F f items
    → (w' : Wal) × (finish_save must (with_file f w) ≡ ret (ok, w'))
      × Saved F items must f.content w'
unfolding finish_save back on_back cut
finish_save_lem F must f items w h = elim (Bool-cases (ltb f.file_size segment_size_bytes)) [
  | inr e ↦ (with_file (sync f) w, rw e refl, synced)
  | inl e ↦ elim (Bool-cases must) [
    | inl m ↦ (with_file (sync f) w, rw (e, m) refl, synced)
    | inr m ↦ (
      with_file f w,
      rw (e, m) refl,
      record { file = f; alone = refl; keeps = h; handed = λ t. absurd (cc); same_content = refl },
    )
  ]
]
  where
    synced : Saved F items must f.content (with_file (sync f) w)
    synced = record {
      file = sync f;
      alone = refl;
      keeps = sync-Keeps F f items h;
      handed = λ _. sync-data_buffer f;
      same_content = sync-content f;
    }

-- `save` of a hard state and entries that are not both empty, into a log of one file whose bytes,
-- in the file, in the stream of the C library and in the class's own buffer, are the records of some
-- items: it returns an ok status, and these bytes are then the records of these items, of the
-- entries in order and of the hard state if it is not empty. The class's buffer is empty if
-- `is_must_sync` holds: the bytes are then with the C library. The save flushes no stream, so it has
-- passed on nothing to the file for certain.
pub save_lem :
    (F : Formats) (hs : HardState) (es : List Entry) (f : WalFile) (items : List Item) (w : Wal)
    → Keeps F f items
    → (is_empty_state hs && is_empty es) ≡ false
    → (w' : Wal) × (save F hs es (with_file f w) ≡ ret (ok, w'))
      × Saved F (items ++ saved_items hs es) (is_must_sync hs w.state (length es)) f.content w'
unfolding save
save_lem F hs es f items w h n =
    let keeps : Keeps F (append_state F hs (append_entries F es f)) (items ++ saved_items hs es) =
      record {
        bytes =
            (append_state-Keeps F hs (append_entries F es f) (items ++ map entry_item es)
              (append_entries-Keeps F es f items h)).bytes
            ∙ ap (λ is. written F is) (append_assoc items (map entry_item es) _);
      } in
    let done =
      finish_save_lem F (is_must_sync hs w.state (length es)) _ (items ++ saved_items hs es)
        (state_after hs (record w { enti = last_enti w.enti es })) keeps in
    (
      done.0,
      rw (n, save_entries_lem F es f w)
          (rw
            (save_hard_state_lem F hs (append_entries F es f)
              (record w { enti = last_enti w.enti es }))
            done.1),
      record {
        file = done.2.file;
        alone = done.2.alone;
        keeps = done.2.keeps;
        handed = done.2.handed;
        same_content =
            done.2.same_content
            ∙ append_state-content F hs (append_entries F es f)
            ∙ append_entries-content F es f;
      },
    )
