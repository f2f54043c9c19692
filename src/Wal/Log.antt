-- ===== src/Wal/Log.antt =====
-- The class `WAL` of raft-kv/wal/wal.cpp: what it appends, and how it reads its files.
use raft_etcd.Common.{
  ℕ, ◌*◌, Bool, true, false, ◌&&◌, List, [], ◌∷◌, Option, Outcome, ret, fatal, ◌>>=◌, length,
  is_empty, ltb, if◌then◌else◌,
}
use raft_etcd.Status.{Status, ok, is_ok}
use raft_etcd.Proto.{Entry, HardState, is_empty_state, empty_hard_state}
use raft_etcd.Util.{is_must_sync}
use raft_etcd.Wal.Record.{WalSnapshot, Formats, wal_entry_type, wal_state_type, wal_snapshot_type}
use raft_etcd.Wal.File.{WalFile, open_file, append, sync, close}
use raft_etcd.Wal.Reading.{read_files}

abbrev pub segment_size_bytes : ℕ
segment_size_bytes = 64 * 1_000 * 1_000

-- The members but the directory.
pub record Wal : Type 0 where
  pub state : HardState
  pub start : WalSnapshot
  pub enti : ℕ
  pub files : List WalFile

-- `files_.back()->m(...)`: the last file is changed, and an empty vector has none.
unfoldable pub on_back : (WalFile → WalFile) → List WalFile → Outcome (List WalFile)
on_back m [] = fatal
on_back m (f ∷ []) = ret (m f ∷ [])
on_back m (f ∷ g ∷ fs) = on_back m (g ∷ fs) >>= λ fs'. ret (f ∷ fs')

unfoldable pub back : List WalFile → Outcome WalFile
back [] = fatal
back (f ∷ []) = ret f
back (f ∷ g ∷ fs) = back (g ∷ fs)

abbrev on_last : (WalFile → WalFile) → Wal → Outcome Wal
on_last m w = on_back m w.files >>= λ fs. ret (record w { files = fs })

-- `create`: the one record of the first file, wal_name(0, 0). The file is new.
unfoldable pub create : Formats → ℕ → WalFile
unfolding append sync close
create F told = close (
    sync (
      append F wal_snapshot_type (F.snapshots.pack (record { index = 0; term = 0 }))
        (open_file [] told 0)))

-- `open` once it has its files.
unfoldable pub opened : WalSnapshot → List WalFile → Wal
opened snap fs = record { state = empty_hard_state; start = snap; enti = 0; files = fs }

unfoldable pub save_entry : Formats → Entry → Wal → Outcome (Status × Wal)
unfolding on_back append
save_entry F e w = on_last (append F wal_entry_type (F.entries.pack e)) w >>= λ w'.
    ret (ok, record w' { enti = e.index })

unfoldable pub save_hard_state : Formats → HardState → Wal → Outcome (Status × Wal)
unfolding on_back append
save_hard_state F hs w =
    if is_empty_state hs
    then ret (ok, w)
    else on_last (append F wal_state_type (F.states.pack hs)) (record w { state = hs }) >>= λ w'.
        ret (ok, w')

unfoldable pub save_snapshot : Formats → WalSnapshot → Wal → Outcome (Status × Wal)
unfolding on_back append sync
save_snapshot F snap w = on_last (append F wal_snapshot_type (F.snapshots.pack snap)) w >>= λ w'.
    on_last sync (if ltb w'.enti snap.index then record w' { enti = snap.index } else w') >>= λ w''.
    ret (ok, w'')

unfoldable pub cut : Wal → Outcome (Status × Wal)
unfolding on_back sync
cut w = on_last sync w >>= λ w'. ret (ok, w')

-- The loop of `save` over the entries.
unfoldable pub save_entries : Formats → List Entry → Wal → Outcome (Status × Wal)
unfolding save_entry
save_entries F [] w = ret (ok, w)
save_entries F (e ∷ es) w = save_entry F e w >>= λ (s, w'). elim (is_ok s) [
  | true ↦ save_entries F es w'
  | false ↦ ret (s, w')
]

-- The end of `save`: a file that has room is synced if it must be, one that has none is cut.
unfoldable pub finish_save : Bool → Wal → Outcome (Status × Wal)
unfolding back on_back sync cut
finish_save must_sync w = back w.files >>= λ f.
    if ltb f.file_size segment_size_bytes
    then if must_sync then on_last sync w >>= (λ w'. ret (ok, w')) else ret (ok, w)
    else cut w

unfoldable pub save : Formats → HardState → List Entry → Wal → Outcome (Status × Wal)
unfolding save_entries save_hard_state finish_save is_must_sync
save F hs es w =
    if is_empty_state hs && is_empty es
    then ret (ok, w)
    else save_entries F es w >>= λ (s, w'). elim (is_ok s) [
      | false ↦ ret (s, w')
      | true ↦ save_hard_state F hs w' >>= λ (s', w''). elim (is_ok s') [
        | false ↦ ret (s', w'')
        | true ↦ finish_save (is_must_sync hs w.state (length es)) w''
      ]
    ]

-- `read_all`: the hard state and the entries, where the caller's are empty, and the log after it.
unfoldable pub read_all : Formats → Wal → Outcome (Status × HardState × List (Option Entry) × Wal)
unfolding read_files
read_all F w =
    read_files F w.start w.files
      (record { hs = empty_hard_state; ents = []; enti = w.enti; matchsnap = false })
    >>= λ (r, fs). ret (ok, r.hs, r.ents, record w { enti = r.enti; files = fs })
