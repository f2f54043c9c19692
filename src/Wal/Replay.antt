-- ===== src/Wal/Replay.antt =====
-- What `WAL::read_all` of raft-kv/wal/wal.cpp reads of a file that the class wrote.
pub mod Entries
use mathlib.Core.List.{append_assoc}
use raft_etcd.Common.{
  ℕ, zero, suc, ◌+◌, ◌-◌, ◌≤◌, ◌<◌, ◌≡◌, refl, ap, sym, ◌∙◌, ◌⊎◌, inl, inr, Bool, true, false, List,
  [], ◌∷◌, ◌++◌, Option, none, some, Outcome, ret, fatal, ◌>>=◌, arith, length, take, length-append,
  length-take, ltb, ◌==◌, if◌then◌else◌, or_fatal,
}
use raft_etcd.Codec.{Codec}
use raft_etcd.Proto.{Entry, HardState}
use raft_etcd.Wal.Record.{
  WalSnapshot, Formats, max_wal_record_len, record_bytes, wal_entry_type, wal_state_type,
  wal_snapshot_type,
}
use raft_etcd.Wal.Reading.{
  Next, torn, invalid, found, next_record, Reading, handle_record, mark_snapshot, read_records,
  take_entry, take_snapshot, one_round,
}
use raft_etcd.Wal.Frames.{next_record-record_bytes, length-record_bytes, next_record_cut}

-- What the log is asked to keep.
pub data Item : Type 0 where
  entry_item : Entry → Item
  state_item : HardState → Item
  snapshot_item : WalSnapshot → Item

abbrev pub item_type : Item → ℕ
item_type (entry_item e) = wal_entry_type
item_type (state_item hs) = wal_state_type
item_type (snapshot_item snap) = wal_snapshot_type

abbrev pub packed : Formats → Item → List ℕ
packed F (entry_item e) = F.entries.pack e
packed F (state_item hs) = F.states.pack hs
packed F (snapshot_item snap) = F.snapshots.pack snap

abbrev pub written : Formats → List Item → List ℕ
written F [] = []
written F (i ∷ is) = record_bytes F (item_type i) (packed F i) ++ written F is

-- The encodings fit in a record.
abbrev pub Short : Formats → List Item → Type 0
Short F [] = Unit
Short F (i ∷ is) = (length (packed F i) ≤ max_wal_record_len) × Short F is

-- What an item does to the reader.
abbrev pub replay_one : WalSnapshot → Item → Reading → Outcome Reading
replay_one start (entry_item e) r = ret (take_entry start e r)
replay_one start (state_item hs) r = ret (record r { hs = hs })
replay_one start (snapshot_item snap) r =
    take_snapshot start snap r >>= λ r'. ret (record r' { matchsnap = true })

abbrev pub replay : WalSnapshot → List Item → Reading → Outcome Reading
replay start [] r = ret r
replay start (i ∷ is) r = replay_one start i r >>= λ r'. replay start is r'

handle_item :
    (F : Formats) (start : WalSnapshot) (i : Item) (r : Reading)
    → (handle_record F start (item_type i) (packed F i) r >>= λ r'.
        ret (mark_snapshot (item_type i) r'))
      ≡ replay_one start i r
unfolding handle_record
handle_item F start (entry_item e) r = rw (F.entries.unpack-pack e) refl
handle_item F start (state_item hs) r = rw (F.states.unpack-pack hs) refl
handle_item F start (snapshot_item snap) r = rw (F.snapshots.unpack-pack snap) refl

pub item_type_pos : (i : Item) → 0 < item_type i
item_type_pos (entry_item e) = omega arith
item_type_pos (state_item hs) = omega arith
item_type_pos (snapshot_item snap) = omega arith

read_step :
    (F : Formats) (start : WalSnapshot) (fuel offset : ℕ) (bytes : List ℕ) (r : Reading) (type : ℕ)
    (inner rest : List ℕ)
    → 0 < length bytes
    → next_record F bytes ≡ found type inner rest
    → read_records F start (suc fuel) offset bytes r ≡ (
        handle_record F start type inner r >>= λ r'.
        read_records F start fuel (offset + 8 + length inner) rest (mark_snapshot type r'))
unfolding read_records
read_step F start fuel offset [] r type inner rest h e = absurd (omega (arith, h))
read_step F start fuel offset (b ∷ bs) r type inner rest h e =
    ap (one_round F start offset r (λ o rest' r'. read_records F start fuel o rest' r')) e

>>=-assoc {ℓ κ ι} :
    {A : Type ℓ} {B : Type κ} {C : Type ι} (m : Outcome A) (f : A → B) (g : B → Outcome C)
    → (m >>= λ a. g (f a)) ≡ ((m >>= λ a. ret (f a)) >>= g)
>>=-assoc (ret a) f g = refl
>>=-assoc fatal f g = refl

-- A whole item is read, then what follows it.
read_item :
    (F : Formats) (start : WalSnapshot) (fuel offset : ℕ) (i : Item) (rest : List ℕ) (r : Reading)
    → length (packed F i) ≤ max_wal_record_len
    → read_records F start (suc fuel) offset (record_bytes F (item_type i) (packed F i) ++ rest) r
      ≡ (replay_one start i r >>= λ r'.
          read_records F start fuel (offset + 8 + length (packed F i)) rest r')
read_item F start fuel offset i rest r h =
    read_step F start fuel offset (record_bytes F (item_type i) (packed F i) ++ rest) r
      (item_type i) (packed F i) rest
      (omega (
        arith,
        length-append (record_bytes F (item_type i) (packed F i)) rest,
        length-record_bytes F (item_type i) (packed F i),
      ))
      (next_record-record_bytes F (item_type i) (packed F i) rest (item_type_pos i) h)
    ∙ >>=-assoc (handle_record F start (item_type i) (packed F i) r) (mark_snapshot (item_type i))
        (read_records F start fuel (offset + 8 + length (packed F i)) rest)
    ∙ ap (λ m. m >>= read_records F start fuel (offset + 8 + length (packed F i)) rest)
        (handle_item F start i r)

-- The bytes at the end of which nothing can be read: none, or a record that is cut off.
pub data Ends (F : Formats) : List ℕ → Type 0 where
  none_left : Ends F []
  cut_off : (b : ℕ) (bs : List ℕ) → next_record F (b ∷ bs) ≡ torn → Ends F (b ∷ bs)

abbrev pub stop_at : ℕ → List ℕ → Option ℕ
stop_at offset [] = none
stop_at offset (b ∷ bs) = some offset

read_end :
    (F : Formats) (start : WalSnapshot) (fuel offset : ℕ) (tail : List ℕ) (r : Reading)
    → Ends F tail
    → length tail ≤ fuel
    → read_records F start fuel offset tail r ≡ ret (r, stop_at offset tail)
unfolding read_records
read_end F start fuel offset [] r none_left h = refl
read_end F start zero offset (b ∷ bs) r (cut_off _ _ e) h = absurd (omega (arith, h))
read_end F start (suc fuel) offset (b ∷ bs) r (cut_off _ _ e) h =
    ap (one_round F start offset r (λ o rest r'. read_records F start fuel o rest r')) e

pub continued {ℓ κ ι} :
    {A : Type ℓ} {B : Type κ} {C : Type ι} (m : Outcome A) (g : A → Outcome B) (k : B → Outcome C)
    {f : A → Outcome C}
    → ((a : A) → f a ≡ (g a >>= k))
    → (m >>= f) ≡ ((m >>= g) >>= k)
continued (ret a) g k h = h a
continued fatal g k h = refl

-- Let the encodings of some items be of at most 2 ^ 24 - 1 bytes, and let nothing follow their
-- records, or bytes that do not start with a whole and sound record (`Ends`). With as much fuel as
-- there are bytes, or more, `read_records` reads the items in order, as `replay` takes them, and
-- fails where `replay` does. Where it returns, it names the offset after the items as the one to
-- truncate at if bytes follow, and none if nothing does.
pub read_records-written :
    (F : Formats) (start : WalSnapshot) (fuel offset : ℕ) (items : List Item) (tail : List ℕ)
    (r : Reading)
    → Short F items
    → Ends F tail
    → length (written F items ++ tail) ≤ fuel
    → read_records F start fuel offset (written F items ++ tail) r
      ≡ (replay start items r >>= λ r'. ret (r', stop_at (offset + length (written F items)) tail))
read_records-written F start fuel offset [] tail r s e h =
    read_end F start fuel offset tail r e h ∙ ap (λ o. ret (r, stop_at o tail)) (omega arith)
read_records-written F start zero offset (i ∷ is) tail r s e h = absurd (
    omega (
      arith,
      h,
      length-append (record_bytes F (item_type i) (packed F i) ++ written F is) tail,
      length-append (record_bytes F (item_type i) (packed F i)) (written F is),
      length-record_bytes F (item_type i) (packed F i),
    ))
read_records-written F start (suc fuel) offset (i ∷ is) tail r s e h =
    ap (λ bytes. read_records F start (suc fuel) offset bytes r)
      (append_assoc _ (written F is) tail)
    ∙ read_item F start fuel offset i (written F is ++ tail) r s.0
    ∙ continued (replay_one start i r) (λ r'. replay start is r')
        (λ r'. ret (r', stop_at (offset + length (written F (i ∷ is))) tail))
        λ r'.
          read_records-written F start fuel (offset + 8 + length (packed F i)) is tail r' s.1 e (
            omega (
              arith,
              h,
              sizes,
              length-append (written F (i ∷ is)) tail,
              length-append (written F is) tail,
            ))
          ∙ ap (λ o. replay start is r' >>= λ r''. ret (r'', stop_at o tail)) (omega (arith, sizes))
  where
    sizes : length (written F (i ∷ is)) ≡ 8 + length (packed F i) + length (written F is)
    sizes = omega (
      arith,
      length-append (record_bytes F (item_type i) (packed F i)) (written F is),
      length-record_bytes F (item_type i) (packed F i),
    )
