-- ===== src/Wal/Fuel.antt =====
-- The loop of `WAL::read_all` of raft-kv/wal/wal.cpp ends: each round takes a header.
use raft_etcd.Common.{
  none, some, ℕ, zero, suc, ◌+◌, ◌≤◌, ◌≡◌, refl, inl, inr, not, ◌&&◌, List, [], ◌∷◌, Option,
  Outcome, ret, fatal, ◌>>=◌, arith, length, take, length-drop, ltb, ◌==◌, Bool-cases, of_bytes,
}
use raft_etcd.Wal.Record.{WalSnapshot, WalRecord, Formats, wal_record_len, wal_invalid_type}
use raft_etcd.Wal.Reading.{
  Next, torn, invalid, found, checked, next_record, Reading, handle_record, mark_snapshot,
  read_records, one_round,
}

-- What is found leaves at most the bytes after the header.
abbrev Within : ℕ → Next → Type 0
Within n torn = Unit
Within n invalid = Unit
Within n (found type bytes rest) = length rest ≤ n

checked-Within :
    (F : Formats) (r : WalRecord) (left : List ℕ) → Within (length left) (checked F r left)
unfolding checked
checked-Within F r left = elim (Bool-cases (r.type == wal_invalid_type)) [
  | inl a ↦ rw a tt
  | inr a ↦ elim (Bool-cases (ltb (length left) (wal_record_len r))) [
    | inl b ↦ rw (a, b) tt
    | inr b ↦
        elim (Bool-cases
          (not (r.crc == 0) && not (F.checksum (take (wal_record_len r) left) == r.crc))) [
            | inl c ↦ rw (a, b, c) tt
            | inr c ↦ rw (a, b, c) (omega (arith, length-drop (wal_record_len r) left))
          ]
  ]
]

next_record-Within :
    (F : Formats) (b : ℕ) (bs : List ℕ) → Within (length bs) (next_record F (b ∷ bs))
unfolding next_record
next_record-Within F t (l0 ∷ l1 ∷ l2 ∷ c0 ∷ c1 ∷ c2 ∷ c3 ∷ left) =
    weaken (length left) _ (checked F r left) (omega arith) (checked-Within F r left)
  where
    r : WalRecord
    r = record { type = t; len0 = l0; len1 = l1; len2 = l2; crc = of_bytes c0 c1 c2 c3 }

    weaken : (m n : ℕ) (x : Next) → m ≤ n → Within m x → Within n x
    weaken m n torn le h = tt
    weaken m n invalid le h = tt
    weaken m n (found type bytes rest) le h = omega (arith, h)
next_record-Within F t [] = tt
next_record-Within F t (_ ∷ []) = tt
next_record-Within F t (_ ∷ _ ∷ []) = tt
next_record-Within F t (_ ∷ _ ∷ _ ∷ []) = tt
next_record-Within F t (_ ∷ _ ∷ _ ∷ _ ∷ []) = tt
next_record-Within F t (_ ∷ _ ∷ _ ∷ _ ∷ _ ∷ []) = tt
next_record-Within F t (_ ∷ _ ∷ _ ∷ _ ∷ _ ∷ _ ∷ []) = tt

-- The loop without fuel: its runs from an offset, the bytes that are left and what is read so far,
-- to its result. A run is a finite sequence of rounds.
pub data Rounds (F : Formats) (start : WalSnapshot)
    : ℕ → List ℕ → Reading → Outcome (Reading × Option ℕ) → Type 0 where
  at_end : (offset : ℕ) (r : Reading) → Rounds F start offset [] r (ret (r, none))
  at_torn :
      (offset b : ℕ) (bs : List ℕ) (r : Reading)
      → next_record F (b ∷ bs) ≡ torn
      → Rounds F start offset (b ∷ bs) r (ret (r, some offset))
  at_invalid :
      (offset b : ℕ) (bs : List ℕ) (r : Reading)
      → next_record F (b ∷ bs) ≡ invalid
      → Rounds F start offset (b ∷ bs) r (ret (r, none))
  fails :
      (offset b : ℕ) (bs : List ℕ) (r : Reading) (type : ℕ) (bytes rest : List ℕ)
      → next_record F (b ∷ bs) ≡ found type bytes rest
      → handle_record F start type bytes r ≡ fatal
      → Rounds F start offset (b ∷ bs) r fatal
  goes_on :
      (offset b : ℕ) (bs : List ℕ) (r : Reading) (type : ℕ) (bytes rest : List ℕ) (r' : Reading)
      (o : Outcome (Reading × Option ℕ))
      → next_record F (b ∷ bs) ≡ found type bytes rest
      → handle_record F start type bytes r ≡ ret r'
      → Rounds F start (offset + 8 + length bytes) rest (mark_snapshot type r') o
      → Rounds F start offset (b ∷ bs) r o

abbrev Reader : Type 0
Reader = ℕ → List ℕ → Reading → Outcome (Reading × Option ℕ)

-- One round, where the rest of the loop has its runs.
one_round-Rounds :
    (F : Formats) (start : WalSnapshot) (offset b : ℕ) (bs : List ℕ) (r : Reading) (more : Reader)
    (n : Next)
    → next_record F (b ∷ bs) ≡ n
    → Within (length bs) n
    → ((o : ℕ) (rest : List ℕ) (r' : Reading)
        → length rest ≤ length bs
        → Rounds F start o rest r' (more o rest r'))
    → Rounds F start offset (b ∷ bs) r (one_round F start offset r more n)
one_round-Rounds F start offset b bs r more torn e w h = at_torn offset b bs r e
one_round-Rounds F start offset b bs r more invalid e w h = at_invalid offset b bs r e
one_round-Rounds F start offset b bs r more (found type bytes rest) e w h =
    handled (handle_record F start type bytes r) refl
  where
    handled :
        (m : Outcome Reading)
        → handle_record F start type bytes r ≡ m
        → Rounds F start offset
            (b ∷ bs)
            r
            (m >>= λ r'. more (offset + 8 + length bytes) rest (mark_snapshot type r'))
    handled fatal q = fails offset b bs r type bytes rest e q
    handled (ret r') q =
        goes_on offset b bs r type bytes rest r'
          (more (offset + 8 + length bytes) rest (mark_snapshot type r')) e q
          (h (offset + 8 + length bytes) rest (mark_snapshot type r') w)

-- With as much fuel as there are bytes, or more, what `read_records` returns is the result of a run
-- of the loop without fuel (`Rounds`): from any bytes the loop ends after finitely many rounds, each
-- on the bytes after the record of the one before, and the fuel does not run out.
pub read_records-Rounds :
    (F : Formats) (start : WalSnapshot) (fuel offset : ℕ) (bytes : List ℕ) (r : Reading)
    → length bytes ≤ fuel
    → Rounds F start offset bytes r (read_records F start fuel offset bytes r)
unfolding read_records
read_records-Rounds F start fuel offset [] r h = at_end offset r
read_records-Rounds F start zero offset (b ∷ bs) r h = absurd (omega (arith, h))
read_records-Rounds F start (suc fuel) offset (b ∷ bs) r h =
    one_round-Rounds F start offset b bs r _ (next_record F (b ∷ bs)) refl
      (next_record-Within F b bs)
      λ o rest r' l. read_records-Rounds F start fuel o rest r' (omega (arith, h, l))
