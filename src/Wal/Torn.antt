-- ===== src/Wal/Torn.antt =====
-- Any beginning of the bytes that the class `WAL` of raft-kv/wal/wal.cpp wrote: whole records, and
-- one that is cut off.
use mathlib.Core.List.{append_assoc}
use raft_etcd.Common.{
  ℕ, zero, suc, ◌+◌, ◌-◌, ◌≤◌, ◌<◌, ◌≡◌, refl, ap, sym, ◌∙◌, inl, inr, Bool-cases, List, [], ◌∷◌,
  ◌++◌, arith, length, take, length-append, ltb,
}
use raft_etcd.Wal.Record.{Formats, record_bytes, max_wal_record_len}
use raft_etcd.Wal.Reading.{next_record, torn}
use raft_etcd.Wal.Frames.{next_record_cut, length-record_bytes}
use raft_etcd.Wal.Replay.{
  Item, item_type, item_type_pos, packed, written, Short, Ends, none_left, cut_off,
}

-- A record that is cut off at any byte is such an end.
pub cut-Ends :
    (F : Formats) (k : ℕ) (i : Item)
    → length (packed F i) ≤ max_wal_record_len
    → k < 8 + length (packed F i)
    → Ends F (take k (record_bytes F (item_type i) (packed F i)))
cut-Ends F k i h l =
    of_torn (take k (record_bytes F (item_type i) (packed F i)))
      (next_record_cut F k (item_type i) (packed F i) (item_type_pos i) h l)
  where
    of_torn : (bytes : List ℕ) → next_record F bytes ≡ torn → Ends F bytes
    of_torn [] e = none_left
    of_torn (b ∷ bs) e = cut_off b bs e

pub take-none {ℓ} : {A : Type ℓ} (k : ℕ) → take {A = A} k [] ≡ []
take-none zero = refl
take-none (suc k) = refl

module _ {ℓ} {A : Type ℓ} where
  pub take-front : (k : ℕ) (xs ys : List A) → take k xs ≡ take (length (take k xs)) (xs ++ ys)
  take-front zero xs ys = refl
  take-front (suc k) [] ys = refl
  take-front (suc k) (x ∷ xs) ys = ap (λ zs. x ∷ zs) (take-front k xs ys)

  take-inside : (k : ℕ) (xs ys : List A) → k ≤ length xs → take k (xs ++ ys) ≡ take k xs
  take-inside zero xs ys h = refl
  take-inside (suc k) [] ys h = absurd (omega (arith, h))
  take-inside (suc k) (x ∷ xs) ys h = ap (λ zs. x ∷ zs) (take-inside k xs ys (omega (arith, h)))

  take-past :
      (k : ℕ) (xs ys : List A) → length xs ≤ k → take k (xs ++ ys) ≡ xs ++ take (k - length xs) ys
  take-past k [] ys h = ap (λ n. take n ys) (omega arith)
  take-past zero (x ∷ xs) ys h = absurd (omega (arith, h))
  take-past (suc k) (x ∷ xs) ys h =
      ap (λ zs. x ∷ zs) (take-past k xs ys (omega (arith, h)))
      ∙ ap (λ n. x ∷ (xs ++ take n ys)) (omega arith)

pub Short-take : (F : Formats) (m : ℕ) (items : List Item) → Short F items → Short F (take m items)
Short-take F zero items s = tt
Short-take F (suc m) [] s = tt
Short-take F (suc m) (i ∷ is) s = (s.0, Short-take F m is s.1)

-- The first `k` bytes of some items are the first of the items, and an end that cannot be read.
pub record Cut (F : Formats) (items : List Item) (k : ℕ) : Type 0 where
  pub whole : ℕ
  pub torn_end : List ℕ
  pub parts : take k (written F items) ≡ written F (take whole items) ++ torn_end
  pub ends : Ends F torn_end
  pub all : length (written F items) ≤ k → length items ≤ whole

pub written-Cut : (F : Formats) (items : List Item) (k : ℕ) → Short F items → Cut F items k
written-Cut F [] k s = record {
  whole = 0;
  torn_end = [];
  parts = take-none k;
  ends = none_left;
  all = λ h. omega arith;
}
written-Cut F (i ∷ is) k s = elim (Bool-cases (ltb k (8 + length (packed F i)))) [
  | inl t ↦ record {
    whole = 0;
    torn_end = take k bytes;
    parts = take-inside k bytes (written F is) (ground (arith, t, size));
    ends = cut-Ends F k i s.0 (ground (arith, t));
    all = λ h. absurd (ground (arith, h, t, size, length-append bytes (written F is)));
  }
  | inr t ↦
      let rest = written-Cut F is (k - length bytes) s.1 in
      record {
        whole = suc rest.whole;
        torn_end = rest.torn_end;
        parts =
            take-past k bytes (written F is) (ground (arith, t, size))
            ∙ ap (λ bs. bytes ++ bs) rest.parts
            ∙ sym (append_assoc bytes (written F (take rest.whole is)) rest.torn_end);
        ends = rest.ends;
        all = λ h. omega (arith, rest.all (omega (arith, h, length-append bytes (written F is))));
      }
]
  where
    bytes : List ℕ
    bytes = record_bytes F (item_type i) (packed F i)

    size : length bytes ≡ 8 + length (packed F i)
    size = length-record_bytes F (item_type i) (packed F i)
