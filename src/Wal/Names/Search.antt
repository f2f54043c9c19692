-- ===== src/Wal/Names/Search.antt =====
-- The search for the file to start from, in raft-kv/wal/wal.cpp.
use raft_etcd.Common.{
  ℕ, zero, suc, ◌≤◌, ◌<◌, ◌≡◌, refl, subst, inl, inr, true, false, Bool-cases, List, ◌∷◌, Option,
  none, some, ret, arith, ◌∙◌, length, get_elem?, ltb, leb,
}
use raft_etcd.Wal.Names.{parse_wal_name, search_below, search_index}

-- The place `j` has a name whose index is `cur`.
pub record IndexAt (names : List (List ℕ)) (j cur : ℕ) : Type 0 where
  pub name : List ℕ
  pub seq : ℕ
  pub there : get_elem? names j ≡ some name
  pub parses : parse_wal_name name ≡ some (seq, cur)

-- The places from one on below another have names with indexes above a bound.
pub record AllAbove (names : List (List ℕ)) (index from below : ℕ) : Type 0 where
  pub at : (j : ℕ) → from ≤ j → j < below → (cur : ℕ) × IndexAt names j cur × (index < cur)

abbrev pub Found : List (List ℕ) → ℕ → ℕ → Option ℕ → Type 0
Found names index n none = AllAbove names index 0 n
Found names index n (some i) =
    (i < n) × ((cur : ℕ) × IndexAt names i cur × (cur ≤ index)) × AllAbove names index (suc i) n

-- Every place has a name that can be read.
pub record Named (names : List (List ℕ)) : Type 0 where
  pub at : (j : ℕ) → j < length names → (cur : ℕ) × IndexAt names j cur

further :
    (names : List (List ℕ)) (index i cur : ℕ) (o : Option ℕ)
    → IndexAt names i cur
    → index < cur
    → Found names index i o
    → Found names index (suc i) o
further names index i cur none a l f = record {
  at = λ j h k. elim (Bool-cases (ltb j i)) [
    | inl b ↦ f.at j h (ground (arith, b))
    | inr b ↦ (cur, subst (λ x. IndexAt names x cur) (ground (arith, b, k)) a, l)
  ];
}
further names index i cur (some m) a l f = (
  omega (arith, f.0),
  f.1,
  record {
    at = λ j h k. elim (Bool-cases (ltb j i)) [
      | inl b ↦ f.2.at j h (ground (arith, b))
      | inr b ↦ (cur, subst (λ x. IndexAt names x cur) (ground (arith, b, k)) a, l)
    ];
  },
)

one_below :
    (names : List (List ℕ)) (index i cur : ℕ)
    → IndexAt names i cur
    → search_below names index (suc i)
      ≡ elim (leb cur index) [ true ↦ ret (some i) | false ↦ search_below names index i ]
unfolding search_below
one_below names index i cur a = rw (a.there, a.parses) refl

search_below_lem :
    (names : List (List ℕ)) (index n : ℕ)
    → Named names
    → n ≤ length names
    → (o : Option ℕ) × (search_below names index n ≡ ret o) × Found names index n o
unfolding search_below
search_below_lem names index zero h l =
    (none, refl, record { at = λ j a b. absurd (omega (arith, b)) })
search_below_lem names index (suc i) h l =
    let (cur, a) = h.at i l in
    let (o, e, f) = search_below_lem names index i h (omega (arith, l)) in
    elim (Bool-cases (leb cur index)) [
      | inl t ↦ (
        some i,
        one_below names index i cur a ∙ rw t refl,
        (
          omega arith,
          (cur, a, ground (arith, t)),
          record { at = λ j b c. absurd (omega (arith, b, c)) },
        ),
      )
      | inr t ↦ (
        o,
        one_below names index i cur a ∙ rw t e,
        further names index i cur o a (ground (arith, t)) f,
      )
    ]

-- Of one or more names that can all be read, `search_index` returns the place of one whose index is
-- at most the given one, such that the names after that place all have larger indexes; or it returns
-- no place, and then all names have larger indexes.
pub search_index_lem :
    (name : List ℕ) (names : List (List ℕ)) (index : ℕ)
    → Named (name ∷ names)
    → (o : Option ℕ) × (search_index (name ∷ names) index ≡ ret o)
      × Found (name ∷ names) index (suc (length names)) o
unfolding search_index
search_index_lem name names index h =
    search_below_lem (name ∷ names) index (suc (length names)) h (omega arith)
