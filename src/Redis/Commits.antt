-- ===== src/Redis/Commits.antt =====
-- What the commits of a log leave in the map of raft-kv/server/redis_store.cpp.
use raft_etcd.Common.{
  ℕ, ◌≡◌, refl, sym, ◌∙◌, inl, inr, Bool, true, false, Bool-cases, ◌||◌, List, [], ◌∷◌, ◌++◌,
  Option, none, some, ret, arith, ◌==◌, if◌then◌else◌,
}
use raft_etcd.Common.Maps.{find, put, erase, same_bytes, same_bytes_iff, bytes_keys, keys}
use raft_etcd.Redis.Store.{
  Pairs, RedisCommitData, RaftCommit, commit_set, commit_del, erase_all, apply_set, apply_commit,
}

-- Whether a key is in a list of keys.
unfoldable pub has : List ℕ → List (List ℕ) → Bool
has k [] = false
has k (j ∷ ks) = same_bytes j k || has k ks

-- The keys of the map differ.
abbrev pub Distinct : Pairs → Type 0
Distinct [] = Unit
Distinct ((k, v) ∷ m) = (has k (keys m) ≡ false) × Distinct m

same_bytes_refl : (k : List ℕ) → same_bytes k k ≡ true
same_bytes_refl k = (same_bytes_iff k k).1 refl

find-put :
    (k j : List ℕ) (v : List ℕ) (m : Pairs)
    → find j (put k v m) ≡ (if same_bytes k j then some v else find j m)
unfolding find put
find-put k j v [] = refl
find-put k j v ((i, w) ∷ m) =
    ground (arith, same_bytes_iff i k, same_bytes_iff i j, same_bytes_iff k j, find-put k j v m)

find-missing : (k : List ℕ) (m : Pairs) → has k (keys m) ≡ false → find k m ≡ none
unfolding find has
find-missing k [] h = refl
find-missing k ((i, w) ∷ m) h = ground (arith, find-missing k m)

find-erase :
    (k j : List ℕ) (m : Pairs)
    → Distinct m
    → find j (erase k m) ≡ (if same_bytes k j then none else find j m)
unfolding find erase
find-erase k j [] d = ground arith
find-erase k j ((i, w) ∷ m) d = ground (
  arith,
  same_bytes_iff i k,
  same_bytes_iff i j,
  same_bytes_iff k j,
  find-erase k j m d.1,
  find-missing i m d.0,
)

has-keys-put :
    (k j : List ℕ) (v : List ℕ) (m : Pairs)
    → has j (keys (put k v m)) ≡ (same_bytes k j || has j (keys m))
unfolding has put
has-keys-put k j v [] = refl
has-keys-put k j v ((i, w) ∷ m) =
    ground (arith, same_bytes_iff i k, same_bytes_iff i j, same_bytes_iff k j, has-keys-put k j v m)

has-keys-erase :
    (k j : List ℕ) (m : Pairs) → has j (keys m) ≡ false → has j (keys (erase k m)) ≡ false
unfolding has erase
has-keys-erase k j [] h = refl
has-keys-erase k j ((i, w) ∷ m) h = ground (arith, has-keys-erase k j m)

pub Distinct-put : (k v : List ℕ) (m : Pairs) → Distinct m → Distinct (put k v m)
unfolding put has
Distinct-put k v [] d = (refl, tt)
Distinct-put k v ((i, w) ∷ m) d = elim (Bool-cases (same_bytes i k)) [
  | inl e ↦ rw e (rw (← ((same_bytes_iff i k).0 e)) d)
  | inr e ↦ rw e (
      (
        has-keys-put k i v m ∙ ground (arith, same_bytes_iff i k, same_bytes_iff k i, d.0),
        Distinct-put k v m d.1,
      ))
]

pub Distinct-erase : (k : List ℕ) (m : Pairs) → Distinct m → Distinct (erase k m)
unfolding erase has
Distinct-erase k [] d = tt
Distinct-erase k ((i, w) ∷ m) d = elim (Bool-cases (same_bytes i k)) [
  | inl e ↦ rw e d.1
  | inr e ↦ rw e (has-keys-erase k i m d.0, Distinct-erase k m d.1)
]

Distinct-erase_all : (ks : List (List ℕ)) (m : Pairs) → Distinct m → Distinct (erase_all ks m)
unfolding erase_all
Distinct-erase_all [] m d = d
Distinct-erase_all (k ∷ ks) m d = Distinct-erase_all ks (erase k m) (Distinct-erase k m d)

find-erase_all :
    (ks : List (List ℕ)) (j : List ℕ) (m : Pairs)
    → Distinct m
    → find j (erase_all ks m) ≡ (if has j ks then none else find j m)
unfolding erase_all has
find-erase_all [] j m d = refl
find-erase_all (k ∷ ks) j m d =
    find-erase_all ks j (erase k m) (Distinct-erase k m d) ∙ ground (arith, find-erase k j m d)

-- The value of a key after a command, from the one before it.
abbrev set_value : List ℕ → Option (List ℕ) → List (List ℕ) → Option (List ℕ)
set_value k old (j ∷ v ∷ []) = if same_bytes j k then some v else old
set_value k old _ = old

unfoldable pub value_after : List ℕ → Option (List ℕ) → RedisCommitData → Option (List ℕ)
unfolding has
value_after k old cmd =
    if cmd.type == commit_set
    then set_value k old cmd.strs
    else if cmd.type == commit_del
    then if has k cmd.strs then none else old
    else old

-- The value of a key after some commits: the last command about it decides.
unfoldable pub latest : List ℕ → Option (List ℕ) → List RaftCommit → Option (List ℕ)
unfolding value_after
latest k old [] = old
latest k old (c ∷ cs) = latest k (value_after k old c.redis_data) cs

-- A set has a key and a value.
abbrev is_pair : List (List ℕ) → Bool
is_pair (k ∷ v ∷ []) = true
is_pair _ = false

abbrev pub proper : RedisCommitData → Bool
proper cmd = if cmd.type == commit_set then is_pair cmd.strs else true

abbrev pub AllProper : List RaftCommit → Type 0
AllProper [] = Unit
AllProper (c ∷ cs) = (proper c.redis_data ≡ true) × AllProper cs

-- What a command does to a map with distinct keys.
pub record Applied (cmd : RedisCommitData) (m : Pairs) : Type 0 where
  pub after : Pairs
  pub returns : apply_commit cmd m ≡ ret after
  pub distinct : Distinct after
  pub values : (k : List ℕ) → find k after ≡ value_after k (find k m) cmd

apply_set-pair :
    (strs : List (List ℕ)) (m : Pairs)
    → is_pair strs ≡ true
    → Distinct m
    → (after : Pairs) × (apply_set strs m ≡ ret after)
      × Distinct after
      × ((k : List ℕ) → find k after ≡ set_value k (find k m) strs)
apply_set-pair [] m p d = absurd (cc)
apply_set-pair (k ∷ []) m p d = absurd (cc)
apply_set-pair (k ∷ v ∷ []) m p d = (put k v m, refl, Distinct-put k v m d, λ j. find-put k j v m)
apply_set-pair (k ∷ v ∷ _ ∷ _) m p d = absurd (cc)

pub apply_commit_lem :
    (cmd : RedisCommitData) (m : Pairs) → proper cmd ≡ true → Distinct m → Applied cmd m
unfolding apply_commit value_after
apply_commit_lem cmd m p d = elim (Bool-cases (cmd.type == commit_set)) [
  | inl a ↦
      let s = apply_set-pair cmd.strs m (sym (rw a refl) ∙ p) d in
      record { after = s.0; returns = rw a s.1; distinct = s.2; values = λ k. rw a (s.3 k) }
  | inr a ↦ elim (Bool-cases (cmd.type == commit_del)) [
    | inl b ↦ record {
      after = erase_all cmd.strs m;
      returns = rw (a, b) refl;
      distinct = Distinct-erase_all cmd.strs m d;
      values = λ k. rw (a, b) (find-erase_all cmd.strs k m d);
    }
    | inr b ↦ record {
      after = m;
      returns = rw (a, b) refl;
      distinct = d;
      values = λ k. rw (a, b) refl;
    }
  ]
]

has-keys-append :
    (j : List ℕ) (m ps : Pairs) → has j (keys (m ++ ps)) ≡ (has j (keys m) || has j (keys ps))
unfolding has
has-keys-append j [] ps = refl
has-keys-append j ((i, w) ∷ m) ps = ground (arith, has-keys-append j m ps)

-- A key that comes later in a map with distinct keys is not among the earlier ones.
pub Distinct-shift :
    (m : Pairs) (k v : List ℕ) (ps : Pairs) → Distinct (m ++ (k, v) ∷ ps) → has k (keys m) ≡ false
unfolding has
Distinct-shift [] k v ps d = refl
Distinct-shift ((i, w) ∷ m) k v ps d = ground (
  arith,
  Distinct-shift m k v ps d.1,
  d.0,
  has-keys-append i m ((k, v) ∷ ps),
  same_bytes_iff i k,
  same_bytes_iff k i,
)
