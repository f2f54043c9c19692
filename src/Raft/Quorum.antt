-- ===== src/Raft/Quorum.antt =====
-- The index that `maybe_commit` of raft-kv/raft/raft.cpp picks: a quorum of the nodes has it.
use raft_etcd.Common.{
  ℕ, zero, suc, ◌+◌, ◌/◌, to_u32_lem, ◌-◌, ◌^◌, ◌≡◌, ◌≤◌, ◌<◌, refl, ◌∙◌, ap, subst, Bool-cases,
  inl, inr, List, [], ◌∷◌, leb, length, get_elem?, arith, if◌then◌else◌, ret, or_fatal, some, none,
  Option, sub64, sub64_lem,
}
use raft_etcd.Common.Maps.{nat_keys}
use raft_etcd.Progress.{Progress}
use raft_etcd.Raft.State.{Raft, quorum}
use raft_etcd.Raft.Commit.{insert, sort, matches, quorum_match}

-- How many numbers are at least `n`.
abbrev pub reaching : ℕ → List ℕ → ℕ
reaching n [] = 0
reaching n (a ∷ xs) = if leb n a then suc (reaching n xs) else reaching n xs

abbrev Below : ℕ → List ℕ → Type 0
Below a [] = Unit
Below a (b ∷ bs) = (a ≤ b) × Below a bs

abbrev Sorted : List ℕ → Type 0
Sorted [] = Unit
Sorted (a ∷ xs) = Below a xs × Sorted xs

Below-insert : (a b : ℕ) (bs : List ℕ) → a ≤ b → Below a bs → Below a (insert b bs)
unfolding insert
Below-insert a b [] h k = (h, tt)
Below-insert a b (c ∷ cs) h k = elim (Bool-cases (leb b c)) [
  | inl e ↦ rw e (h, k)
  | inr e ↦ rw e (k.0, Below-insert a b cs h k.1)
]

Below-trans : (a b : ℕ) (bs : List ℕ) → a ≤ b → Below b bs → Below a bs
Below-trans a b [] h k = tt
Below-trans a b (c ∷ cs) h k = (omega (arith, h, k.0), Below-trans a b cs h k.1)

Sorted-insert : (a : ℕ) (bs : List ℕ) → Sorted bs → Sorted (insert a bs)
unfolding insert
Sorted-insert a [] h = (tt, tt)
Sorted-insert a (b ∷ bs) h = elim (Bool-cases (leb a b)) [
  | inl e ↦ rw e ((ground arith, Below-trans a b bs (ground arith) h.0), h)
  | inr e ↦ rw e (Below-insert b a bs (ground arith) h.0, Sorted-insert a bs h.1)
]

sort-Sorted : (xs : List ℕ) → Sorted (sort xs)
unfolding sort
sort-Sorted [] = tt
sort-Sorted (a ∷ xs) = Sorted-insert a (sort xs) (sort-Sorted xs)

reaching-insert : (n a : ℕ) (bs : List ℕ) → reaching n (insert a bs) ≡ reaching n (a ∷ bs)
unfolding insert
reaching-insert n a [] = refl
reaching-insert n a (b ∷ bs) = ground (arith, reaching-insert n a bs)

reaching-sort : (n : ℕ) (xs : List ℕ) → reaching n (sort xs) ≡ reaching n xs
unfolding sort
reaching-sort n [] = refl
reaching-sort n (a ∷ xs) = ground (arith, reaching-insert n a (sort xs), reaching-sort n xs)

length-insert : (a : ℕ) (bs : List ℕ) → length (insert a bs) ≡ suc (length bs)
unfolding insert
length-insert a [] = refl
length-insert a (b ∷ bs) = ground (arith, length-insert a bs)

length-sort : (xs : List ℕ) → length (sort xs) ≡ length xs
unfolding sort
length-sort [] = refl
length-sort (a ∷ xs) = length-insert a (sort xs) ∙ ap suc (length-sort xs)

reaching_all : (n : ℕ) (xs : List ℕ) → Below n xs → reaching n xs ≡ length xs
reaching_all n [] h = refl
reaching_all n (a ∷ xs) h = ground (arith, reaching_all n xs h.1)

-- In a sorted list the elements from a place on reach the one there.
from_place :
    (xs : List ℕ) (i n : ℕ) → Sorted xs → get_elem? xs i ≡ some n → length xs - i ≤ reaching n xs
from_place [] i n h e = omega arith
from_place (a ∷ xs) zero n h e =
    let k : a ≡ n = ground arith in
    ground (arith, k, reaching_all n xs (subst (λ b. Below b xs) k h.0))
from_place (a ∷ xs) (suc i) n h e = ground (arith, from_place xs i n h.1 e)

Below-elem : (a : ℕ) (xs : List ℕ) (i n : ℕ) → Below a xs → get_elem? xs i ≡ some n → a ≤ n
Below-elem a [] i n h e = ground arith
Below-elem a (b ∷ xs) zero n h e = ground arith
Below-elem a (b ∷ xs) (suc i) n h e = Below-elem a xs i n h.1 e

reaching_some : (n : ℕ) (xs : List ℕ) → reaching n xs ≤ length xs
reaching_some n [] = omega arith
reaching_some n (a ∷ xs) = ground (arith, reaching_some n xs)

-- Up to a place they do not reach more than what is there.
up_to_place :
    (xs : List ℕ) (i n k : ℕ)
    → Sorted xs
    → get_elem? xs i ≡ some n
    → n < k
    → reaching k xs < length xs - i
up_to_place [] i n k h e l = ground arith
up_to_place (a ∷ xs) zero n k h e l = ground (arith, reaching_some k xs)
up_to_place (a ∷ xs) (suc i) n k h e l =
    ground (arith, Below-elem a xs i n h.0 e, up_to_place xs i n k h.1 e l)

elem_in_range : (xs : List ℕ) (i : ℕ) → i < length xs → (n : ℕ) × (get_elem? xs i ≡ some n)
elem_in_range [] i h = absurd (omega arith)
elem_in_range (a ∷ xs) zero h = (a, refl)
elem_in_range (a ∷ xs) (suc i) h = elem_in_range xs i (omega arith)

length-matches : (ps : List (ℕ × Progress)) → length (matches ps) ≡ length ps
length-matches [] = refl
length-matches ((id, p) ∷ ps) = ap suc (length-matches ps)

quorum_lem : (r : Raft) → length r.prs < 2 ^ 32 → quorum r ≡ length r.prs / 2 + 1
unfolding quorum
quorum_lem r h = to_u32_lem (length r.prs / 2 + 1) (omega arith)

length-sorted : (r : Raft) → length (sort (matches r.prs)) ≡ length r.prs
length-sorted r = length-sort (matches r.prs) ∙ length-matches r.prs

-- The place of the pick in the sorted matches: a quorum is at it or after it.
picked_place :
    (r : Raft)
    → 0 < length r.prs
    → length r.prs < 2 ^ 32
    → sub64 (length (sort (matches r.prs))) (quorum r) + quorum r ≡ length (sort (matches r.prs))
picked_place r h k = rw (length-sorted r, quorum_lem r k) (in_place (length r.prs) h k)
  where
    in_place : (n : ℕ) → 0 < n → n < 2 ^ 32 → sub64 n (n / 2 + 1) + (n / 2 + 1) ≡ n
    in_place n h k = rw (sub64_lem n (n / 2 + 1) (omega arith) (omega arith)) (omega arith)

quorum_pos : (r : Raft) → length r.prs < 2 ^ 32 → 0 < quorum r
quorum_pos r k = omega (arith, quorum_lem r k)

-- With at least one voter, and fewer than 2 ^ 32, the pick returns an index, and a quorum of the voters
-- match it or more.
pub quorum_match_lem :
    (r : Raft)
    → 0 < length r.prs
    → length r.prs < 2 ^ 32
    → (m : ℕ) × (quorum_match r ≡ ret m) × (quorum r ≤ reaching m (matches r.prs))
unfolding quorum_match
quorum_match_lem r h k =
    let at = picked_place r h k in
    let buf = sort (matches r.prs) in
    let i = sub64 (length buf) (quorum r) in
    let found = elem_in_range buf i (omega (arith, at, quorum_pos r k)) in
    (
      found.0,
      ap or_fatal found.1,
      omega (
        arith,
        at,
        from_place buf i found.0 (sort-Sorted (matches r.prs)) found.1,
        reaching-sort found.0 (matches r.prs),
      ),
    )

or_fatal-ret : (o : Option ℕ) (m : ℕ) → or_fatal o ≡ ret m → o ≡ some m
or_fatal-ret none m e = cc
or_fatal-ret (some a) m e = cc

-- With at least one voter, and fewer than 2 ^ 32, an index that the pick returns is the largest
-- one: fewer than a quorum of the voters match a larger one.
pub quorum_match_most :
    (r : Raft) (m k : ℕ)
    → 0 < length r.prs
    → length r.prs < 2 ^ 32
    → quorum_match r ≡ ret m
    → m < k
    → reaching k (matches r.prs) < quorum r
unfolding quorum_match
quorum_match_most r m k h l e g =
    let at = picked_place r h l in
    let buf = sort (matches r.prs) in
    let i = sub64 (length buf) (quorum r) in
    omega (
      arith,
      at,
      up_to_place buf i m k (sort-Sorted (matches r.prs)) (or_fatal-ret _ m e) g,
      reaching-sort k (matches r.prs),
    )
