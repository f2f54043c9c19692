-- ===== src/RaftLog/Conflict.antt =====
-- `find_conflict` and `maybe_append` of raft-kv/raft/raft_log.cpp.
use raft_etcd.Common.{
  ℕ, ◌≡◌, ◌⊎◌, refl, ap, ◌∙◌, Bool, true, false, inl, inr, Option, none, some, List, [], ◌∷◌, ◌++◌,
  Outcome, ret, arith, min, max, length, add64, Outcome-cases, >>=-eq-ret, drop, sub64,
  if◌then◌else◌,
}
use raft_etcd.Common.Ensures.{Ensures, Ensures-ret, Ensures-if, Ensures-bind, Ensures-then}
use raft_etcd.Proto.{Entry}
use raft_etcd.RaftLog.{
  RaftLog, match_term, find_conflict, append, append_conflict, commit_to, maybe_append,
}

abbrev pub AllMatch : RaftLog → List Entry → Type 0
AllMatch l [] = Unit
AllMatch l (e ∷ es) = (match_term e.index e.term l ≡ ret true) × AllMatch l es

-- The first of the entries that the log does not have.
pub record FirstMismatch (l : RaftLog) (es : List Entry) (i : ℕ) : Type 0 where
  pub before : List Entry
  pub entry : Entry
  pub after : List Entry
  pub split : es ≡ before ++ entry ∷ after
  pub same : AllMatch l before
  pub differs : match_term entry.index entry.term l ≡ ret false
  pub index : entry.index ≡ i

mismatch_later :
    (l : RaftLog) (e : Entry) (es : List Entry) (i : ℕ)
    → match_term e.index e.term l ≡ ret true
    → (((i ≡ 0) × AllMatch l es) ⊎ FirstMismatch l es i)
    → (((i ≡ 0) × AllMatch l (e ∷ es)) ⊎ FirstMismatch l (e ∷ es) i)
mismatch_later l e es i h (inl (z, k)) = inl (z, (h, k))
mismatch_later l e es i h (inr f) = inr (record {
  before = e ∷ f.before;
  entry = f.entry;
  after = f.after;
  split = ap (λ xs. e ∷ xs) f.split;
  same = (h, f.same);
  differs = f.differs;
  index = f.index;
})

abbrev pub Reported : RaftLog → List Entry → ℕ → Type 0
Reported l es i = ((i ≡ 0) × AllMatch l es) ⊎ FirstMismatch l es i

report :
    (l : RaftLog) (e : Entry) (es : List Entry) (i : ℕ) (b : Bool)
    → match_term e.index e.term l ≡ ret b
    → (find_conflict es l ≡ ret i → Reported l es i)
    → Path (Outcome ℕ) (elim b [ true ↦ find_conflict es l | false ↦ ret e.index ]) (ret i)
    → Reported l (e ∷ es) i
report l e es i true h ih k = mismatch_later l e es i h (ih k)
report l e es i false h ih k = inr (record {
  before = [];
  entry = e;
  after = es;
  split = refl;
  same = tt;
  differs = h;
  index = ground (arith, k);
})

-- If `find_conflict` returns, it returns 0 and `match_term` holds of all the entries, or the
-- index of the first entry of which it does not hold, and it holds of those before.
pub find_conflict_lem :
    (es : List Entry) (l : RaftLog) (i : ℕ)
    → find_conflict es l ≡ ret i
    → ((i ≡ 0) × AllMatch l es) ⊎ FirstMismatch l es i
unfolding find_conflict
find_conflict_lem [] l i e = inl (ground (arith, e), tt)
find_conflict_lem (x ∷ xs) l i e =
    let (b, h, k) = >>=-eq-ret (match_term x.index x.term l) _ e in
    report l x xs i b h (find_conflict_lem xs l i) k

-- The commit index is as it was.
append_committed :
    (es : List Entry) (l : RaftLog) → Ensures (λ x. x.1.committed ≡ l.committed) (append es l)
unfolding append
append_committed [] l = record { at = λ x e. ground arith }
append_committed (x ∷ xs) l = record { at = λ x e. ground arith }

append_conflict_committed :
    (index : ℕ) (es : List Entry) (ci : ℕ) (l : RaftLog)
    → Ensures (λ x. x.committed ≡ l.committed) (append_conflict index es ci l)
unfolding append_conflict
append_conflict_committed index es ci l =
    let kept = drop (sub64 ci (add64 index 1)) es in
    elim (Outcome-cases (append kept l)) [
      | inl x ↦ record { at = λ a e. ground (arith, x) }
      | inr (p, x) ↦ record { at = λ a e. ground (arith, x, (append_committed kept l).at p x) }
    ]

pub commit_to_committed :
    (i : ℕ) (l : RaftLog) → Ensures (λ x. x.committed ≡ max l.committed i) (commit_to i l)
unfolding commit_to
commit_to_committed i l = record { at = λ x e. ground arith }

-- What an answer of `maybe_append` says of the log.
pub record Appended (index t c : ℕ) (es : List Entry) (l : RaftLog) (x : Option ℕ × RaftLog)
    : Type 0 where
  pub same : Bool
  pub tested : match_term index t l ≡ ret same
  pub result : x.0 ≡ (if same then some (add64 index (length es)) else none)
  pub committed :
      x.1.committed
      ≡ (if same then max l.committed (min c (add64 index (length es))) else l.committed)

accepted :
    (index t c : ℕ) (es : List Entry) (l l' l'' : RaftLog)
    → match_term index t l ≡ ret true
    → l'.committed ≡ l.committed
    → l''.committed ≡ max l'.committed (min c (add64 index (length es)))
    → Appended index t c es l (some (add64 index (length es)), l'')
accepted index t c es l l' l'' m h k = record {
  same = true;
  tested = m;
  result = refl;
  committed = rw (k, h) refl;
}

maybe_append-Appended :
    (index t c : ℕ) (es : List Entry) (l : RaftLog)
    → Ensures (Appended index t c es l) (maybe_append index t c es l)
unfolding maybe_append
maybe_append-Appended index t c es l =
    Ensures-bind {P = λ b. match_term index t l ≡ ret b} (record { at = λ b e. e })
      λ same m.
        Ensures-if same
          (λ y. Ensures-then (find_conflict es l) λ ci.
            Ensures-bind (append_conflict_committed index es ci l) λ l' h.
              Ensures-bind (commit_to_committed (min c (add64 index (length es))) l')
                λ l'' k. Ensures-ret (accepted index t c es l l' l'' (m ∙ ap ret y) h k))
          (λ n.
            Ensures-ret
              (record { same = false; tested = m ∙ ap ret n; result = refl; committed = refl }))

-- If `maybe_append` returns, either `match_term` tells that the log does not have the term `t` at
-- `index`, and then there is no answer and the commit index stays; or it tells that it has, and
-- then the answer is `index` plus the number of new entries (in 64 bits), and the commit index is
-- the larger one of what it was and of the smaller one of the leader's commit index and that
-- answer.
pub maybe_append_lem :
    (index t c : ℕ) (es : List Entry) (l : RaftLog) (x : Option ℕ × RaftLog)
    → maybe_append index t c es l ≡ ret x
    → Appended index t c es l x
maybe_append_lem index t c es l x e = (maybe_append-Appended index t c es l).at x e
