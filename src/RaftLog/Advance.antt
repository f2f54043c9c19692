-- ===== src/RaftLog/Advance.antt =====
-- What the methods of `RaftLog` (raft-kv/raft/raft_log.cpp) that change it leave alone: the storage,
-- which is the application's, and the applied index; and the commit index, which never goes back.
use raft_etcd.Common.{
  ℕ, ◌≤◌, ◌≡◌, refl, List, [], ◌∷◌, drop, sub64, add64, Outcome-cases, inl, inr, arith,
}
use raft_etcd.Common.Ensures.{Ensures, Ensures-ret, Ensures-if, Ensures-bind, Ensures-then}
use raft_etcd.Proto.{Entry}
use raft_etcd.RaftLog.{
  RaftLog, append, append_conflict, commit_to, maybe_append, maybe_commit, match_term,
  find_conflict,
}

pub record Advances (l l' : RaftLog) : Type 0 where
  pub committed : l.committed ≤ l'.committed
  pub applied : l'.applied ≡ l.applied
  pub storage : l'.storage ≡ l.storage

pub Advances-refl : (l : RaftLog) → Advances l l
Advances-refl l = record { committed = omega arith; applied = refl; storage = refl }

pub Advances-trans : {k l m : RaftLog} → Advances k l → Advances l m → Advances k m
Advances-trans a b = record {
  committed = omega arith;
  applied = cc (a.applied, b.applied);
  storage = cc (a.storage, b.storage);
}

pub append-Advances : (es : List Entry) (l : RaftLog) → Ensures (λ x. Advances l x.1) (append es l)
unfolding append
append-Advances [] l = record { at = λ x e. ground arith }
append-Advances (x ∷ xs) l = record { at = λ x e. ground arith }

pub commit_to-Advances : (i : ℕ) (l : RaftLog) → Ensures (Advances l) (commit_to i l)
unfolding commit_to
commit_to-Advances i l = record { at = λ x e. ground arith }

pub maybe_commit-Advances :
    (i t : ℕ) (l : RaftLog) → Ensures (λ x. Advances l x.1) (maybe_commit i t l)
unfolding maybe_commit commit_to
maybe_commit-Advances i t l = record { at = λ x e. ground arith }

append_conflict-Advances :
    (index : ℕ) (es : List Entry) (ci : ℕ) (l : RaftLog)
    → Ensures (Advances l) (append_conflict index es ci l)
unfolding append_conflict
append_conflict-Advances index es ci l =
    let kept = drop (sub64 ci (add64 index 1)) es in
    elim (Outcome-cases (append kept l)) [
      | inl x ↦ record { at = λ a e. ground (arith, x) }
      | inr (p, x) ↦ record { at = λ a e. ground (arith, x, (append-Advances kept l).at p x) }
    ]

pub maybe_append-Advances :
    (index t c : ℕ) (es : List Entry) (l : RaftLog)
    → Ensures (λ x. Advances l x.1) (maybe_append index t c es l)
unfolding maybe_append
maybe_append-Advances index t c es l = Ensures-then (match_term index t l) (λ same.
    Ensures-if same
      (λ _. Ensures-then (find_conflict es l) λ ci.
        Ensures-bind (append_conflict-Advances index es ci l)
          λ l' h. Ensures-bind (commit_to-Advances _ l') λ l'' k. Ensures-ret (Advances-trans h k))
      (λ _. Ensures-ret (Advances-refl l)))
