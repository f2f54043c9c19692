-- ===== src/Raft/Rule.antt =====
-- The rule of commitment of raft-kv/raft/raft.cpp: a leader commits what a quorum has, and only an
-- entry of its own term.
use raft_etcd.Common.{
  ℕ, ◌≡◌, ◌≤◌, ◌<◌, ◌⊎◌, ◌^◌, refl, ◌∙◌, sym, ap, subst, inl, inr, arith, Bool, true, Outcome, ret,
  fatal, max, length, ltb, ◌==◌,
}
use raft_etcd.Common.Ensures.{Ensures, Ensures-ret, Ensures-if, Ensures-bind}
use raft_etcd.Status.{Status}
use raft_etcd.RaftLog
use raft_etcd.RaftLog.{RaftLog}
use raft_etcd.RaftLog.Conflict.{commit_to_committed}
use raft_etcd.Raft.State.{Raft, quorum}
use raft_etcd.Raft.Exec.{Exec, ◌>>=◌, lift, on_log, stored}
use raft_etcd.Raft.Keeps.{Holds, Holds-gets, Holds-ret}
use raft_etcd.Raft.Commit.{maybe_commit, quorum_match, matches}
use raft_etcd.Raft.Quorum.{reaching, quorum_match_lem}

-- The log as it was, or committed up to an entry of the term `t`.
abbrev CommittedIn : ℕ → ℕ → RaftLog → RaftLog → Type 0
CommittedIn i t l l' =
    (l' ≡ l)
    ⊎ ((l'.committed ≡ i) × (l.committed < i) × ((st : Status) × (RaftLog.term i l ≡ ret (st, t))))

log_rule :
    (i t : ℕ) (l : RaftLog) → Ensures (λ x. CommittedIn i t l x.1) (RaftLog.maybe_commit i t l)
unfolding RaftLog.maybe_commit
log_rule i t l =
    Ensures-if (ltb l.committed i)
      (λ y.
        Ensures-bind {P = λ f. RaftLog.term i l ≡ ret f} (record { at = λ f e. e })
          λ found e.
            Ensures-if (found.1 == t)
              (λ z. Ensures-bind (commit_to_committed i l) λ l' h. Ensures-ret (
                inr (
                  h ∙ larger l.committed i y,
                  ground (arith, y),
                  (found.0, e ∙ ap (λ u. ret (found.0, u)) (same_term found.1 t z)),
                )))
              (λ _. Ensures-ret (inl refl)))
      (λ _. Ensures-ret (inl refl))
  where
    larger : (a b : ℕ) → ltb a b ≡ true → max a b ≡ b
    larger a b h = ground arith

    same_term : (a b : ℕ) → (a == b) ≡ true → a ≡ b
    same_term a b h = ground arith

Holds-lift :
    {A B : Type 0} (Q : Raft → Type 0) (c : Outcome A) (k : A → Exec B) (r : Raft)
    → ((a : A) → c ≡ ret a → Holds Q (k a r))
    → Holds Q ((lift c >>= k) r)
unfolding ◌>>=◌ lift
Holds-lift Q (ret a) k r h = h a refl
Holds-lift Q fatal k r h = tt

Holds-on_log :
    {A : Type 0} (Q : Raft → Type 0) (f : RaftLog → Outcome (A × RaftLog)) (r : Raft)
    → Ensures (λ x. Q (record r { raft_log = x.1 })) (f r.raft_log)
    → Holds Q (on_log f r)
unfolding on_log
Holds-on_log {A} Q f r h = go (f r.raft_log) h
  where
    go :
        (o : Outcome (A × RaftLog))
        → Ensures (λ x. Q (record r { raft_log = x.1 })) o
        → Holds Q (stored o r)
    go (ret (a, l)) k = k.at (a, l) refl
    go fatal k = tt

-- Nothing is committed, or the new commit index is the pick, above the old one, and the entry there is
-- of the leader's term.
abbrev pub Ruled : Raft → Raft → Type 0
Ruled r s =
    (s.raft_log ≡ r.raft_log)
    ⊎ ((quorum_match r ≡ ret s.raft_log.committed)
        × (r.raft_log.committed < s.raft_log.committed)
        × ((st : Status) × (RaftLog.term s.raft_log.committed r.raft_log ≡ ret (st, r.term))))

CommittedIn-Ruled :
    (r : Raft) (i : ℕ) (l : RaftLog)
    → quorum_match r ≡ ret i
    → CommittedIn i r.term r.raft_log l
    → Ruled r (record r { raft_log = l })
CommittedIn-Ruled r i l q (inl h) = inl h
CommittedIn-Ruled r i l q (inr (h, k, (st, e))) = inr (rw h (q, k, (st, e)))

maybe_commit-Ruled : (r : Raft) → Holds (Ruled r) (maybe_commit r)
unfolding maybe_commit
maybe_commit-Ruled r = Holds-gets (Ruled r) _ _ r (
    Holds-lift (Ruled r) (quorum_match r) _ r λ i e. Holds-gets (Ruled r) _ _ r (
      Holds-on_log (Ruled r) (RaftLog.maybe_commit i r.term) r (record {
        at = λ x h. CommittedIn-Ruled r i x.1 e ((log_rule i r.term r.raft_log).at x h);
      })))

maybe_commit_ret : (r s : Raft) (b : Bool) → maybe_commit r ≡ ret (b, s) → Ruled r s
maybe_commit_ret r s b e = Holds-ret (Ruled r) (maybe_commit r) e (maybe_commit-Ruled r)

ret_inj : (a b : ℕ) → Path (Outcome ℕ) (ret a) (ret b) → a ≡ b
ret_inj a b e = cc

reached :
    (r : Raft) (c : ℕ)
    → 0 < length r.prs
    → length r.prs < 2 ^ 32
    → quorum_match r ≡ ret c
    → quorum r ≤ reaching c (matches r.prs)
reached r c h k e =
    let (m, q, n) = quorum_match_lem r h k in
    subst (λ i. quorum r ≤ reaching i (matches r.prs)) (ret_inj m c (sym q ∙ e)) n

-- If `maybe_commit` of a node with at least one voter, and fewer than 2 ^ 32, returns, the log is as it
-- was, or the commit index has grown to an index that a quorum of the voters match, and the entry there
-- is of the leader's own term.
pub maybe_commit_lem :
    (r s : Raft) (b : Bool)
    → 0 < length r.prs
    → length r.prs < 2 ^ 32
    → maybe_commit r ≡ ret (b, s)
    → (s.raft_log ≡ r.raft_log)
      ⊎ ((quorum r ≤ reaching s.raft_log.committed (matches r.prs))
          × (r.raft_log.committed < s.raft_log.committed)
          × ((st : Status) × (RaftLog.term s.raft_log.committed r.raft_log ≡ ret (st, r.term))))
maybe_commit_lem r s b h k e = elim (maybe_commit_ret r s b e) [
  | inl same ↦ inl same
  | inr (q, g, t) ↦ inr (reached r s.raft_log.committed h k q, g, t)
]
