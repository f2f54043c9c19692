-- ===== src/Raft/Still/Votes.antt =====
-- Whom a node of raft-kv/raft/raft.cpp votes for, and what a message of an earlier term does.
use raft_etcd.Common.{◌≡◌, ◌⊎◌, refl, ◌∙◌, inl, inr, Bool, true, false, ret, ap}
use raft_etcd.Proto.{Message, msg_vote, same_type}
use raft_etcd.Util.{vote_resp_msg_type}
use raft_etcd.RaftLog
use raft_etcd.Raft.State.{Raft}
use raft_etcd.Raft.Exec.{Exec, pure, modify, lift, when}
use raft_etcd.Raft.Send.{send}
use raft_etcd.Raft.Keeps.{
  Keeps, Holds, Holds-ret, Holds-bind, Holds-weaken, Holds-gets, Holds-if, Holds-query, Keeps-lift,
}
use raft_etcd.Raft.Election.{
  can_vote, grant_vote, reject_vote, grant_or_reject, answer_vote, handle_vote,
}
use raft_etcd.Raft.Still.{Still, still, Still-trans}
use raft_etcd.Raft.Still.Sending.{send-Still}
use raft_etcd.Raft.Still.Electing.{reject_vote-Still}

-- The vote is what it was, or it is for the sender, who could have it and whose log is up to date.
abbrev pub Earned : Message → Raft → Raft → Type 0
Earned m r s =
    (s.vote ≡ r.vote)
    ⊎ ((s.vote ≡ m.from)
        × (can_vote r m ≡ true)
        × (RaftLog.is_up_to_date m.index m.log_term r.raft_log ≡ ret true))

Keeps-Earned :
    {A : Type 0} (m : Message) (r : Raft) (f : Exec A) → Keeps Still f → Holds (Earned m r) (f r)
Keeps-Earned m r f h = Holds-weaken (Still r) (Earned m r) (f r) (λ s d. inl d.vote) (h.at r)

record-Earned :
    (m : Message) (r s : Raft) (b : Bool)
    → Still r s
    → can_vote r m ≡ true
    → RaftLog.is_up_to_date m.index m.log_term r.raft_log ≡ ret true
    → Holds
        (Earned m r)
        (when b (modify (λ r'. record r' { election_elapsed = 0; vote = m.from })) s)
unfolding when modify pure
record-Earned m r s true d h k = inr (refl, h, k)
record-Earned m r s false d h k = inl d.vote

grant_vote-Earned :
    (m : Message) (r : Raft)
    → can_vote r m ≡ true
    → RaftLog.is_up_to_date m.index m.log_term r.raft_log ≡ ret true
    → Holds (Earned m r) (grant_vote m r)
unfolding grant_vote
grant_vote-Earned m r h k =
    Holds-bind (Still r) (Earned m r) (lift (vote_resp_msg_type m.type)) _ r
      ((Keeps-lift still _).at r)
      λ resp s d.
        Holds-bind (Still r) (Earned m r) (send _) _ s
          (Holds-weaken (Still s) (Still r) _ (λ u. Still-trans r s u d) ((send-Still _).at s))
          λ _ u f. record-Earned m r u (same_type m.type msg_vote) f h k

grant_or_reject-Earned :
    (m : Message) (r : Raft) → can_vote r m ≡ true → Holds (Earned m r) (grant_or_reject m r)
unfolding grant_or_reject
grant_or_reject-Earned m r h = Holds-query (Earned m r) _ _ r λ up e.
    Holds-if (Earned m r) up (grant_vote m) (reject_vote m) r
      (λ y. grant_vote-Earned m r h (e ∙ ap ret y))
      (λ _. Keeps-Earned m r (reject_vote m) (reject_vote-Still m))

answer_vote-Earned : (m : Message) (r : Raft) → Holds (Earned m r) (answer_vote m r)
unfolding answer_vote
answer_vote-Earned m r = Holds-gets (Earned m r) _ _ r (
    Holds-if (Earned m r) (can_vote r m) (grant_or_reject m) (reject_vote m) r
      (grant_or_reject-Earned m r) (λ _. Keeps-Earned m r (reject_vote m) (reject_vote-Still m)))

handle_vote-Earned : (m : Message) (r : Raft) → Holds (Earned m r) (handle_vote m r)
unfolding handle_vote pure
handle_vote-Earned m r = Holds-gets (Earned m r) _ _ r (
    Holds-if (Earned m r) r.is_learner (pure tt) (answer_vote m) r (λ _. inl refl)
      (λ _. answer_vote-Earned m r))

-- If the answer to a request for a vote returns, the node's vote is what it was, or it is for the
-- candidate, who could have it and whose log is up to date with the node's own.
pub handle_vote_lem : (m : Message) (r s : Raft) → handle_vote m r ≡ ret (tt, s) → Earned m r s
handle_vote_lem m r s e = Holds-ret (Earned m r) (handle_vote m r) e (handle_vote-Earned m r)
