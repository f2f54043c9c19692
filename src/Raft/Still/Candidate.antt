-- ===== src/Raft/Still/Candidate.antt =====
-- The step function of a candidate of raft-kv/raft/raft.cpp: the answers to its requests, and a leader
-- that it hears of.
use raft_etcd.Common.{
  ◌≡◌, ◌≤◌, ◌<◌, refl, sym, subst, true, not, ◌==◌, max64, sub64, length, if◌then◌else◌,
}
use raft_etcd.Proto.{
  MessageType, msg_prop, msg_app, msg_vote_resp, msg_snap, msg_heartbeat, msg_pre_vote_resp,
  Message,
}
use raft_etcd.Status.{Status, ok}
use raft_etcd.Raft.State.{Raft, quorum}
use raft_etcd.Raft.Exec.{Exec, ◌>>=◌, ◌>>◌, pure}
use raft_etcd.Raft.Keeps.{Keeps, Holds, Holds-weaken, Holds-gets, Holds-if, Holds-then, Keeps-pure}
use raft_etcd.Raft.Roles.{become_follower, step_down}
use raft_etcd.Raft.Election.{poll, campaign, election}
use raft_etcd.Raft.Step.{
  take_lead, win, handle_vote_resp, step_candidate, from_leader, is_pre_candidate,
}
use raft_etcd.Raft.Leader
use raft_etcd.Raft.Still.{Still, still}
use raft_etcd.Raft.Still.Sending.{sending_rules}
use raft_etcd.Raft.Still.Replicating.{replicating_rules}
use raft_etcd.Raft.Still.Following.{following_rules}
use raft_etcd.Raft.Still.Roles.{
  Adopts, become_follower-Adopts, become_leader-Still, step_down-Still,
}
use raft_etcd.Raft.Still.Onward.{Onward, onward, Keeps-Onward, Adopts-Onward, go_on}
use raft_etcd.Raft.Still.Electing.{poll-Still, campaign-Onward}

take_lead-Still : Keeps Still take_lead
unfolding take_lead
take_lead-Still = search (replicating_rules, become_leader-Still)

win-Onward : (r : Raft) → r.term < max64 → Holds (Onward r) (win r)
unfolding win
win-Onward r h = Holds-gets (Onward r) _ _ r (
    Holds-if (Onward r) (is_pre_candidate r.state) (campaign election) take_lead r
      (λ _. campaign-Onward election r h) (λ _. (Keeps-Onward _ take_lead-Still).at r))

handle_vote_resp-Onward :
    (m : Message) (r : Raft) → r.term < max64 → Holds (Onward r) (handle_vote_resp m r)
unfolding handle_vote_resp
handle_vote_resp-Onward m r h =
    go_on (poll m.from (not m.reject)) _ r ((poll-Still m.from (not m.reject)).at r) λ gr s e.
      Holds-gets (Onward s) _ _ s (
        Holds-gets (Onward s) _ _ s (
          Holds-if (Onward s) (quorum s == gr) win
            (if quorum s == sub64 (length s.votes) gr then step_down else pure tt) s
            (λ _. win-Onward s (subst (λ t. t < max64) (sym e) h))
            (λ _.
              (Keeps-Onward (if quorum s == sub64 (length s.votes) gr then step_down else pure tt)
                  (search (sending_rules, step_down-Still))).at
                s)))

-- A candidate that hears of a leader of its term, or of a later one, follows it.
follow-Onward :
    (m : Message) (f : Unit {0} → Exec Status) (r : Raft)
    → r.term ≤ m.term
    → ((a : Unit {0}) → Keeps Still (f a))
    → Holds (Onward r) ((become_follower m.term m.from >>= f) r)
follow-Onward m f r h k =
    Holds-then Onward onward (become_follower m.term m.from) f r
      (Holds-weaken (Adopts m.term r) (Onward r) _ (λ s. Adopts-Onward m.term r s h)
        (become_follower-Adopts m.term m.from r))
      (λ a. Keeps-Onward (f a) (k a))

counted :
    (m : Message) (r : Raft) → r.term < max64 → Holds (Onward r) ((handle_vote_resp m >> pure ok) r)
counted m r h =
    Holds-then Onward onward (handle_vote_resp m) _ r (handle_vote_resp-Onward m r h)
      (λ _. Keeps-Onward _ (Keeps-pure still ok))

pub step_candidate-Onward :
    (t : MessageType) (m : Message) (r : Raft)
    → r.term < max64
    → (from_leader t ≡ true → r.term ≤ m.term)
    → Holds (Onward r) (step_candidate t m r)
unfolding step_candidate
step_candidate-Onward msg_app m r h k = follow-Onward m _ r (k refl) (λ _. search following_rules)
step_candidate-Onward msg_heartbeat m r h k =
    follow-Onward m _ r (k refl) (λ _. search following_rules)
step_candidate-Onward msg_snap m r h k = follow-Onward m _ r (k refl) (λ _. search following_rules)
step_candidate-Onward msg_prop m r h k = (Keeps-Onward _ (Keeps-pure still Leader.dropped)).at r
step_candidate-Onward msg_pre_vote_resp m r h k = counted m r h
step_candidate-Onward msg_vote_resp m r h k = counted m r h
step_candidate-Onward _ m r h k = (Keeps-Onward _ (Keeps-pure still ok)).at r
