-- ===== src/Raft/Still/Electing.antt =====
-- Elections in raft-kv/raft/raft.cpp: a candidate votes for itself in a new term, and no answer to a
-- request takes a vote back.
use raft_etcd.Common.{
  ℕ, ◌≡◌, ◌≢◌, ◌≤◌, ◌<◌, refl, ◌∙◌, sym, subst, arith, Bool, true, false, add64, add64_lem, ◌==◌,
  max64,
}
use raft_etcd.Proto.{type_code, MessageType, Message, msg_vote, msg_pre_vote, same_type}
use raft_etcd.Util.{vote_resp_msg_type}
use raft_etcd.Raft.State.{Raft, quorum, as_candidate, is_leader, tick_election, candidate}
use raft_etcd.Raft.Exec.{Exec, pure, throw, modify, lift, when}
use raft_etcd.Raft.Send.{send}
use raft_etcd.Raft.Keeps.{
  Keeps, Holds, Holds-bind, Holds-weaken, Holds-gets, Holds-if, Holds-query, Holds-then, Keeps-pure,
  Keeps-lift,
}
use raft_etcd.Raft.Roles.{reset, stand, become_candidate, become_pre_candidate, become_leader}
use raft_etcd.Raft.Election.{
  poll, request_vote, request_votes, run_campaign, campaign, campaign_vote, CampaignType,
  pre_election, election, transfer, can_vote, grant_vote, reject_vote, grant_or_reject, answer_vote,
  handle_vote,
}
use raft_etcd.Raft.Still.{Still, Still-trans, still}
use raft_etcd.Raft.Still.Sending.{sending_rules, send-Still}
use raft_etcd.Raft.Still.Roles.{
  as_role_Still, Adopts, reset-Adopts, become_leader-Still, become_pre_candidate-Still,
}
use raft_etcd.Raft.Still.Onward.{Onward, onward, Still-Onward, Keeps-Onward, go_on}

pub poll-Still : (id : ℕ) (v : Bool) → Keeps Still (poll id v)
unfolding poll
poll-Still id v = search sending_rules depth 9

request_vote-Still : (ty : MessageType) (t to : ℕ) → Keeps Still (request_vote ty t to)
unfolding request_vote
request_vote-Still ty t to = search sending_rules depth 9

-- A new term with any vote goes on from the term before.
Elected-Onward :
    (t : ℕ) (r s : Raft)
    → r.term < t
    → Adopts t r s
    → Onward r (record s { tick_fn = tick_election; vote = s.id; state = candidate })
Elected-Onward t r s h a = record {
  id = a.id;
  term = subst (λ u. r.term ≤ u) (sym a.term) (omega arith);
  vote = λ e _. absurd (newer_term r.term t h (e ∙ a.term));
  log = a.rest.log;
  sent = a.rest.sent;
  msgs = a.rest.msgs;
  from = a.rest.from;
}
  where
    newer_term : (a b : ℕ) → a < b → a ≡ b → ⊥
    newer_term a b h e = omega arith

new_term : (t : ℕ) → t < max64 → t < add64 t 1
new_term t h = rw (add64_lem t 1 (omega arith)) omega arith

stand-Onward : (r : Raft) → r.term < max64 → Holds (Onward r) (stand r)
unfolding stand modify
stand-Onward r h =
    go_on (modify (λ r'. record r' { step_fn = as_candidate })) _ r
      ((as_role_Still as_candidate).at r)
      λ _ s e. Holds-gets (Onward s) _ _ s (
        Holds-bind (Adopts (add64 s.term 1) s) (Onward s) (reset (add64 s.term 1)) _ s
          (reset-Adopts (add64 s.term 1) s)
          (λ _ u d.
            Elected-Onward (add64 s.term 1) s u (new_term s.term (subst (λ t. t < max64) (sym e) h))
              d))

become_candidate-Onward : (r : Raft) → r.term < max64 → Holds (Onward r) (become_candidate r)
unfolding become_candidate
become_candidate-Onward r h = Holds-gets (Onward r) _ _ r (
    Holds-if (Onward r) (is_leader r.state) throw stand r
      (λ _. (Keeps-Onward throw (search sending_rules)).at r) (λ _. stand-Onward r h))

request_votes-Still : (ty : MessageType) (t : ℕ) → Keeps Still (request_votes ty t)
unfolding request_votes
request_votes-Still ty t = search (sending_rules, request_vote-Still) depth 9

run_campaign-Onward :
    (won : Exec (Unit {0})) (ty : MessageType) (t : ℕ) (r : Raft)
    → ((s : Raft) → s.term ≡ r.term → Holds (Onward s) (won s))
    → Holds (Onward r) (run_campaign won ty t r)
unfolding run_campaign
run_campaign-Onward won ty t r h =
    go_on (lift (vote_resp_msg_type ty)) _ r ((Keeps-lift still _).at r) λ resp s e.
      Holds-gets (Onward s) _ _ s (
        go_on (poll s.id true) _ s ((poll-Still s.id true).at s) λ gr u d.
          Holds-gets (Onward u) _ _ u (
            Holds-if (Onward u) (quorum u == gr) won (request_votes ty t) u (λ _. h u (d ∙ e))
              (λ _. (Keeps-Onward _ (request_votes-Still ty t)).at u)))

campaign_vote-Onward : (r : Raft) → r.term < max64 → Holds (Onward r) (campaign_vote r)
unfolding campaign_vote
campaign_vote-Onward r h =
    Holds-then Onward onward become_candidate _ r (become_candidate-Onward r h) λ _. record {
      at = λ s. Holds-gets (Onward s) _ _ s (
          run_campaign-Onward become_leader msg_vote s.term s
            (λ u _. (Keeps-Onward _ become_leader-Still).at u));
    }

pub campaign-Onward :
    (c : CampaignType) (r : Raft) → r.term < max64 → Holds (Onward r) (campaign c r)
unfolding campaign
campaign-Onward pre_election r h =
    go_on become_pre_candidate _ r (become_pre_candidate-Still.at r) λ _ s e.
      Holds-gets (Onward s) _ _ s (
        run_campaign-Onward campaign_vote msg_pre_vote (add64 s.term 1) s
          λ u d. campaign_vote-Onward u (subst (λ t. t < max64) (sym (d ∙ e)) h))
campaign-Onward election r h = campaign_vote-Onward r h
campaign-Onward transfer r h = campaign_vote-Onward r h

pub reject_vote-Still : (m : Message) → Keeps Still (reject_vote m)
unfolding reject_vote
reject_vote-Still m = search sending_rules depth 9

-- A second request for a vote in a term is granted to the same candidate only.
vote_stands :
    (r : Raft) (m : Message)
    → can_vote r m ≡ true
    → same_type m.type msg_vote ≡ true
    → r.vote ≢ 0
    → m.from ≡ r.vote
unfolding same_type type_code
vote_stands r m h k n = ground arith

record_grant :
    (r s : Raft) (m : Message)
    → can_vote r m ≡ true
    → Still r s
    → (b : Bool) → same_type m.type msg_vote ≡ b
    → Holds (Onward r) (when b (modify (λ r'. record r' { election_elapsed = 0; vote = m.from })) s)
unfolding when modify pure
record_grant r s m h d true e = record {
  id = d.id;
  term = (Still-Onward r s d).term;
  vote = λ _ n. vote_stands r m h e n;
  log = d.log;
  sent = d.sent;
  msgs = d.msgs;
  from = d.from;
}
record_grant r s m h d false e = Still-Onward r s d

grant_vote-Onward :
    (m : Message) (r : Raft) → can_vote r m ≡ true → Holds (Onward r) (grant_vote m r)
unfolding grant_vote
grant_vote-Onward m r h =
    Holds-bind (Still r) (Onward r) (lift (vote_resp_msg_type m.type)) _ r
      ((Keeps-lift still _).at r)
      λ resp s d.
        Holds-bind (Still r) (Onward r) (send _) _ s
          (Holds-weaken (Still s) (Still r) _ (λ u. Still-trans r s u d) ((send-Still _).at s))
          λ _ u f. record_grant r u m h f (same_type m.type msg_vote) refl

grant_or_reject-Onward :
    (m : Message) (r : Raft) → can_vote r m ≡ true → Holds (Onward r) (grant_or_reject m r)
unfolding grant_or_reject
grant_or_reject-Onward m r h = Holds-query (Onward r) _ _ r λ up _.
    Holds-if (Onward r) up (grant_vote m) (reject_vote m) r (λ _. grant_vote-Onward m r h)
      λ _. (Keeps-Onward _ (reject_vote-Still m)).at r

answer_vote-Onward : (m : Message) (r : Raft) → Holds (Onward r) (answer_vote m r)
unfolding answer_vote
answer_vote-Onward m r = Holds-gets (Onward r) _ _ r (
    Holds-if (Onward r) (can_vote r m) (grant_or_reject m) (reject_vote m) r
      (λ e. grant_or_reject-Onward m r e) λ _. (Keeps-Onward _ (reject_vote-Still m)).at r)

pub handle_vote-Onward : (m : Message) → Keeps Onward (handle_vote m)
unfolding handle_vote
handle_vote-Onward m = record {
  at = λ r. Holds-gets (Onward r) _ _ r (
      Holds-if (Onward r) r.is_learner (pure tt) (answer_vote m) r
        (λ _. (Keeps-Onward _ (Keeps-pure still tt)).at r) λ _. answer_vote-Onward m r);
}
