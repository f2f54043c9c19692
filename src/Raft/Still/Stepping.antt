-- ===== src/Raft/Still/Stepping.antt =====
-- `step` of raft-kv/raft/raft.cpp and the step functions of the three roles.
use raft_etcd.Common.{◌≡◌, ◌≤◌, ◌<◌, Bool, true, false, not, ◌&&◌, max64, ltb, if◌then◌else◌}
use raft_etcd.Proto.{
  MessageType, msg_hup, msg_prop, msg_app, msg_vote, msg_snap, msg_heartbeat, msg_transfer_leader,
  msg_timeout_now, msg_read_index, msg_read_index_resp, msg_pre_vote, Message,
}
use raft_etcd.Status.{ok, is_ok}
use raft_etcd.Raft.State.{Raft, is_leader, StepFn, as_follower, as_candidate, as_leader}
use raft_etcd.Raft.Exec.{Exec, ◌>>◌, pure, throw, when}
use raft_etcd.Raft.Progresses.{promotable}
use raft_etcd.Raft.Follower.{handle_append_entries, handle_heartbeat, handle_snapshot}
use raft_etcd.Raft.Keeps.{
  Keeps, Holds, Holds-gets, Holds-if, Holds-query, Holds-then, Keeps-bind, Keeps-pure,
}
use raft_etcd.Raft.Election.{campaign, transfer, handle_vote, num_of_pending_conf}
use raft_etcd.Raft.Step.{
  hear_leader, forward, follower_prop, handle_timeout_now, read_index_resp, step_follower,
  campaign_on_tick, campaign_if_ready, handle_hup, run_step, dispatch, from_leader,
}
use raft_etcd.Raft.Still.{Still, still}
use raft_etcd.Raft.Still.Sending.{sending_rules}
use raft_etcd.Raft.Still.Following.{following_rules}
use raft_etcd.Raft.Still.Leading.{push_read_state-Still, step_leader-Still}
use raft_etcd.Raft.Still.Onward.{Onward, onward, Keeps-Onward}
use raft_etcd.Raft.Still.Candidate.{step_candidate-Onward}
use raft_etcd.Raft.Still.Electing.{campaign-Onward, handle_vote-Onward}

hear_leader-Still : (m : Message) → Keeps Still (hear_leader m)
unfolding hear_leader
hear_leader-Still m = search sending_rules

forward-Still : (m : Message) → Keeps Still (forward m)
unfolding forward
forward-Still m = search sending_rules

follower_prop-Still : (m : Message) → Keeps Still (follower_prop m)
unfolding follower_prop
follower_prop-Still m = search sending_rules depth 9

read_index_resp-Still : (m : Message) → Keeps Still (read_index_resp m)
unfolding read_index_resp
read_index_resp-Still m = search (sending_rules, push_read_state-Still)

handle_timeout_now-Onward : (r : Raft) → r.term < max64 → Holds (Onward r) (handle_timeout_now r)
unfolding handle_timeout_now when
handle_timeout_now-Onward r h = Holds-gets (Onward r) _ _ r (go (promotable r))
  where
    go : (b : Bool) → Holds (Onward r) (when b (campaign transfer) r)
    go true = campaign-Onward transfer r h
    go false = (Keeps-Onward _ (Keeps-pure still tt)).at r

pub rest-Onward : {A : Type 0} (m : Exec A) (r : Raft) → Keeps Still m → Holds (Onward r) (m r)
rest-Onward m r h = (Keeps-Onward m h).at r

rest_ok : (f : Exec (Unit {0})) (r : Raft) → Keeps Still f → Holds (Onward r) ((f >> pure ok) r)
rest_ok f r h = rest-Onward (f >> pure ok) r (search (sending_rules, h))

follower_hears :
    (m : Message) (f : Exec (Unit {0})) (r : Raft)
    → Keeps Still f
    → Holds (Onward r) ((hear_leader m >> (f >> pure ok)) r)
follower_hears m f r h = rest-Onward (hear_leader m >> (f >> pure ok)) r (
    Keeps-bind still (hear_leader m) _ (hear_leader-Still m)
      (λ _. Keeps-bind still f _ h (λ _. Keeps-pure still ok)))

step_follower-Onward :
    (t : MessageType) (m : Message) (r : Raft)
    → r.term < max64
    → Holds (Onward r) (step_follower t m r)
unfolding step_follower
step_follower-Onward msg_prop m r h = (Keeps-Onward _ (follower_prop-Still m)).at r
step_follower-Onward msg_app m r h =
    follower_hears m (handle_append_entries m) r (search following_rules)
step_follower-Onward msg_heartbeat m r h =
    follower_hears m (handle_heartbeat m) r (search following_rules)
step_follower-Onward msg_snap m r h =
    follower_hears m (handle_snapshot m) r (search following_rules)
step_follower-Onward msg_transfer_leader m r h = rest_ok (forward m) r (forward-Still m)
step_follower-Onward msg_timeout_now m r h =
    Holds-then Onward onward handle_timeout_now _ r (handle_timeout_now-Onward r h)
      (λ _. Keeps-Onward _ (Keeps-pure still ok))
step_follower-Onward msg_read_index m r h = rest_ok (forward m) r (forward-Still m)
step_follower-Onward msg_read_index_resp m r h =
    rest_ok (read_index_resp m) r (read_index_resp-Still m)
step_follower-Onward _ m r h = (Keeps-Onward _ (Keeps-pure still ok)).at r

campaign_on_tick-Onward : (r : Raft) → r.term < max64 → Holds (Onward r) (campaign_on_tick r)
unfolding campaign_on_tick
campaign_on_tick-Onward r h = Holds-gets (Onward r) _ _ r (campaign-Onward _ r h)

campaign_if_ready-Onward : (r : Raft) → r.term < max64 → Holds (Onward r) (campaign_if_ready r)
unfolding campaign_if_ready
campaign_if_ready-Onward r h = Holds-gets (Onward r) _ _ r (
    Holds-gets (Onward r) _ _ r (
      Holds-query (Onward r) _ _ r λ found _.
        Holds-if (Onward r) (not (is_ok found.0)) throw
          (if ltb 0 (num_of_pending_conf found.1) && ltb r.raft_log.applied r.raft_log.committed
            then pure tt
            else campaign_on_tick)
          r (λ _. rest-Onward throw r (search sending_rules))
          (λ _.
            Holds-if (Onward r)
              (ltb 0 (num_of_pending_conf found.1) && ltb r.raft_log.applied r.raft_log.committed)
              (pure tt) campaign_on_tick r (λ _. rest-Onward _ r (Keeps-pure still tt))
              (λ _. campaign_on_tick-Onward r h))))

handle_hup-Onward : (r : Raft) → r.term < max64 → Holds (Onward r) (handle_hup r)
unfolding handle_hup
handle_hup-Onward r h = Holds-gets (Onward r) _ _ r (
    Holds-if (Onward r) (is_leader r.state) (pure tt) campaign_if_ready r
      (λ _. rest-Onward _ r (Keeps-pure still tt)) (λ _. campaign_if_ready-Onward r h))

run_step-Onward :
    (fn : StepFn) (m : Message) (r : Raft)
    → r.term < max64
    → (from_leader m.type ≡ true → r.term ≤ m.term)
    → Holds (Onward r) (run_step fn m r)
unfolding run_step
run_step-Onward as_follower m r h k = step_follower-Onward m.type m r h
run_step-Onward as_candidate m r h k = step_candidate-Onward m.type m r h k
run_step-Onward as_leader m r h k = rest-Onward _ r (step_leader-Still m)

pub dispatch-Onward :
    (t : MessageType) (m : Message) (r : Raft)
    → r.term < max64
    → (from_leader m.type ≡ true → r.term ≤ m.term)
    → Holds (Onward r) (dispatch t m r)
unfolding dispatch
dispatch-Onward msg_hup m r h k =
    Holds-then Onward onward handle_hup _ r (handle_hup-Onward r h)
      (λ _. Keeps-Onward _ (Keeps-pure still ok))
dispatch-Onward msg_vote m r h k =
    Holds-then Onward onward (handle_vote m) _ r ((handle_vote-Onward m).at r)
      (λ _. Keeps-Onward _ (Keeps-pure still ok))
dispatch-Onward msg_pre_vote m r h k =
    Holds-then Onward onward (handle_vote m) _ r ((handle_vote-Onward m).at r)
      (λ _. Keeps-Onward _ (Keeps-pure still ok))
dispatch-Onward _ m r h k = Holds-gets (Onward r) _ _ r (run_step-Onward r.step_fn m r h k)
