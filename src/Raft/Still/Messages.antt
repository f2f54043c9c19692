-- ===== src/Raft/Still/Messages.antt =====
-- `step` of raft-kv/raft/raft.cpp on a message of any kind and of any term.
use raft_etcd.Common.{
  ℕ, ◌≡◌, ◌≢◌, ◌≤◌, ◌<◌, sym, subst, arith, true, ◌==◌, max64, ltb, if◌then◌else◌,
}
use raft_etcd.Proto.{
  MessageType, msg_app, msg_snap, msg_heartbeat, msg_pre_vote, msg_pre_vote_resp, Message,
}
use raft_etcd.Status.{ok}
use raft_etcd.Raft.State.{Raft}
use raft_etcd.Raft.Exec.{◌>>◌, pure}
use raft_etcd.Raft.Keeps.{Keeps, Holds, Holds-bind, Holds-weaken, Holds-gets, Holds-if, Keeps-pure}
use raft_etcd.Raft.Roles.{become_follower}
use raft_etcd.Raft.Step.{
  dispatch, ignores_vote, adopt_term, step_later, step_earlier, from_leader, step,
}
use raft_etcd.Raft.Still.{Still, Still-refl, still}
use raft_etcd.Raft.Still.Sending.{sending_rules}
use raft_etcd.Raft.Still.Roles.{Adopts, become_follower-Adopts}
use raft_etcd.Raft.Still.Onward.{Onward, Onward-trans, Still-Onward, Adopts-Onward}
use raft_etcd.Raft.Still.Stepping.{dispatch-Onward, rest-Onward}

-- The node has gone on, and the message is of no earlier term than its own.
record Caught (m : Message) (r s : Raft) : Type 0 where
  pub onward : Onward r s
  pub term : s.term ≤ m.term

adopted-Caught :
    (m : Message) (lead : ℕ) (r : Raft)
    → r.term ≤ m.term
    → Holds (Caught m r) (become_follower m.term lead r)
adopted-Caught m lead r h =
    Holds-weaken (Adopts m.term r) (Caught m r) _
      (λ s a. record {
        onward = Adopts-Onward m.term r s h a;
        term = subst (λ t. t ≤ m.term) (sym a.term) (omega arith);
      })
      (become_follower-Adopts m.term lead r)

left-Caught : (m : Message) (r : Raft) → r.term ≤ m.term → Holds (Caught m r) (pure tt r)
unfolding pure
left-Caught m r h = record { onward = Still-Onward r r (Still-refl r); term = h }

adopt_term-Caught :
    (t : MessageType) (m : Message) (r : Raft)
    → r.term ≤ m.term
    → Holds (Caught m r) (adopt_term t m r)
unfolding adopt_term
adopt_term-Caught msg_pre_vote m r h = left-Caught m r h
adopt_term-Caught msg_pre_vote_resp m r h =
    Holds-if (Caught m r) m.reject (become_follower m.term 0) (pure tt) r
      (λ _. adopted-Caught m 0 r h) (λ _. left-Caught m r h)
adopt_term-Caught msg_app m r h = adopted-Caught m m.from r h
adopt_term-Caught msg_heartbeat m r h = adopted-Caught m m.from r h
adopt_term-Caught msg_snap m r h = adopted-Caught m m.from r h
adopt_term-Caught _ m r h = adopted-Caught m 0 r h

adopt_and_dispatch-Onward :
    (m : Message) (r : Raft)
    → r.term ≤ m.term
    → m.term < max64
    → Holds (Onward r) ((adopt_term m.type m >> dispatch m.type m) r)
adopt_and_dispatch-Onward m r h k =
    Holds-bind (Caught m r) (Onward r) (adopt_term m.type m) _ r (adopt_term-Caught m.type m r h)
      λ _ s c.
        Holds-weaken (Onward s) (Onward r) _ (λ u. Onward-trans r s u c.onward)
          (dispatch-Onward m.type m s (bounded s.term m.term c.term k) (λ _. c.term))
  where
    bounded : (a b : ℕ) → a ≤ b → b < max64 → a < max64
    bounded a b h k = omega arith

step_later-Onward :
    (m : Message) (r : Raft) → r.term ≤ m.term → m.term < max64 → Holds (Onward r) (step_later m r)
unfolding step_later
step_later-Onward m r h k = Holds-gets (Onward r) _ _ r (
    Holds-if (Onward r) (ignores_vote r m) (pure ok) (adopt_term m.type m >> dispatch m.type m) r
      (λ _. rest-Onward _ r (Keeps-pure still ok)) (λ _. adopt_and_dispatch-Onward m r h k))

step_earlier-Still : (m : Message) → Keeps Still (step_earlier m)
unfolding step_earlier
step_earlier-Still m = search sending_rules depth 9

step_termed-Onward :
    (m : Message) (r : Raft)
    → r.term < max64
    → m.term < max64
    → Holds (Onward r) (
        (if ltb r.term m.term
            then step_later m
            else if ltb m.term r.term
            then (step_earlier m >> pure ok)
            else dispatch m.type m)
          r)
step_termed-Onward m r h k =
    Holds-if (Onward r) (ltb r.term m.term) (step_later m)
      (if ltb m.term r.term then (step_earlier m >> pure ok) else dispatch m.type m) r
      (λ e. step_later-Onward m r (ground arith) k)
      (λ e.
        Holds-if (Onward r) (ltb m.term r.term) (step_earlier m >> pure ok) (dispatch m.type m) r
          (λ _.
            rest-Onward (step_earlier m >> pure ok) r (search (sending_rules, step_earlier-Still)))
          (λ f. dispatch-Onward m.type m r h (λ _. ground arith)))

-- Whatever message a node steps through, if the call returns: the node keeps its name, its term does
-- not go back, a vote that it has given stands while the term does, the commit index does not go back,
-- the storage and the applied index stay as they were, and the messages that the call adds come after
-- the ones before and are from the node. The terms of the node and of the message are below
-- 2 ^ 64 - 1, and MsgApp, MsgHeartbeat and MsgSnap have a term.
pub step-Onward :
    (m : Message) (r : Raft)
    → r.term < max64
    → m.term < max64
    → (from_leader m.type ≡ true → m.term ≢ 0)
    → Holds (Onward r) (step m r)
unfolding step
step-Onward m r h k n = Holds-gets (Onward r) _ _ r (
    Holds-if (Onward r) (m.term == 0) (dispatch m.type m)
      (if ltb r.term m.term
        then step_later m
        else if ltb m.term r.term
        then (step_earlier m >> pure ok)
        else dispatch m.type m)
      r (λ e. dispatch-Onward m.type m r h (λ l. absurd (n l (ground arith))))
      (λ _. step_termed-Onward m r h k))
