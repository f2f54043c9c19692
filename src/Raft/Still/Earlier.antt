-- ===== src/Raft/Still/Earlier.antt =====
-- A message of an earlier term, in `step` of raft-kv/raft/raft.cpp.
use raft_etcd.Common.{
  ℕ, ◌≡◌, ◌≢◌, ◌<◌, ◌⊎◌, refl, arith, true, false, ret, ltb, Bool-cases, inl, inr, [], ◌∷◌, ◌++◌,
  ◌==◌, ◌||◌, ◌&&◌,
}
use raft_etcd.Proto.{
  Message, empty_message, msg_app, msg_heartbeat, msg_app_resp, msg_pre_vote, msg_pre_vote_resp,
  same_type,
}
use raft_etcd.Status.{ok}
use raft_etcd.Raft.State.{Raft}
use raft_etcd.Raft.Exec.{◌>>=◌, pure, modify, gets}
use raft_etcd.Raft.Send.{send, stamped, is_vote_type}
use raft_etcd.Raft.Step.{step, step_earlier}

-- The object with one more message to send.
abbrev sending : Raft → Message → Raft
sending r m = record r { msgs = r.msgs ++ stamped r m ∷ [] }

-- The object, or the object with one message more.
abbrev pub Answered : Raft → Raft → Type 0
Answered r s =
    (s ≡ r) ⊎ ((m : Message) × (m.from ≡ r.id) × (s ≡ record r { msgs = r.msgs ++ m ∷ [] }))

-- The answers to a leader of an earlier term and to a request for a pre-vote in one.
abbrev to_leader : ℕ → Message
to_leader to = record empty_message { to = to; type = msg_app_resp }

abbrev to_candidate : ℕ → ℕ → Message
to_candidate to t = record empty_message {
  to = to;
  type = msg_pre_vote_resp;
  reject = true;
  term = t;
}

answer_leader : (r : Raft) (to : ℕ) → send (to_leader to) r ≡ ret (tt, sending r (to_leader to))
unfolding send is_vote_type modify
answer_leader r to = refl

answer_pre_vote :
    (r : Raft) (to : ℕ)
    → (r.term == 0) ≡ false
    → send (to_candidate to r.term) r ≡ ret (tt, sending r (to_candidate to r.term))
unfolding send is_vote_type modify
answer_pre_vote r to h = rw h refl

sending-Answered : (r : Raft) (m : Message) → Answered r (sending r m)
sending-Answered r m = inr (stamped r m, ground arith, refl)

step_earlier_lem :
    (m : Message) (r : Raft)
    → (r.term == 0) ≡ false
    → (s : Raft) × (step_earlier m r ≡ ret (tt, s)) × Answered r s
unfolding step_earlier ◌>>=◌ gets pure
step_earlier_lem m r h =
    elim (Bool-cases (
      (r.check_quorum || r.pre_vote)
      && (same_type m.type msg_heartbeat || same_type m.type msg_app))) [
        | inl e ↦ (
          sending r (to_leader m.from),
          rw e (answer_leader r m.from),
          sending-Answered r (to_leader m.from),
        )
        | inr e ↦ elim (Bool-cases (same_type m.type msg_pre_vote)) [
          | inl p ↦ (
            sending r (to_candidate m.from r.term),
            rw (e, p) (answer_pre_vote r m.from h),
            sending-Answered r (to_candidate m.from r.term),
          )
          | inr p ↦ (r, rw (e, p) refl, inl refl)
        ]
      ]

-- A message of a term other than 0 that is earlier than the node's is done with: `step` returns
-- with an ok status, and the node is as it was, or it has one message more to send, which is from
-- it.
pub step_earlier_term :
    (m : Message) (r : Raft)
    → m.term ≢ 0
    → m.term < r.term
    → (s : Raft) × (step m r ≡ ret (ok, s)) × Answered r s
unfolding step ◌>>=◌ gets pure
step_earlier_term m r n h =
    let a : (m.term == 0) ≡ false = ground arith in
    let b : ltb r.term m.term ≡ false = ground arith in
    let c : ltb m.term r.term ≡ true = ground arith in
    let (s, e, d) = step_earlier_lem m r (ground arith) in (s, rw (a, b, c, e) refl, d)
