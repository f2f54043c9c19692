-- ===== src/Raft/Still/Runs.antt =====
-- What holds of a node of raft-kv/raft/raft.cpp over any run of calls of `step` and `tick`, in any order,
-- with messages of any kind.
use raft_etcd.Common.{◌≡◌, ◌≢◌, ◌≤◌, ◌<◌, true, false, ◌⊎◌, inl, inr, arith, ret, max64, List, ◌++◌}
use raft_etcd.Proto.{Message}
use raft_etcd.Status.{Status}
use raft_etcd.Raft.State.{Raft}
use raft_etcd.Raft.Keeps.{Holds-ret}
use raft_etcd.Raft.Step.{step, from_leader}
use raft_etcd.Raft.Tick.{tick}
use raft_etcd.Raft.Still.Ticks.{tick-Onward}
use raft_etcd.Raft.Still.{From}
use raft_etcd.Raft.Still.Onward.{Onward, onward, Onward-trans}
use raft_etcd.Raft.Still.Messages.{step-Onward}

-- Room in a term for one more, and a term in each message of a leader.
abbrev pub Sound : Message → Raft → Type 0
Sound m r = (r.term < max64) × (m.term < max64) × ((from_leader m.type ≡ false) ⊎ (m.term ≢ 0))

-- A run of calls that return. `start` and `step_on` take a node from `r` to `s`.
pub data Runs (r : Raft) : Raft → Type 0 where
  start : Runs r r
  step_on :
      {s t : Raft} (m : Message) (st : Status)
      → Runs r s
      → Sound m s
      → step m s ≡ ret (st, t)
      → Runs r t
  tick_on : {s t : Raft} → Runs r s → s.term < max64 → tick s ≡ ret (tt, t) → Runs r t

has_term :
    (m : Message)
    → ((from_leader m.type ≡ false) ⊎ (m.term ≢ 0))
    → from_leader m.type ≡ true
    → m.term ≢ 0
has_term m (inl f) e = absurd (ground (arith, f, e))
has_term m (inr n) e = n

step_to : (m : Message) (r s : Raft) (st : Status) → Sound m r → step m r ≡ ret (st, s) → Onward r s
step_to m r s st (h, k, n) e =
    Holds-ret (Onward r) (step m r) e (step-Onward m r h k (has_term m n))

pub Runs-Onward : {r s : Raft} → Runs r s → Onward r s
Runs-Onward {r} start = onward.reflexive r
Runs-Onward {r} {s = u} (step_on {s} m st d h e) =
    Onward-trans r s u (Runs-Onward d) (step_to m s u st h e)
Runs-Onward {r} {s = u} (tick_on {s} d h e) =
    Onward-trans r s u (Runs-Onward d) (Holds-ret (Onward s) (tick s) e (tick-Onward s h))

-- Over any run of calls of `step` and `tick` that return, from states and with messages whose
-- terms are below 2 ^ 64 - 1, and where each MsgApp, MsgHeartbeat and MsgSnap has a term: a vote
-- that the node has given stands as long as its term is the same, so it votes for one candidate
-- in a term at most.
pub one_vote : {r s : Raft} → Runs r s → r.term ≡ s.term → r.vote ≢ 0 → s.vote ≡ r.vote
one_vote d = (Runs-Onward d).vote

-- Over any run of calls of `step` and `tick` that return, from states and with messages whose
-- terms are below 2 ^ 64 - 1, and where each MsgApp, MsgHeartbeat and MsgSnap has a term: the
-- term and the commit index of a node do not go back, and neither its storage nor its applied
-- index changes.
pub runs_forward :
    {r s : Raft}
    → Runs r s
    → (r.term ≤ s.term)
      × (r.raft_log.committed ≤ s.raft_log.committed)
      × (s.raft_log.applied ≡ r.raft_log.applied)
      × (s.raft_log.storage ≡ r.raft_log.storage)
runs_forward d = let o = Runs-Onward d in (o.term, o.log.committed, o.log.applied, o.log.storage)

-- Over any run of calls of `step` and `tick` that return, from states and with messages whose
-- terms are below 2 ^ 64 - 1, and where each MsgApp, MsgHeartbeat and MsgSnap has a term: the
-- messages of before stay at the front of the ones to send, and each message that is added is
-- from the node.
pub runs_signed :
    {r s : Raft} → Runs r s → (sent : List Message) × (s.msgs ≡ r.msgs ++ sent) × From r.id sent
runs_signed d = let o = Runs-Onward d in (o.sent, o.msgs, o.from)
