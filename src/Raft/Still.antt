-- ===== src/Raft/Still.antt =====
-- What the methods of raft-kv/raft/raft.cpp that serve a term leave alone: the node's name, its term
-- and vote, the storage and the applied index. The commit index does not go back, and the messages
-- that they add are from the node.
pub mod Sending
pub mod Replicating
pub mod Leading
pub mod Following
pub mod Roles
pub mod Onward
pub mod Electing
pub mod Candidate
pub mod Stepping
pub mod Messages
pub mod Ticks
pub mod Runs
pub mod Votes
pub mod Earlier
use raft_etcd.Common.{
  ℕ, ◌≤◌, ◌≡◌, refl, sym, ap, ◌∙◌, subst, Bool, true, false, Option, none, some, List, [], ◌∷◌,
  ◌++◌, arith, ret, fatal, Outcome,
}
use raft_etcd.Common.Ensures.{Ensures}
use raft_etcd.Proto.{Message, Entry}
use raft_etcd.RaftLog
use raft_etcd.RaftLog.{RaftLog}
use raft_etcd.RaftLog.Advance
use raft_etcd.RaftLog.Advance.{
  Advances, append-Advances, commit_to-Advances, maybe_commit-Advances, maybe_append-Advances,
}
use raft_etcd.Raft.State.{Raft}
use raft_etcd.Raft.Keeps.{Preorder}
use mathlib.Core.List.{append_assoc, append-nil}

-- Every message of a list is from the node.
abbrev pub From : ℕ → List Message → Type 0
From id [] = Unit
From id (m ∷ ms) = (m.from ≡ id) × From id ms

pub From-append : (id : ℕ) (ms ns : List Message) → From id ms → From id ns → From id (ms ++ ns)
From-append id [] ns h k = k
From-append id (m ∷ ms) ns h k = (h.0, From-append id ms ns h.1 k)

pub record Still (r s : Raft) : Type 0 where
  pub id : s.id ≡ r.id
  pub term : s.term ≡ r.term
  pub vote : s.vote ≡ r.vote
  pub log : Advances r.raft_log s.raft_log
  pub sent : List Message
  pub msgs : s.msgs ≡ r.msgs ++ sent
  pub from : From r.id sent

pub Still-refl : (r : Raft) → Still r r
Still-refl r = record {
  id = refl;
  term = refl;
  vote = refl;
  log = Advance.Advances-refl r.raft_log;
  sent = [];
  msgs = sym (append-nil r.msgs);
  from = tt;
}

pub Still-trans : (r s t : Raft) → Still r s → Still s t → Still r t
Still-trans r s t a b = record {
  id = b.id ∙ a.id;
  term = b.term ∙ a.term;
  vote = b.vote ∙ a.vote;
  log = Advance.Advances-trans a.log b.log;
  sent = a.sent ++ b.sent;
  msgs = b.msgs ∙ ap (λ ms. ms ++ b.sent) a.msgs ∙ append_assoc r.msgs a.sent b.sent;
  from = From-append r.id a.sent b.sent a.from (subst (λ i. From i b.sent) a.id b.from);
}

pub still : Preorder Still
still = record { reflexive = Still-refl; transitive = Still-trans }

-- A change of other members only.
pub record Apart (r s : Raft) : Type 0 where
  pub id : s.id ≡ r.id
  pub term : s.term ≡ r.term
  pub vote : s.vote ≡ r.vote
  pub log : s.raft_log ≡ r.raft_log
  pub msgs : s.msgs ≡ r.msgs

pub Apart-Still : (r s : Raft) → Apart r s → Still r s
Apart-Still r s a = record {
  id = a.id;
  term = a.term;
  vote = a.vote;
  log = subst (Advances r.raft_log) (sym a.log) (Advance.Advances-refl r.raft_log);
  sent = [];
  msgs = a.msgs ∙ sym (append-nil r.msgs);
  from = tt;
}

-- A change of the log that advances it.
pub log_Still :
    {A : Type 0} (r : Raft) (o : Outcome (A × RaftLog))
    → Ensures (λ x. Advances r.raft_log x.1) o
    → Ensures (λ x. Still r (record r { raft_log = x.1 })) o
log_Still r o h = record {
  at = λ x e. record {
    id = refl;
    term = refl;
    vote = refl;
    log = h.at x e;
    sent = [];
    msgs = sym (append-nil r.msgs);
    from = tt;
  };
}
