-- ===== src/Raft/Still/Onward.antt =====
-- What a message of any kind leaves true of a node in raft-kv/raft/raft.cpp: terms go up, and in one
-- term there is one vote.
use raft_etcd.Common.{ℕ, ◌≡◌, ◌≢◌, ◌≤◌, ◌∙◌, sym, subst, arith, List, ◌++◌, ap}
use raft_etcd.Proto.{Message}
use raft_etcd.RaftLog.Advance
use raft_etcd.RaftLog.Advance.{Advances}
use raft_etcd.Raft.State.{Raft}
use raft_etcd.Raft.Exec.{Exec, ◌>>=◌}
use raft_etcd.Raft.Keeps.{Keeps, Preorder, Holds, Holds-bind, Holds-weaken}
use raft_etcd.Raft.Still.{Still, Still-refl, From, From-append}
use raft_etcd.Raft.Still.Roles.{Adopts}
use mathlib.Core.List.{append_assoc}

-- The node keeps its name, its term does not go back, a vote stands for the rest of its term, the log
-- advances, and the messages that are added are from the node.
pub record Onward (r s : Raft) : Type 0 where
  pub id : s.id ≡ r.id
  pub term : r.term ≤ s.term
  pub vote : r.term ≡ s.term → r.vote ≢ 0 → s.vote ≡ r.vote
  pub log : Advances r.raft_log s.raft_log
  pub sent : List Message
  pub msgs : s.msgs ≡ r.msgs ++ sent
  pub from : From r.id sent

term_le : (t u : ℕ) → u ≡ t → t ≤ u
term_le t u e = omega arith

pub Still-Onward : (r s : Raft) → Still r s → Onward r s
Still-Onward r s h = record {
  id = h.id;
  term = term_le r.term s.term h.term;
  vote = λ _ _. h.vote;
  log = h.log;
  sent = h.sent;
  msgs = h.msgs;
  from = h.from;
}

term_trans : (a b c : ℕ) → a ≤ b → b ≤ c → a ≤ c
term_trans a b c h k = omega arith

term_between : (a b c : ℕ) → a ≤ b → b ≤ c → a ≡ c → a ≡ b
term_between a b c h k e = omega arith

pub Onward-trans : (r s t : Raft) → Onward r s → Onward s t → Onward r t
Onward-trans r s t a b = record {
  id = b.id ∙ a.id;
  term = term_trans r.term s.term t.term a.term b.term;
  vote = λ e n.
      let d : r.term ≡ s.term = term_between r.term s.term t.term a.term b.term e in
      let v : s.vote ≡ r.vote = a.vote d n in b.vote (sym d ∙ e) (λ z. n (sym v ∙ z)) ∙ v;
  log = Advance.Advances-trans a.log b.log;
  sent = a.sent ++ b.sent;
  msgs = b.msgs ∙ ap (λ ms. ms ++ b.sent) a.msgs ∙ append_assoc r.msgs a.sent b.sent;
  from = From-append r.id a.sent b.sent a.from (subst (λ i. From i b.sent) a.id b.from);
}

pub onward : Preorder Onward
onward = record { reflexive = λ r. Still-Onward r r (Still-refl r); transitive = Onward-trans }

pub Keeps-Onward : {A : Type 0} (m : Exec A) → Keeps Still m → Keeps Onward m
Keeps-Onward m h = record {
  at = λ r. Holds-weaken (Still r) (Onward r) (m r) (Still-Onward r) (h.at r);
}

pub Adopts-Onward : (t : ℕ) (r s : Raft) → r.term ≤ t → Adopts t r s → Onward r s
Adopts-Onward t r s h a = record {
  id = a.id;
  term = subst (λ u. r.term ≤ u) (sym a.term) h;
  vote = λ e _. a.same (e ∙ a.term);
  log = a.rest.log;
  sent = a.rest.sent;
  msgs = a.rest.msgs;
  from = a.rest.from;
}

-- A method that leaves the term alone, then a method from where that has led.
pub go_on :
    {A B : Type 0} (m : Exec A) (f : A → Exec B) (r : Raft)
    → Holds (Still r) (m r)
    → ((a : A) (s : Raft) → s.term ≡ r.term → Holds (Onward s) (f a s))
    → Holds (Onward r) ((m >>= f) r)
go_on m f r h k = Holds-bind (Still r) (Onward r) m f r h λ a s d.
    Holds-weaken (Onward s) (Onward r) (f a s) (λ u. Onward-trans r s u (Still-Onward r s d))
      (k a s d.term)
