-- ===== src/Raft/Still/Roles.antt =====
-- `reset` and the changes of role of raft-kv/raft/raft.cpp: a new term starts without a vote, and the
-- same term keeps its vote.
use raft_etcd.Common.{ℕ, ◌≡◌, ◌≢◌, refl, ◌∙◌, arith, ◌==◌, Bool-cases, inl, inr, sym}
use raft_etcd.Raft.State.{Raft, StepFn, as_follower}
use raft_etcd.Raft.Exec.{Exec, ◌>>=◌, modify}
use raft_etcd.Raft.Keeps.{Keeps, Holds, Holds-bind, Holds-weaken, Holds-gets}
use raft_etcd.Raft.Still.{Still, Still-trans, Still-refl, Apart}
use raft_etcd.Raft.Still.Sending.{sending_rules}
use raft_etcd.Raft.Still.Replicating.{replicating_rules}
use raft_etcd.Raft.Roles.{
  reset_randomized_election_timeout, set_term, clear_leader, reset, become_follower,
  become_pre_candidate, restart, step_down, own_replicates, become_leader,
}

-- The node is in the term `t`, with the vote that it had if that is no new term.
pub record Adopts (t : ℕ) (r s : Raft) : Type 0 where
  pub id : s.id ≡ r.id
  pub term : s.term ≡ t
  pub same : r.term ≡ t → s.vote ≡ r.vote
  pub fresh : r.term ≢ t → s.vote ≡ 0
  pub rest : Still r (record s { term = r.term; vote = r.vote })

-- What is the same but for the term and the vote, which `s` has too.
keep_under :
    (t v : ℕ) (r s : Raft)
    → Still r s
    → Still (record r { term = t; vote = v }) (record s { term = t; vote = v })
keep_under t v r s h = record {
  id = h.id;
  term = refl;
  vote = refl;
  log = h.log;
  sent = h.sent;
  msgs = h.msgs;
  from = h.from;
}

Adopts-Still : (t : ℕ) (r s u : Raft) → Adopts t r s → Still s u → Adopts t r u
Adopts-Still t r s u a h = record {
  id = h.id ∙ a.id;
  term = h.term ∙ a.term;
  same = λ e. h.vote ∙ a.same e;
  fresh = λ e. h.vote ∙ a.fresh e;
  rest = Still-trans r _ _ a.rest (keep_under r.term r.vote s u h);
}

under_own : (r s : Raft) → Still r s → Still r (record s { term = r.term; vote = r.vote })
under_own r s h = record {
  id = h.id;
  term = refl;
  vote = refl;
  log = h.log;
  sent = h.sent;
  msgs = h.msgs;
  from = h.from;
}

Still-Adopts : (t : ℕ) (r s u : Raft) → Still r s → Adopts t s u → Adopts t r u
Still-Adopts t r s u h a = record {
  id = a.id ∙ h.id;
  term = a.term;
  same = λ e. a.same (h.term ∙ e) ∙ h.vote;
  fresh = λ e. a.fresh (λ d. e (sym h.term ∙ d));
  rest = Still-trans r _ _ (under_own r s h) (keep_under r.term r.vote _ _ a.rest);
}

set_term-Adopts : (t : ℕ) (r : Raft) → Adopts t r (set_term t r)
set_term-Adopts t r = elim (Bool-cases (r.term == t)) [
  | inl e ↦ rw e record {
    id = refl;
    term = ground arith;
    same = λ _. refl;
    fresh = λ d. ground arith;
    rest = under_own r r (Still-refl r);
  }
  | inr e ↦ rw e record {
    id = refl;
    term = refl;
    same = λ d. ground arith;
    fresh = λ _. refl;
    rest = under_own r r (Still-refl r);
  }
]

reset_randomized_election_timeout-Still : Keeps Still reset_randomized_election_timeout
unfolding reset_randomized_election_timeout
reset_randomized_election_timeout-Still = search sending_rules

clear_leader-Apart : (last : ℕ) (r : Raft) → Apart r (clear_leader last r)
clear_leader-Apart last r = record { id = refl; term = refl; vote = refl; log = refl; msgs = refl }

-- A method that adopts a term, then others that leave it alone.
adopt_then :
    {A B : Type 0} (t : ℕ) (m : Exec A) (f : A → Exec B) (r : Raft)
    → Holds (Adopts t r) (m r)
    → ((a : A) → Keeps Still (f a))
    → Holds (Adopts t r) ((m >>= f) r)
adopt_then t m f r h k =
    Holds-bind (Adopts t r) (Adopts t r) m f r h λ a s d.
      Holds-weaken (Still s) (Adopts t r) (f a s) (λ u. Adopts-Still t r s u d) ((k a).at s)

set_term_at : (t : ℕ) (r : Raft) → Holds (Adopts t r) (modify (set_term t) r)
unfolding modify
set_term_at t r = set_term-Adopts t r

pub reset-Adopts : (t : ℕ) (r : Raft) → Holds (Adopts t r) (reset t r)
unfolding reset
reset-Adopts t r = adopt_then t (modify (set_term t)) _ r (set_term_at t r) (λ _.
    search (sending_rules, reset_randomized_election_timeout-Still, clear_leader-Apart) depth 12)

-- A method that leaves the term alone, then one that adopts a term.
adopt_after :
    {A B : Type 0} (t : ℕ) (m : Exec A) (f : A → Exec B) (r : Raft)
    → Holds (Still r) (m r)
    → ((s : Raft) (a : A) → Holds (Adopts t s) (f a s))
    → Holds (Adopts t r) ((m >>= f) r)
adopt_after t m f r h k =
    Holds-bind (Still r) (Adopts t r) m f r h
      λ a s d. Holds-weaken (Adopts t s) (Adopts t r) (f a s) (λ u. Still-Adopts t r s u d) (k s a)

pub as_role_Still : (fn : StepFn) → Keeps Still (modify (λ r. record r { step_fn = fn }))
as_role_Still fn = search sending_rules

pub become_follower-Adopts : (t lead : ℕ) (r : Raft) → Holds (Adopts t r) (become_follower t lead r)
unfolding become_follower
become_follower-Adopts t lead r =
    adopt_after t _ _ r ((as_role_Still as_follower).at r)
      λ s _. adopt_then t (reset t) _ s (reset-Adopts t s) (λ _. search sending_rules)

-- In its own term a node adopts nothing.
own_term_kept : (r s : Raft) → Adopts r.term r s → Still r s
own_term_kept r s a = record {
  id = a.id;
  term = a.term;
  vote = a.same refl;
  log = a.rest.log;
  sent = a.rest.sent;
  msgs = a.rest.msgs;
  from = a.rest.from;
}

own_replicates-Still : Keeps Still own_replicates
unfolding own_replicates
own_replicates-Still = search sending_rules depth 9

pub step_down-Still : Keeps Still step_down
unfolding step_down
step_down-Still = record {
  at = λ r. Holds-gets (Still r) _ _ r (
      Holds-weaken (Adopts r.term r) (Still r) _ (own_term_kept r)
        (become_follower-Adopts r.term 0 r));
}

restart-Still : Keeps Still restart
unfolding restart
restart-Still = record {
  at = λ r.
      Holds-gets (Still r) _ _ r
        (Holds-weaken (Adopts r.term r) (Still r) _ (own_term_kept r) (reset-Adopts r.term r));
}

pub become_leader-Still : Keeps Still become_leader
unfolding become_leader
become_leader-Still = search (replicating_rules, own_replicates-Still, restart-Still) depth 20

pub become_pre_candidate-Still : Keeps Still become_pre_candidate
unfolding become_pre_candidate
become_pre_candidate-Still = search sending_rules depth 9
