-- ===== src/Raft/Roles.antt =====
-- `reset` and the changes of role of raft-kv/raft/raft.cpp.
use raft_etcd.Common.{
  ℕ, ◌+◌, Bool, true, false, not, List, [], ◌∷◌, leb, ◌==◌, ◌*◌, add32, add64, to_u32,
  if◌then◌else◌,
}
use raft_etcd.Common.Maps.{find, nat_keys}
use raft_etcd.Proto.{empty_entry}
use raft_etcd.Progress.{Progress, new_progress, become_replicate}
use raft_etcd.RaftLog
use raft_etcd.Raft.State.{
  Raft, RaftState, follower, candidate, leader, pre_candidate, is_leader, as_follower, as_candidate,
  as_leader, tick_election, tick_heartbeat,
}
use raft_etcd.Raft.Exec.{Exec, ◌>>=◌, ◌>>◌, pure, throw, gets, modify, query, on_some}
use raft_etcd.Raft.Progresses.{update_progress}
use raft_etcd.Raft.Send.{abort_leader_transfer}
use raft_etcd.Raft.Replicate.{append_entry, reduce_uncommitted_size}

-- `gen` returns a number; the assertion is on `uint32_t`.
unfoldable pub reset_randomized_election_timeout : Exec (Unit {0})
reset_randomized_election_timeout = do
  modify λ r. record r {
    randomized_election_timeout = add32 r.election_timeout (r.draws 0);
    draws = λ n. r.draws (n + 1);
  }
  fits ← gets λ r. leb r.randomized_election_timeout (to_u32 (2 * r.election_timeout))
  if fits then pure tt else throw

-- The progress that replaces `p` in a reset: `last` is the last index of the log.
unfoldable pub reset_progress : ℕ → ℕ → ℕ → ℕ → Progress → Progress
reset_progress own max_inflight last id p = record (new_progress max_inflight) {
  next = add64 last 1;
  is_learner = p.is_learner;
  match = if id == own then last else 0;
}

unfoldable pub reset_all : ℕ → ℕ → ℕ → List (ℕ × Progress) → List (ℕ × Progress)
reset_all own max_inflight last [] = []
reset_all own max_inflight last ((id, p) ∷ ps) =
    (id, reset_progress own max_inflight last id p) ∷ reset_all own max_inflight last ps

abbrev pub set_term : ℕ → Raft → Raft
set_term t r = if r.term == t then r else record r { term = t; vote = 0 }

abbrev pub clear_clocks : Raft → Raft
clear_clocks r = record r { lead = 0; election_elapsed = 0; heartbeat_elapsed = 0 }

abbrev pub clear_leader : ℕ → Raft → Raft
clear_leader last r = record r {
  prs = reset_all r.id r.max_inflight last r.prs;
  learner_prs = reset_all r.id r.max_inflight last r.learner_prs;
  pending_conf_index = 0;
  uncommitted_size = 0;
  read_only = record r.read_only { pending_read_index = []; read_index_queue = [] };
}

unfoldable pub reset : ℕ → Exec (Unit {0})
reset t = do
  modify (set_term t)
  modify clear_clocks
  reset_randomized_election_timeout
  abort_leader_transfer
  modify (λ r. record r { votes = [] })
  last ← query RaftLog.last_index
  modify (clear_leader last)

-- A reset in the node's own term.
unfoldable pub restart : Exec (Unit {0})
restart = do t ← gets (λ r. r.term); reset t

unfoldable pub become_follower : ℕ → ℕ → Exec (Unit {0})
become_follower t lead = do
  modify (λ r. record r { step_fn = as_follower })
  reset t
  modify (λ r. record r { tick_fn = tick_election; lead = lead; state = follower })

-- A follower in its own term, without a leader.
unfoldable pub step_down : Exec (Unit {0})
step_down = do t ← gets (λ r. r.term); become_follower t 0

-- `become_candidate` past its assertion.
unfoldable pub stand : Exec (Unit {0})
stand = do
  modify (λ r. record r { step_fn = as_candidate })
  t ← gets (λ r. r.term)
  reset (add64 t 1)
  modify (λ r. record r { tick_fn = tick_election; vote = r.id; state = candidate })

unfoldable pub become_candidate : Exec (Unit {0})
become_candidate = do leading ← gets (λ r. is_leader r.state); if leading then throw else stand

unfoldable pub become_pre_candidate : Exec (Unit {0})
become_pre_candidate = do
  leading ← gets (λ r. is_leader r.state)
  if leading
      then throw
      else modify λ r. record r {
        step_fn = as_candidate;
        votes = [];
        tick_fn = tick_election;
        lead = 0;
        state = pre_candidate;
      }

abbrev pub is_follower : RaftState → Bool
is_follower follower = true
is_follower _ = false

-- The own progress enters the replicate state; without one the assertion fails.
unfoldable pub own_replicates : Exec (Unit {0})
own_replicates = do
  own ← gets (λ r. r.id)
  found ← gets (λ r. find r.id r.prs)
  on_some found throw (λ p. update_progress own (become_replicate p))

unfoldable pub become_leader : Exec (Unit {0})
become_leader = do
  following ← gets (λ r. is_follower r.state)
  if following then throw else do
    modify (λ r. record r { step_fn = as_leader })
    restart
    modify (λ r. record r { tick_fn = tick_heartbeat; lead = r.id; state = leader })
    own_replicates
    last ← query RaftLog.last_index
    modify (λ r. record r { pending_conf_index = last })
    appended ← append_entry (empty_entry ∷ [])
    if not appended then throw else reduce_uncommitted_size (empty_entry ∷ [])
