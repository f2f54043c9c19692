-- ===== src/Raft/Membership.antt =====
-- Changes of the configuration in raft-kv/raft/raft.cpp, and what is read of it.
use raft_etcd.Common.{
  ℕ, Bool, true, false, not, ◌&&◌, ◌||◌, List, ◌==◌, add64, is_empty, if◌then◌else◌,
}
use raft_etcd.Common.Maps.{put, erase, keys, nat_keys}
use raft_etcd.Proto.{HardState}
use raft_etcd.Progress.{Progress}
use raft_etcd.RaftLog
use raft_etcd.Raft.State.{Raft, RaftState, is_leader}
use raft_etcd.Raft.Exec.{Exec, ◌>>=◌, ◌>>◌, pure, gets, modify, query, when, on_some}
use raft_etcd.Raft.Progresses.{
  get_progress, progress_of, update_progress, set_progress, del_progress,
}
use raft_etcd.Raft.Send.{abort_leader_transfer}
use raft_etcd.Raft.Commit.{maybe_commit, sort}
use raft_etcd.Raft.Replicate.{bcast_append}

-- A learner that becomes a voter keeps its progress.
unfoldable pub promote : ℕ → Progress → Raft → Raft
promote id pr r = record r {
  learner_prs = erase id r.learner_prs;
  prs = put id (record pr { is_learner = false }) r.prs;
}

-- The end of `add_node_or_learner`: a new node counts as active.
unfoldable pub mark_added : ℕ → Bool → Exec (Unit {0})
mark_added id is_learner = do
  own ← gets (λ r. r.id)
  when (own == id) (modify (λ r. record r { is_learner = is_learner }))
  pr ← progress_of id
  update_progress id (record pr { recent_active = true })

abbrev same_role : Bool → Bool → Bool
same_role true b = b
same_role false b = not b

-- A node that is not there yet.
unfoldable pub add_new : ℕ → Bool → Exec (Unit {0})
add_new id is_learner = do
  last ← query RaftLog.last_index
  set_progress id 0 (add64 last 1) is_learner
  mark_added id is_learner

-- One that is: only a learner changes its role.
unfoldable pub add_known : ℕ → Bool → Progress → Exec (Unit {0})
add_known id is_learner pr =
    if is_learner && not pr.is_learner || same_role is_learner pr.is_learner
    then pure tt
    else (do modify (promote id pr); mark_added id is_learner)

unfoldable pub add_node_or_learner : ℕ → Bool → Exec (Unit {0})
add_node_or_learner id is_learner = do
  found ← gets (get_progress id)
  on_some found (add_new id is_learner) (add_known id is_learner)

abbrev pub add_node : ℕ → Exec (Unit {0})
add_node id = add_node_or_learner id false

unfoldable pub remove_node : ℕ → Exec (Unit {0})
remove_node id = do
  del_progress id
  alone ← gets (λ r. is_empty r.prs && is_empty r.learner_prs)
  if alone then pure tt else do
    committed ← maybe_commit
    when committed bcast_append
    target ← gets (λ r. is_leader r.state && r.lead_transferee == id)
    when target abort_leader_transfer

-- `nodes` and `learner_nodes`.
unfoldable pub nodes : Raft → List ℕ
nodes r = sort (keys r.prs)

unfoldable pub learner_nodes : Raft → List ℕ
learner_nodes r = sort (keys r.learner_prs)

-- `soft_state` and `hard_state`.
pub record SoftState : Type 0 where
  pub lead : ℕ
  pub state : RaftState

unfoldable pub soft_state : Raft → SoftState
soft_state r = record { lead = r.lead; state = r.state }

unfoldable pub hard_state : Raft → HardState
hard_state r = record { term = r.term; vote = r.vote; commit = r.raft_log.committed }
