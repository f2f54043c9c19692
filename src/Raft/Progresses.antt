-- ===== src/Raft/Progresses.antt =====
-- The maps of progresses of raft-kv/raft/raft.cpp. A `ProgressPtr` is shared only with the callers of
-- `get_progress`, so a write through it is a write to the map that holds it.
use raft_etcd.Common.{
  ℕ, Bool, true, false, not, Option, none, some, List, [], ◌∷◌, ◌++◌, leb, ◌==◌, add64, ◌&&◌,
  if◌then◌else◌,
}
use raft_etcd.Common.Maps.{find, put, erase, keys, has_key, nat_keys}
use raft_etcd.Progress.{Progress, new_progress}
use raft_etcd.Raft.State.{Raft, quorum}
use raft_etcd.Raft.Exec.{Exec, ◌>>=◌, ◌>>◌, pure, throw, gets, modify, on_some}

unfoldable pub get_progress : ℕ → Raft → Option Progress
get_progress id r = elim (find id r.prs) [ some p ↦ some p | none ↦ find id r.learner_prs ]

-- `get_progress(id)->…`; a null pointer there is undefined in the source.
unfoldable pub progress_of : ℕ → Exec Progress
progress_of id = do found ← gets (get_progress id); on_some found throw pure

-- A write through the pointer of `get_progress(id)`.
unfoldable pub set_pointee : ℕ → Progress → Raft → Raft
set_pointee id p r = elim (find id r.prs) [
  | some _ ↦ record r { prs = put id p r.prs }
  | none ↦ record r { learner_prs = put id p r.learner_prs }
]

unfoldable pub update_progress : ℕ → Progress → Exec (Unit {0})
update_progress id p = modify (set_pointee id p)

unfoldable pub fresh_progress : ℕ → ℕ → ℕ → Progress
fresh_progress max_inflight match next = record (new_progress max_inflight) {
  match = match;
  next = next;
}

unfoldable pub set_progress : ℕ → ℕ → ℕ → Bool → Exec (Unit {0})
unfolding fresh_progress
set_progress id match next false = modify λ r. record r {
  learner_prs = erase id r.learner_prs;
  prs = put id (fresh_progress r.max_inflight match next) r.prs;
}
set_progress id match next true = do
  voter ← gets (λ r. has_key id r.prs)
  if voter
      then throw
      else modify λ r. record r {
        learner_prs =
            put id (record (fresh_progress r.max_inflight match next) { is_learner = true })
              r.learner_prs;
      }

unfoldable pub del_progress : ℕ → Exec (Unit {0})
del_progress id =
    modify λ r. record r { prs = erase id r.prs; learner_prs = erase id r.learner_prs }

-- `promotable`.
unfoldable pub promotable : Raft → Bool
promotable r = has_key r.id r.prs

-- `for_each_progress` with a callback that may change the progresses but not the sets of nodes: the
-- nodes that it visits.
unfoldable pub all_ids : Raft → List ℕ
all_ids r = keys r.prs ++ keys r.learner_prs

unfoldable pub for_each : List ℕ → (ℕ → Exec (Unit {0})) → Exec (Unit {0})
for_each [] f = pure tt
for_each (id ∷ ids) f = do f id; for_each ids f

-- The progresses that count as active, the own one included.
active_count : ℕ → List (ℕ × Progress) → ℕ
active_count own [] = 0
active_count own ((id, p) ∷ ps) =
    let rest = active_count own ps in
    if id == own
    then add64 rest 1
    else if p.recent_active && not p.is_learner
    then add64 rest 1
    else rest

unfoldable pub check_quorum_active : Raft → Bool
unfolding active_count
check_quorum_active r = leb (quorum r) (active_count r.id (r.prs ++ r.learner_prs))
