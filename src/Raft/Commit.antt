-- ===== src/Raft/Commit.antt =====
-- `maybe_commit` of raft-kv/raft/raft.cpp: the commit index moves to what a quorum has.
use raft_etcd.Common.{
  ℕ, Bool, List, [], ◌∷◌, Outcome, or_fatal, leb, length, get_elem?, sub64, if◌then◌else◌,
}
use raft_etcd.Common.Maps.{nat_keys}
use raft_etcd.Progress.{Progress}
use raft_etcd.RaftLog
use raft_etcd.Raft.State.{Raft, quorum}
use raft_etcd.Raft.Exec.{Exec, ◌>>=◌, gets, lift, on_log}

-- `std::sort` of numbers.
unfoldable pub insert : ℕ → List ℕ → List ℕ
insert a [] = a ∷ []
insert a (b ∷ bs) = if leb a b then a ∷ b ∷ bs else b ∷ insert a bs

unfoldable pub sort : List ℕ → List ℕ
unfolding insert
sort [] = []
sort (a ∷ rest) = insert a (sort rest)

abbrev pub matches : List (ℕ × Progress) → List ℕ
matches [] = []
matches ((id, p) ∷ ps) = p.match ∷ matches ps

-- The match that the code picks: the one at `size - quorum` of the sorted ones.
unfoldable pub quorum_match : Raft → Outcome ℕ
unfolding sort
quorum_match r =
    let buf = sort (matches r.prs) in or_fatal (get_elem? buf (sub64 (length buf) (quorum r)))

unfoldable pub maybe_commit : Exec Bool
maybe_commit = do
  picked ← gets quorum_match
  mci ← lift picked
  t ← gets (λ r. r.term)
  on_log (RaftLog.maybe_commit mci t)
