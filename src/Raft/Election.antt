-- ===== src/Raft/Election.antt =====
-- Elections in raft-kv/raft/raft.cpp: the votes of a candidate, `campaign`, and the answers to the
-- requests of other candidates.
use raft_etcd.Common.{
  ℕ, ◌+◌, Bool, true, ◌&&◌, ◌||◌, none, some, List, [], ◌∷◌, ltb, ◌==◌, add64, to_u32,
  if◌then◌else◌,
}
use raft_etcd.Common.Maps.{find, put, keys, nat_keys}
use raft_etcd.Proto.{
  MessageType, msg_vote, msg_pre_vote, Message, empty_message, same_type, Entry, entry_conf_change,
}
use raft_etcd.Util.{vote_resp_msg_type}
use raft_etcd.RaftLog
use raft_etcd.Raft.State.{Raft, quorum}
use raft_etcd.Raft.Exec.{Exec, ◌>>=◌, ◌>>◌, pure, gets, modify, query, lift, when}
use raft_etcd.Raft.Progresses.{for_each}
use raft_etcd.Raft.Send.{send, unless_self}
use raft_etcd.Raft.Roles.{become_candidate, become_pre_candidate, become_leader}

-- `kCampaignPreElection`, `kCampaignElection` and `kCampaignTransfer`.
pub data CampaignType : Type 0 where
  pre_election election transfer : CampaignType

unfoldable pub granted : List (ℕ × Bool) → ℕ
granted [] = 0
granted ((id, v) ∷ vs) = if v then granted vs + 1 else granted vs

-- The first answer of a node counts.
abbrev pub record_vote : ℕ → Bool → List (ℕ × Bool) → List (ℕ × Bool)
record_vote id v vs = elim (find id vs) [ some _ ↦ vs | none ↦ put id v vs ]

unfoldable pub poll : ℕ → Bool → Exec ℕ
poll id v = do
  modify (λ r. record r { votes = record_vote id v r.votes })
  gets (λ r. to_u32 (granted r.votes))

-- A request for a vote. The context that the source prepares for a transfer stays out of the message.
unfoldable pub request_vote : MessageType → ℕ → ℕ → Exec (Unit {0})
request_vote vote_msg t to = do
  last ← query RaftLog.last_index
  last_term ← query RaftLog.last_term
  send (record empty_message {
    term = t;
    to = to;
    type = vote_msg;
    index = last;
    log_term = last_term;
  })

-- The requests to the other members.
unfoldable pub request_votes : MessageType → ℕ → Exec (Unit {0})
request_votes vote_msg t = do
  ids ← gets (λ r. keys r.prs)
  for_each ids (unless_self (request_vote vote_msg t))

-- `campaign` once the role is taken: the own vote, then `won` on a quorum, or the requests.
unfoldable pub run_campaign : Exec (Unit {0}) → MessageType → ℕ → Exec (Unit {0})
run_campaign won vote_msg t = do
  resp ← lift (vote_resp_msg_type vote_msg)
  own ← gets (λ r. r.id)
  gr ← poll own true
  q ← gets quorum
  if q == gr then won else request_votes vote_msg t

-- `campaign` of an election or of a transfer.
unfoldable pub campaign_vote : Exec (Unit {0})
campaign_vote = do become_candidate; t ← gets (λ r. r.term); run_campaign become_leader msg_vote t

unfoldable pub campaign : CampaignType → Exec (Unit {0})
campaign pre_election = do
  become_pre_candidate
  t ← gets (λ r. r.term)
  run_campaign campaign_vote msg_pre_vote (add64 t 1)
campaign election = campaign_vote
campaign transfer = campaign_vote

-- `num_of_pending_conf`.
unfoldable pub num_of_pending_conf : List Entry → ℕ
num_of_pending_conf [] = 0
num_of_pending_conf (e ∷ es) =
    if e.type == entry_conf_change then num_of_pending_conf es + 1 else num_of_pending_conf es

-- The vote has been given to the sender, or to nobody, or it is a pre-vote for a later term.
abbrev pub can_vote : Raft → Message → Bool
can_vote r m =
    r.vote == m.from
    || r.vote == 0 && r.lead == 0
    || same_type m.type msg_pre_vote && ltb r.term m.term

-- The vote is recorded, unless it is a pre-vote.
unfoldable pub grant_vote : Message → Exec (Unit {0})
grant_vote m = do
  resp ← lift (vote_resp_msg_type m.type)
  send (record empty_message { to = m.from; term = m.term; type = resp })
  when (same_type m.type msg_vote) (modify (λ r. record r { election_elapsed = 0; vote = m.from }))

unfoldable pub reject_vote : Message → Exec (Unit {0})
reject_vote m = do
  resp ← lift (vote_resp_msg_type m.type)
  t ← gets (λ r. r.term)
  send (record empty_message { to = m.from; term = t; type = resp; reject = true })

unfoldable pub grant_or_reject : Message → Exec (Unit {0})
grant_or_reject m = do
  up_to_date ← query (RaftLog.is_up_to_date m.index m.log_term)
  if up_to_date then grant_vote m else reject_vote m

unfoldable pub answer_vote : Message → Exec (Unit {0})
answer_vote m = do
  free ← gets (λ r. can_vote r m)
  if free then grant_or_reject m else reject_vote m

-- The case of MsgVote and MsgPreVote of `step`.
unfoldable pub handle_vote : Message → Exec (Unit {0})
handle_vote m = do learner ← gets (λ r. r.is_learner); if learner then pure tt else answer_vote m
