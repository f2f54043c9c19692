-- ===== src/Raft/Step.antt =====
-- `step` of raft-kv/raft/raft.cpp, and the step functions of followers and candidates.
use raft_etcd.Common.{
  ℕ, Bool, true, false, not, ◌&&◌, ◌||◌, List, [], ◌∷◌, or_fatal, ltb, ◌==◌, length, get_elem?,
  add64, sub64, max64, if◌then◌else◌,
}
use raft_etcd.Common.Maps.{same_bytes}
use raft_etcd.Proto.{
  MessageType, msg_hup, msg_prop, msg_app, msg_app_resp, msg_vote, msg_vote_resp, msg_snap,
  msg_heartbeat, msg_transfer_leader, msg_timeout_now, msg_read_index, msg_read_index_resp,
  msg_pre_vote, msg_pre_vote_resp, Message, empty_message, same_type,
}
use raft_etcd.Status.{Status, ok, is_ok}
use raft_etcd.RaftLog
use raft_etcd.Raft.State.{
  Raft, RaftState, pre_candidate, is_leader, quorum, StepFn, as_follower, as_candidate, as_leader,
}
use raft_etcd.Raft.Exec.{Exec, ◌>>=◌, ◌>>◌, pure, throw, gets, modify, query, lift, when}
use raft_etcd.Raft.Progresses.{promotable}
use raft_etcd.Raft.Send.{send}
use raft_etcd.Raft.Replicate.{bcast_append}
use raft_etcd.Raft.Roles.{become_follower, become_leader, step_down}
use raft_etcd.Raft.Election.{
  pre_election, election, transfer, poll, campaign, num_of_pending_conf, handle_vote,
}
use raft_etcd.Raft.Leader
use raft_etcd.Raft.Leader.{dropped, push_read_state}
use raft_etcd.Raft.Follower.{handle_append_entries, handle_heartbeat, handle_snapshot}

-- The bytes of `kCampaignTransfer`.
abbrev pub campaign_transfer : List ℕ
campaign_transfer =
    b'k' ∷ b'C' ∷ b'a' ∷ b'm' ∷ b'p' ∷ b'a' ∷ b'i' ∷ b'g' ∷ b'n' ∷ b'T' ∷ b'r' ∷ b'a' ∷ b'n' ∷ b's'
    ∷ b'f' ∷ b'e' ∷ b'r' ∷ []

abbrev pub is_pre_candidate : RaftState → Bool
is_pre_candidate pre_candidate = true
is_pre_candidate _ = false

unfoldable pub take_lead : Exec (Unit {0})
take_lead = do become_leader; bcast_append

unfoldable pub win : Exec (Unit {0})
win = do pre ← gets (λ r. is_pre_candidate r.state); if pre then campaign election else take_lead

-- The case of MsgPreVoteResp and MsgVoteResp: both count, in either role.
unfoldable pub handle_vote_resp : Message → Exec (Unit {0})
handle_vote_resp m = do
  gr ← poll m.from (not m.reject)
  q ← gets quorum
  total ← gets (λ r. length r.votes)
  if q == gr then win else if q == sub64 total gr then step_down else pure tt

unfoldable pub step_candidate : MessageType → Message → Exec Status
step_candidate msg_prop m = pure dropped
step_candidate msg_app m = do become_follower m.term m.from; handle_append_entries m; pure ok
step_candidate msg_heartbeat m = do become_follower m.term m.from; handle_heartbeat m; pure ok
step_candidate msg_snap m = do become_follower m.term m.from; handle_snapshot m; pure ok
step_candidate msg_pre_vote_resp m = do handle_vote_resp m; pure ok
step_candidate msg_vote_resp m = do handle_vote_resp m; pure ok
step_candidate _ m = pure ok

unfoldable pub hear_leader : Message → Exec (Unit {0})
hear_leader m = modify (λ r. record r { election_elapsed = 0; lead = m.from })

-- A message that is for the leader goes there, or is dropped without one.
unfoldable pub forward : Message → Exec (Unit {0})
forward m = do
  lead ← gets (λ r. r.lead)
  if lead == 0 then pure tt else send (record m { to = lead })

unfoldable pub follower_prop : Message → Exec Status
follower_prop m = do
  lead ← gets (λ r. r.lead)
  disabled ← gets (λ r. r.disable_proposal_forwarding)
  if lead == 0 || disabled then pure dropped else (do send (record m { to = lead }); pure ok)

unfoldable pub handle_timeout_now : Exec (Unit {0})
handle_timeout_now = do able ← gets promotable; when able (campaign transfer)

unfoldable pub read_index_resp : Message → Exec (Unit {0})
read_index_resp m =
    if not (length m.entries == 1)
    then pure tt
    else do e ← lift (or_fatal (get_elem? m.entries 0)); push_read_state m.index e.payload

unfoldable pub step_follower : MessageType → Message → Exec Status
step_follower msg_prop m = follower_prop m
step_follower msg_app m = do hear_leader m; handle_append_entries m; pure ok
step_follower msg_heartbeat m = do hear_leader m; handle_heartbeat m; pure ok
step_follower msg_snap m = do hear_leader m; handle_snapshot m; pure ok
step_follower msg_transfer_leader m = do forward m; pure ok
step_follower msg_timeout_now m = do handle_timeout_now; pure ok
step_follower msg_read_index m = do forward m; pure ok
step_follower msg_read_index_resp m = do read_index_resp m; pure ok
step_follower _ m = pure ok

-- The campaign of a tick.
unfoldable pub campaign_on_tick : Exec (Unit {0})
campaign_on_tick = do
  pre ← gets (λ r. r.pre_vote)
  campaign (if pre then pre_election else election)

-- The campaign waits for the changes of the configuration that are not applied.
unfoldable pub campaign_if_ready : Exec (Unit {0})
campaign_if_ready = do
  applied ← gets (λ r. r.raft_log.applied)
  committed ← gets (λ r. r.raft_log.committed)
  found ← query (RaftLog.slice (add64 applied 1) (add64 committed 1) max64)
  if not (is_ok found.0)
      then throw
      else if ltb 0 (num_of_pending_conf found.1) && ltb applied committed
      then pure tt
      else campaign_on_tick

-- The case of MsgHup.
unfoldable pub handle_hup : Exec (Unit {0})
handle_hup = do
  leading ← gets (λ r. is_leader r.state)
  if leading then pure tt else campaign_if_ready

unfoldable pub run_step : StepFn → Message → Exec Status
run_step as_follower m = step_follower m.type m
run_step as_candidate m = step_candidate m.type m
run_step as_leader m = Leader.step_leader m

-- The second half of `step`, for a message of the current term or a local one, by its type.
unfoldable pub dispatch : MessageType → Message → Exec Status
dispatch msg_hup m = do handle_hup; pure ok
dispatch msg_vote m = do handle_vote m; pure ok
dispatch msg_pre_vote m = do handle_vote m; pure ok
dispatch _ m = do fn ← gets (λ r. r.step_fn); run_step fn m

-- A request for a vote is ignored while the leader is known to be there.
abbrev pub ignores_vote : Raft → Message → Bool
ignores_vote r m =
    (same_type m.type msg_vote || same_type m.type msg_pre_vote)
    && not (same_bytes m.context campaign_transfer)
    && (r.check_quorum && not (r.lead == 0) && ltb r.election_elapsed r.election_timeout)

-- A later term is adopted, except from a pre-vote and from the consent to one.
unfoldable pub adopt_term : MessageType → Message → Exec (Unit {0})
adopt_term msg_pre_vote m = pure tt
adopt_term msg_pre_vote_resp m = if m.reject then become_follower m.term 0 else pure tt
adopt_term msg_app m = become_follower m.term m.from
adopt_term msg_heartbeat m = become_follower m.term m.from
adopt_term msg_snap m = become_follower m.term m.from
adopt_term _ m = become_follower m.term 0

unfoldable pub step_later : Message → Exec Status
step_later m = do
  ignored ← gets (λ r. ignores_vote r m)
  if ignored then pure ok else (do adopt_term m.type m; dispatch m.type m)

-- A message of an earlier term.
unfoldable pub step_earlier : Message → Exec (Unit {0})
step_earlier m = do
  checks ← gets (λ r. r.check_quorum || r.pre_vote)
  t ← gets (λ r. r.term)
  if checks && (same_type m.type msg_heartbeat || same_type m.type msg_app)
      then send (record empty_message { to = m.from; type = msg_app_resp })
      else if same_type m.type msg_pre_vote
      then send
          (record empty_message { to = m.from; type = msg_pre_vote_resp; reject = true; term = t })
      else pure tt

-- The messages that come from the leader of their term.
abbrev pub from_leader : MessageType → Bool
from_leader msg_app = true
from_leader msg_heartbeat = true
from_leader msg_snap = true
from_leader _ = false

unfoldable pub step : Message → Exec Status
step m = do
  t ← gets (λ r. r.term)
  if m.term == 0
      then dispatch m.type m
      else if ltb t m.term
      then step_later m
      else if ltb m.term t
      then (do step_earlier m; pure ok)
      else dispatch m.type m
