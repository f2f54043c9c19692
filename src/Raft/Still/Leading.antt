-- ===== src/Raft/Still/Leading.antt =====
-- `step_leader` of raft-kv/raft/raft.cpp keeps the term, and so does a reset for the same term.
use raft_etcd.Common.{ℕ, Bool, List, [], ◌∷◌}
use raft_etcd.Proto.{
  MessageType, msg_beat, msg_prop, msg_app_resp, msg_heartbeat_resp, msg_unreachable,
  msg_snap_status, msg_check_quorum, msg_transfer_leader, msg_read_index, Message,
}
use raft_etcd.Progress.{Progress, ProgressState, probe, replicate, snapshot}
use raft_etcd.ReadOnly.{ReadIndexStatus, ReadOnlyOption, safe, lease_based}
use raft_etcd.Raft.Keeps.{Keeps, Keeps-pure, Keeps-bind}
use raft_etcd.Raft.Still.{Still, still}
use raft_etcd.Raft.Still.Replicating.{replicating_rules}
use raft_etcd.Raft.Still.Roles.{step_down-Still}
use raft_etcd.Raft.Leader.{
  push_read_state, read_by_lease, read_by_quorum, read_by, read_alone, handle_read_index,
  handle_prop, handle_snap_status, handle_unreachable, start_transfer, handle_transfer_leader,
  step_peer, step_known, handle_check_quorum, step_leader_by, step_leader,
}
use raft_etcd.Raft.Leader.Responses.{
  handle_rejection, progress_updated, send_more, handle_acceptance, handle_app_resp, answer_read,
  answer_reads, confirm_reads, freed, handle_heartbeat_resp,
}

handle_rejection-Still : (m : Message) (pr : Progress) → Keeps Still (handle_rejection m pr)
unfolding handle_rejection
handle_rejection-Still m pr = search replicating_rules depth 9

progress_updated-Still :
    (st : ProgressState) (i : ℕ) (pr : Progress) → Keeps Still (progress_updated st i pr)
unfolding progress_updated
progress_updated-Still probe i pr = search replicating_rules
progress_updated-Still replicate i pr = search replicating_rules
progress_updated-Still snapshot i pr = search replicating_rules

send_more-Still : (m : Message) (b : Bool) → Keeps Still (send_more m b)
unfolding send_more
send_more-Still m b = search replicating_rules depth 14

handle_acceptance-Still : (m : Message) (pr : Progress) → Keeps Still (handle_acceptance m pr)
unfolding handle_acceptance
handle_acceptance-Still m pr =
    search (replicating_rules, progress_updated-Still, send_more-Still) depth 9

pub handle_app_resp-Still : (m : Message) (pr : Progress) → Keeps Still (handle_app_resp m pr)
unfolding handle_app_resp
handle_app_resp-Still m pr =
    search (replicating_rules, handle_rejection-Still, handle_acceptance-Still)

answer_read-Still : (rs : ReadIndexStatus) → Keeps Still (answer_read rs)
unfolding answer_read
answer_read-Still rs = search replicating_rules depth 9

answer_reads-Still : (rss : List ReadIndexStatus) → Keeps Still (answer_reads rss)
unfolding answer_reads
answer_reads-Still [] = Keeps-pure still tt
answer_reads-Still (rs ∷ rss) =
    Keeps-bind still (answer_read rs) _ (answer_read-Still rs) (λ _. answer_reads-Still rss)

confirm_reads-Still : (m : Message) → Keeps Still (confirm_reads m)
unfolding confirm_reads
confirm_reads-Still m = search (replicating_rules, answer_reads-Still) depth 14

freed-Still : (st : ProgressState) (pr : Progress) → Keeps Still (freed st pr)
unfolding freed
freed-Still replicate pr = search replicating_rules
freed-Still probe pr = search replicating_rules
freed-Still snapshot pr = search replicating_rules

pub handle_heartbeat_resp-Still :
    (m : Message) (pr : Progress) → Keeps Still (handle_heartbeat_resp m pr)
unfolding handle_heartbeat_resp
handle_heartbeat_resp-Still m pr =
    search (replicating_rules, freed-Still, confirm_reads-Still) depth 9

pub handle_prop-Still : (m : Message) → Keeps Still (handle_prop m)
unfolding handle_prop
handle_prop-Still m = search replicating_rules depth 20

pub push_read_state-Still : (i : ℕ) (ctx : List ℕ) → Keeps Still (push_read_state i ctx)
unfolding push_read_state
push_read_state-Still i ctx = search replicating_rules

read_by-Still : (o : ReadOnlyOption) (m : Message) (c : ℕ) → Keeps Still (read_by o m c)
unfolding read_by read_by_quorum read_by_lease
read_by-Still safe m c = search replicating_rules depth 12
read_by-Still lease_based m c = search (replicating_rules, push_read_state-Still) depth 9

read_alone-Still : (m : Message) (c : ℕ) → Keeps Still (read_alone m c)
unfolding read_alone
read_alone-Still m c = search (replicating_rules, push_read_state-Still)

pub handle_read_index-Still : (m : Message) → Keeps Still (handle_read_index m)
unfolding handle_read_index
handle_read_index-Still m = search (replicating_rules, read_by-Still, read_alone-Still) depth 14

handle_snap_status-Still : (m : Message) (pr : Progress) → Keeps Still (handle_snap_status m pr)
unfolding handle_snap_status
handle_snap_status-Still m pr = search replicating_rules

handle_unreachable-Still : (m : Message) (pr : Progress) → Keeps Still (handle_unreachable m pr)
unfolding handle_unreachable
handle_unreachable-Still m pr = search replicating_rules

start_transfer-Still : (target : ℕ) (pr : Progress) → Keeps Still (start_transfer target pr)
unfolding start_transfer
start_transfer-Still target pr = search replicating_rules depth 9

handle_transfer_leader-Still :
    (m : Message) (pr : Progress) → Keeps Still (handle_transfer_leader m pr)
unfolding handle_transfer_leader
handle_transfer_leader-Still m pr = search (replicating_rules, start_transfer-Still) depth 12

step_peer-Still : (t : MessageType) (m : Message) (pr : Progress) → Keeps Still (step_peer t m pr)
unfolding step_peer
step_peer-Still msg_app_resp m pr = handle_app_resp-Still m pr
step_peer-Still msg_heartbeat_resp m pr = handle_heartbeat_resp-Still m pr
step_peer-Still msg_snap_status m pr = handle_snap_status-Still m pr
step_peer-Still msg_unreachable m pr = handle_unreachable-Still m pr
step_peer-Still msg_transfer_leader m pr = handle_transfer_leader-Still m pr
step_peer-Still _ m pr = search replicating_rules

pub step_known-Still : (m : Message) → Keeps Still (step_known m)
unfolding step_known
step_known-Still m = search (replicating_rules, step_peer-Still) depth 9

handle_check_quorum-Still : Keeps Still handle_check_quorum
unfolding handle_check_quorum
handle_check_quorum-Still = search (replicating_rules, step_down-Still)

step_leader_by-Still : (t : MessageType) (m : Message) → Keeps Still (step_leader_by t m)
unfolding step_leader_by
step_leader_by-Still msg_beat m = search replicating_rules
step_leader_by-Still msg_check_quorum m = search (replicating_rules, handle_check_quorum-Still)
step_leader_by-Still msg_prop m = handle_prop-Still m
step_leader_by-Still msg_read_index m = search (replicating_rules, handle_read_index-Still)
step_leader_by-Still _ m = step_known-Still m

pub step_leader-Still : (m : Message) → Keeps Still (step_leader m)
unfolding step_leader
step_leader-Still m = step_leader_by-Still m.type m
