-- ===== src/Raft/Tick.antt =====
-- The clock of raft-kv/raft/raft.cpp: `tick` and the two functions that it is bound to.
use raft_etcd.Common.{Bool, not, ◌&&◌, ◌==◌, leb, add32}
use raft_etcd.Proto.{MessageType, empty_message, msg_hup, msg_beat, msg_check_quorum}
use raft_etcd.Raft.State.{Raft, is_leader, TickFn, unset, tick_election, tick_heartbeat}
use raft_etcd.Raft.Exec.{Exec, ◌>>=◌, ◌>>◌, pure, gets, modify, when}
use raft_etcd.Raft.Progresses.{promotable}
use raft_etcd.Raft.Send.{abort_leader_transfer}
use raft_etcd.Raft.Step.{step}

unfoldable pub past_election_timeout : Raft → Bool
past_election_timeout r = leb r.randomized_election_timeout r.election_elapsed

-- A message of the node to itself: its term is 0.
unfoldable pub step_own : MessageType → Exec (Unit {0})
step_own t = do
  own ← gets (λ r. r.id)
  step (record empty_message { from = own; type = t })
  pure tt

unfoldable pub start_election : Exec (Unit {0})
start_election = do modify (λ r. record r { election_elapsed = 0 }); step_own msg_hup

unfoldable pub run_tick_election : Exec (Unit {0})
run_tick_election = do
  modify (λ r. record r { election_elapsed = add32 r.election_elapsed 1 })
  due ← gets (λ r. promotable r && past_election_timeout r)
  when due start_election

-- What a leader does once per election timeout.
unfoldable pub check_leadership : Exec (Unit {0})
check_leadership = do
  modify (λ r. record r { election_elapsed = 0 })
  checks ← gets (λ r. r.check_quorum)
  when checks (step_own msg_check_quorum)
  stuck ← gets (λ r. is_leader r.state && not (r.lead_transferee == 0))
  when stuck abort_leader_transfer

unfoldable pub beat : Exec (Unit {0})
beat = do modify (λ r. record r { heartbeat_elapsed = 0 }); step_own msg_beat

unfoldable pub run_tick_heartbeat : Exec (Unit {0})
run_tick_heartbeat = do
  modify (λ r. record r {
    heartbeat_elapsed = add32 r.heartbeat_elapsed 1;
    election_elapsed = add32 r.election_elapsed 1;
  })
  expired ← gets (λ r. leb r.election_timeout r.election_elapsed)
  when expired check_leadership
  due ← gets (λ r. is_leader r.state && leb r.heartbeat_timeout r.heartbeat_elapsed)
  when due beat

unfoldable pub run_tick : TickFn → Exec (Unit {0})
run_tick unset = pure tt
run_tick tick_election = run_tick_election
run_tick tick_heartbeat = run_tick_heartbeat

unfoldable pub tick : Exec (Unit {0})
tick = do fn ← gets (λ r. r.tick_fn); run_tick fn
