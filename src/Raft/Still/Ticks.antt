-- ===== src/Raft/Still/Ticks.antt =====
-- The clock of raft-kv/raft/raft.cpp: what `tick` leaves alone.
use raft_etcd.Common.{ℕ, ◌<◌, sym, subst, Bool, true, false, max64, ◌&&◌, arith, add32}
use raft_etcd.Proto.{msg_hup, msg_beat, msg_check_quorum, empty_message}
use raft_etcd.Status.{ok}
use raft_etcd.Raft.State.{
  Raft, StepFn, as_follower, as_candidate, as_leader, TickFn, unset, tick_election, tick_heartbeat,
}
use raft_etcd.Raft.Exec.{modify, when}
use raft_etcd.Raft.Progresses.{promotable}
use raft_etcd.Raft.Keeps.{Keeps, Holds, Holds-gets, Holds-then, Keeps-pure}
use raft_etcd.Raft.Step.{step, dispatch, run_step, step_follower, step_candidate}
use raft_etcd.Raft.Tick.{
  step_own, start_election, past_election_timeout, run_tick_election, check_leadership, beat,
  run_tick_heartbeat, run_tick, tick,
}
use raft_etcd.Raft.Still.{Still, still}
use raft_etcd.Raft.Still.Sending.{sending_rules}
use raft_etcd.Raft.Still.Leading.{step_leader-Still}
use raft_etcd.Raft.Still.Onward.{Onward, onward, Keeps-Onward, go_on}
use raft_etcd.Raft.Still.Messages.{step-Onward}

step_own-Onward : (r : Raft) → r.term < max64 → Holds (Onward r) (step_own msg_hup r)
unfolding step_own
step_own-Onward r h = Holds-gets (Onward r) _ _ r (
    Holds-then Onward onward (step (record empty_message { from = r.id; type = msg_hup })) _ r
      (step-Onward _ r h (omega arith) (λ e. absurd (ground (arith, e))))
      (λ _. Keeps-Onward _ (Keeps-pure still tt)))

start_election-Onward : (r : Raft) → r.term < max64 → Holds (Onward r) (start_election r)
unfolding start_election
start_election-Onward r h =
    go_on (modify (λ r'. record r' { election_elapsed = 0 })) _ r ((rest_clock).at r)
      (λ _ s e. step_own-Onward s (subst (λ t. t < max64) (sym e) h))
  where
    rest_clock : Keeps Still (modify (λ r'. record r' { election_elapsed = 0 }))
    rest_clock = search sending_rules

-- The leader's own messages leave the term alone in every role.
beat_step :
    (fn : StepFn) (id : ℕ)
    → Keeps Still (run_step fn (record empty_message { from = id; type = msg_beat }))
unfolding run_step step_follower step_candidate
beat_step as_follower id = Keeps-pure still ok
beat_step as_candidate id = Keeps-pure still ok
beat_step as_leader id = step_leader-Still _

check_step :
    (fn : StepFn) (id : ℕ)
    → Keeps Still (run_step fn (record empty_message { from = id; type = msg_check_quorum }))
unfolding run_step step_follower step_candidate
check_step as_follower id = Keeps-pure still ok
check_step as_candidate id = Keeps-pure still ok
check_step as_leader id = step_leader-Still _

beat_own : Keeps Still (step_own msg_beat)
unfolding step_own step dispatch
beat_own = search (sending_rules, beat_step) depth 9

check_own : Keeps Still (step_own msg_check_quorum)
unfolding step_own step dispatch
check_own = search (sending_rules, check_step) depth 9

check_leadership-Still : Keeps Still check_leadership
unfolding check_leadership
check_leadership-Still = search (sending_rules, check_own) depth 12

beat-Still : Keeps Still beat
unfolding beat
beat-Still = search (sending_rules, beat_own) depth 9

run_tick_heartbeat-Still : Keeps Still run_tick_heartbeat
unfolding run_tick_heartbeat
run_tick_heartbeat-Still = search (sending_rules, check_leadership-Still, beat-Still) depth 12

run_tick_election-Onward : (r : Raft) → r.term < max64 → Holds (Onward r) (run_tick_election r)
unfolding run_tick_election when
run_tick_election-Onward r h =
    go_on (modify (λ r'. record r' { election_elapsed = add32 r'.election_elapsed 1 })) _ r
      (count_clock.at r)
      (λ _ s e.
        Holds-gets (Onward s) _ _ s
          (go s (subst (λ t. t < max64) (sym e) h) (promotable s && past_election_timeout s)))
  where
    count_clock :
        Keeps Still (modify (λ r'. record r' { election_elapsed = add32 r'.election_elapsed 1 }))
    count_clock = search sending_rules

    go : (s : Raft) → s.term < max64 → (b : Bool) → Holds (Onward s) (when b start_election s)
    go s h true = start_election-Onward s h
    go s h false = (Keeps-Onward _ (Keeps-pure still tt)).at s

run_tick-Onward : (fn : TickFn) (r : Raft) → r.term < max64 → Holds (Onward r) (run_tick fn r)
unfolding run_tick
run_tick-Onward unset r h = (Keeps-Onward _ (Keeps-pure still tt)).at r
run_tick-Onward tick_election r h = run_tick_election-Onward r h
run_tick-Onward tick_heartbeat r h = (Keeps-Onward _ run_tick_heartbeat-Still).at r

pub tick-Onward : (r : Raft) → r.term < max64 → Holds (Onward r) (tick r)
unfolding tick
tick-Onward r h = Holds-gets (Onward r) _ _ r (run_tick-Onward r.tick_fn r h)
