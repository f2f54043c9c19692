-- ===== src/Raft/Still/Replicating.antt =====
-- The methods that commit, append and send entries, and those that reset for the same term, keep it.
use raft_etcd.Common.{ℕ, zero, suc, Bool, true, false, List}
use raft_etcd.Proto.{Entry}
use raft_etcd.Progress.{Progress, ProgressState, probe, replicate, snapshot}
use raft_etcd.RaftLog
use raft_etcd.RaftLog.Advance.{append-Advances, maybe_commit-Advances}
use raft_etcd.Raft.Exec.{on_log, pure}
use raft_etcd.Raft.Keeps.{Keeps, Keeps-pure, Keeps-bind, Keeps-if, Keeps-on_log}
use raft_etcd.Raft.Still.{Still, still, log_Still}
use raft_etcd.Raft.Still.Sending.{sending_rules}
use raft_etcd.Raft.Commit.{maybe_commit}
use raft_etcd.Raft.Replicate.{
  send_snapshot, note_sent, send_entries, maybe_send_append, send_append, bcast_append, send_while,
  increase_uncommitted_size, reduce_uncommitted_size, append_entry,
}

log_append-Still : (es : List Entry) → Keeps Still (on_log (RaftLog.append es))
log_append-Still es = Keeps-on_log _ (λ r. log_Still r _ (append-Advances es r.raft_log))

log_commit-Still : (i t : ℕ) → Keeps Still (on_log (RaftLog.maybe_commit i t))
log_commit-Still i t = Keeps-on_log _ (λ r. log_Still r _ (maybe_commit-Advances i t r.raft_log))

pub maybe_commit-Still : Keeps Still maybe_commit
unfolding maybe_commit
maybe_commit-Still = search (sending_rules, log_commit-Still)

pub note_sent-Still :
    (st : ProgressState) (to last : ℕ) (pr : Progress) → Keeps Still (note_sent st to last pr)
unfolding note_sent
note_sent-Still replicate to last pr = search sending_rules
note_sent-Still probe to last pr = search sending_rules
note_sent-Still snapshot to last pr = search sending_rules

pub send_snapshot-Still : (to : ℕ) (pr : Progress) → Keeps Still (send_snapshot to pr)
unfolding send_snapshot
send_snapshot-Still to pr = search sending_rules depth 12

pub send_entries-Still :
    (to : ℕ) (pr : Progress) (t : ℕ) (es : List Entry) → Keeps Still (send_entries to pr t es)
unfolding send_entries
send_entries-Still to pr t es = search (sending_rules, note_sent-Still)

pub maybe_send_append-Still : (to : ℕ) (b : Bool) → Keeps Still (maybe_send_append to b)
unfolding maybe_send_append
maybe_send_append-Still to b =
    search (sending_rules, send_snapshot-Still, send_entries-Still) depth 9

pub send_append-Still : (to : ℕ) → Keeps Still (send_append to)
unfolding send_append
send_append-Still to = search (sending_rules, maybe_send_append-Still)

pub bcast_append-Still : Keeps Still bcast_append
unfolding bcast_append
bcast_append-Still = search (sending_rules, send_append-Still)

pub send_while-Still : (fuel to : ℕ) → Keeps Still (send_while fuel to)
unfolding send_while
send_while-Still zero to = search sending_rules
send_while-Still (suc fuel) to = Keeps-bind still _ _ (maybe_send_append-Still to false) λ sent.
    Keeps-if still sent (send_while fuel to) (pure true) (send_while-Still fuel to)
      (Keeps-pure still true)

pub increase_uncommitted_size-Still : (es : List Entry) → Keeps Still (increase_uncommitted_size es)
unfolding increase_uncommitted_size
increase_uncommitted_size-Still es = search sending_rules depth 12

pub reduce_uncommitted_size-Still : (es : List Entry) → Keeps Still (reduce_uncommitted_size es)
unfolding reduce_uncommitted_size
reduce_uncommitted_size-Still es = search sending_rules

pub append_entry-Still : (es : List Entry) → Keeps Still (append_entry es)
unfolding append_entry
append_entry-Still es =
    search (sending_rules, increase_uncommitted_size-Still, log_append-Still, maybe_commit-Still)
      depth 12

pub ruleset replicating_rules = (
  sending_rules, maybe_commit-Still, maybe_send_append-Still, send_append-Still, bcast_append-Still,
  send_while-Still, reduce_uncommitted_size-Still, append_entry-Still,
)
