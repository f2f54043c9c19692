-- ===== src/Raft/Replicate.antt =====
-- How the leader of raft-kv/raft/raft.cpp appends to its log and sends it to the followers.
use raft_etcd.Common.{
  ℕ, zero, suc, Bool, true, false, not, ◌&&◌, ◌||◌, List, [], ◌∷◌, ltb, ◌==◌, is_empty, get_last?,
  add64, sub64, add32, if◌then◌else◌,
}
use raft_etcd.Proto.{Entry, payload_size, is_empty_snapshot, msg_app, msg_snap, empty_message}
use raft_etcd.Status.{is_ok}
use raft_etcd.InFlights
use raft_etcd.Progress.{
  Progress, ProgressState, probe, replicate, snapshot, is_paused, become_snapshot,
  optimistic_update, set_pause, maybe_update,
}
use raft_etcd.RaftLog
use raft_etcd.Raft.Exec.{Exec, ◌>>=◌, ◌>>◌, pure, throw, gets, modify, query, lift, on_log, on_some}
use raft_etcd.Raft.Progresses.{progress_of, update_progress, all_ids, for_each}
use raft_etcd.Raft.Send.{send, unless_self}
use raft_etcd.Raft.Commit.{maybe_commit}

-- The branch of `maybe_send_append` that sends the snapshot.
unfoldable pub send_snapshot : ℕ → Progress → Exec Bool
send_snapshot to pr = if not pr.recent_active then pure false else do
  found ← gets (λ r. RaftLog.snapshot r.raft_log)
  if not (is_ok found.0) || is_empty_snapshot found.1 then throw else do
    update_progress to (become_snapshot found.1.metadata.index pr)
    send (record empty_message { to = to; type = msg_snap; snapshot = found.1 })
    pure true

-- What sending the entry at `last` does to the progress, by its state.
unfoldable pub note_sent : ProgressState → ℕ → ℕ → Progress → Exec (Unit {0})
note_sent replicate to last pr = do
  f ← lift (InFlights.add last pr.inflights)
  update_progress to (record (optimistic_update last pr) { inflights = f })
note_sent probe to last pr = update_progress to (set_pause pr)
note_sent snapshot to last pr = throw

-- The branch that sends entries.
unfoldable pub send_entries : ℕ → Progress → ℕ → List Entry → Exec Bool
send_entries to pr term es = do
  committed ← gets (λ r. r.raft_log.committed)
  on_some (get_last? es) (pure tt) (λ e. note_sent pr.state to e.index pr)
  send (record empty_message {
    to = to;
    type = msg_app;
    index = sub64 pr.next 1;
    log_term = term;
    entries = es;
    commit = committed;
  })
  pure true

unfoldable pub maybe_send_append : ℕ → Bool → Exec Bool
maybe_send_append to send_if_empty = do
  pr ← progress_of to
  if is_paused pr then pure false else do
    max_size ← gets (λ r. r.max_msg_size)
    t ← query (RaftLog.term (sub64 pr.next 1))
    es ← query (RaftLog.entries pr.next max_size)
    if is_empty es.1 && not send_if_empty
        then pure false
        else if not (is_ok t.0) || not (is_ok es.0)
        then send_snapshot to pr
        else send_entries to pr t.1 es.1

unfoldable pub send_append : ℕ → Exec (Unit {0})
send_append to = do maybe_send_append to true; pure tt

unfoldable pub bcast_append : Exec (Unit {0})
bcast_append = do ids ← gets all_ids; for_each ids (unless_self send_append)

-- `while (maybe_send_append(to, false)) {}`, with fuel: whether the loop ended by its test.
unfoldable pub send_while : ℕ → ℕ → Exec Bool
send_while zero to = pure false
send_while (suc fuel) to = do
  sent ← maybe_send_append to false
  if sent then send_while fuel to else pure true

-- The sum of the payloads, a `uint32_t`.
unfoldable pub payload_sum : ℕ → List Entry → ℕ
payload_sum s [] = s
payload_sum s (e ∷ es) = payload_sum (add32 s (payload_size e)) es

unfoldable pub increase_uncommitted_size : List Entry → Exec Bool
increase_uncommitted_size es = do
  size ← gets (λ r. r.uncommitted_size)
  limit ← gets (λ r. r.max_uncommitted_size)
  let s = payload_sum 0 es
  if ltb 0 size && ltb limit (add64 size s)
      then pure false
      else do modify (λ r. record r { uncommitted_size = add64 r.uncommitted_size s }); pure true

-- The size that is left.
unfoldable pub reduced_size : ℕ → List Entry → ℕ
reduced_size size es =
    if size == 0
    then size
    else if ltb size (payload_sum 0 es)
    then 0
    else sub64 size (payload_sum 0 es)

unfoldable pub reduce_uncommitted_size : List Entry → Exec (Unit {0})
reduce_uncommitted_size es =
    modify λ r. record r { uncommitted_size = reduced_size r.uncommitted_size es }

-- The entries as the log gets them: at `li + i + 1` and of the leader's term.
unfoldable pub stamp_entries : ℕ → ℕ → ℕ → List Entry → List Entry
stamp_entries t li i [] = []
stamp_entries t li i (e ∷ es) =
    record e { term = t; index = add64 (add64 li i) 1 } ∷ stamp_entries t li (suc i) es

unfoldable pub append_entry : List Entry → Exec Bool
append_entry es = do
  li ← query RaftLog.last_index
  t ← gets (λ r. r.term)
  let ents = stamp_entries t li 0 es
  room ← increase_uncommitted_size ents
  if not room then pure false else do
    li' ← on_log (RaftLog.append ents)
    own ← gets (λ r. r.id)
    pr ← progress_of own
    update_progress own (maybe_update li' pr).1
    maybe_commit
    pure true
