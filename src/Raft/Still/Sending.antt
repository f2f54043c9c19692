-- ===== src/Raft/Still/Sending.antt =====
-- The methods that send, and those that write a progress, in raft-kv/raft/raft.cpp keep the term.
use raft_etcd.Common.{◌≡◌, refl, ℕ, Bool, true, false, List, [], ◌∷◌, ◌++◌, arith}
use raft_etcd.Proto.{Message}
use raft_etcd.Progress.{Progress}
use raft_etcd.Raft.State.{Raft}
use raft_etcd.Raft.Exec.{Exec, modify}
use raft_etcd.Raft.Keeps.{Keeps, Keeps-modify, Keeps-if, Keeps-throw, keeps_rules}
use raft_etcd.Raft.Still.{Still, Apart, Apart-Still, still}
use raft_etcd.RaftLog.Advance
use raft_etcd.Raft.Progresses.{
  progress_of, set_pointee, update_progress, set_progress, del_progress,
}
use raft_etcd.Raft.Send.{
  stamped, send, send_heartbeat, unless_self, bcast_heartbeat_with_ctx, bcast_heartbeat,
  send_timeout_now, abort_leader_transfer,
}

pub modify-Still : (f : Raft → Raft) → ((r : Raft) → Apart r (f r)) → Keeps Still (modify f)
modify-Still f h = Keeps-modify f (λ r. Apart-Still r (f r) (h r))

pub ruleset still_rules = (keeps_rules, still, modify-Still)

from_stamped : (r : Raft) (m : Message) → (stamped r m).from ≡ r.id
from_stamped r m = ground arith

push-Still :
    (r : Raft) (m : Message) → m.from ≡ r.id → Still r (record r { msgs = r.msgs ++ m ∷ [] })
push-Still r m h = record {
  id = refl;
  term = refl;
  vote = refl;
  log = Advance.Advances-refl r.raft_log;
  sent = m ∷ [];
  msgs = refl;
  from = (h, tt);
}

-- `send` signs each message with the name of the node.
pub send-Still : (m : Message) → Keeps Still (send m)
unfolding send
send-Still m =
    Keeps-if still _ _ _ (Keeps-throw still)
      (Keeps-modify _ (λ r. push-Still r (stamped r m) (from_stamped r m)))

pub progress_of-Still : (id : ℕ) → Keeps Still (progress_of id)
unfolding progress_of
progress_of-Still id = search still_rules

set_pointee-Apart : (id : ℕ) (p : Progress) (r : Raft) → Apart r (set_pointee id p r)
unfolding set_pointee
set_pointee-Apart id p r = ground arith

pub update_progress-Still : (id : ℕ) (p : Progress) → Keeps Still (update_progress id p)
unfolding update_progress
update_progress-Still id p = modify-Still _ (set_pointee-Apart id p)

pub set_progress-Still : (id match next : ℕ) (b : Bool) → Keeps Still (set_progress id match next b)
unfolding set_progress
set_progress-Still id match next false = search still_rules
set_progress-Still id match next true = search still_rules

pub del_progress-Still : (id : ℕ) → Keeps Still (del_progress id)
unfolding del_progress
del_progress-Still id = search still_rules

pub unless_self-Still :
    (f : ℕ → Exec (Unit {0})) (id : ℕ) → Keeps Still (f id) → Keeps Still (unless_self f id)
unfolding unless_self
unless_self-Still f id h = search still_rules

pub send_heartbeat-Still : (to : ℕ) (ctx : List ℕ) → Keeps Still (send_heartbeat to ctx)
unfolding send_heartbeat
send_heartbeat-Still to ctx = search (still_rules, send-Still, progress_of-Still)

pub bcast_heartbeat_with_ctx-Still : (ctx : List ℕ) → Keeps Still (bcast_heartbeat_with_ctx ctx)
unfolding bcast_heartbeat_with_ctx
bcast_heartbeat_with_ctx-Still ctx = search (still_rules, unless_self-Still, send_heartbeat-Still)

pub bcast_heartbeat-Still : Keeps Still bcast_heartbeat
unfolding bcast_heartbeat
bcast_heartbeat-Still = search (still_rules, bcast_heartbeat_with_ctx-Still)

pub send_timeout_now-Still : (to : ℕ) → Keeps Still (send_timeout_now to)
unfolding send_timeout_now
send_timeout_now-Still to = send-Still _

pub abort_leader_transfer-Still : Keeps Still abort_leader_transfer
unfolding abort_leader_transfer
abort_leader_transfer-Still = search still_rules

pub ruleset sending_rules = (
  still_rules, send-Still, progress_of-Still, update_progress-Still, set_progress-Still,
  del_progress-Still, unless_self-Still, send_heartbeat-Still, bcast_heartbeat_with_ctx-Still,
  bcast_heartbeat-Still, send_timeout_now-Still, abort_leader_transfer-Still,
)
