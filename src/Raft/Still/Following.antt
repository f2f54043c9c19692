-- ===== src/Raft/Still/Following.antt =====
-- What a node does with the messages of the leader of its term in raft-kv/raft/raft.cpp keeps the
-- term.
use mathlib.Core.List.{append-nil}
use raft_etcd.Common.{
  ℕ, ◌<◌, ◌≡◌, refl, sym, subst, Bool, true, false, List, [], ◌∷◌, Outcome, ret, fatal, arith, leb,
}
use raft_etcd.Common.Ensures.{Ensures}
use raft_etcd.Proto.{Message, Snapshot, Entry}
use raft_etcd.RaftLog
use raft_etcd.RaftLog.{RaftLog}
use raft_etcd.RaftLog.Advance.{Advances, commit_to-Advances, maybe_append-Advances}
use raft_etcd.Raft.State.{Raft}
use raft_etcd.Raft.Exec.{on_log, pure, modify, ◌>>◌}
use raft_etcd.Raft.Keeps.{
  Keeps, Keeps-on_log, Keeps-bind, Keeps-pure, Holds, Holds-then, Holds-query, Holds-gets, Holds-if,
}
use raft_etcd.Raft.Still.{Still, still, log_Still}
use raft_etcd.Raft.Still.Sending.{sending_rules}
use raft_etcd.Raft.Follower.{
  no_result, commit_to, reject_append, accept_append, handle_append_entries, handle_heartbeat,
  restore_one, restore_node, install, restore_newer, restore, handle_snapshot, is_demoted,
}

no_result-Ensures :
    (l : RaftLog) (o : Outcome RaftLog)
    → Ensures (Advances l) o
    → Ensures (λ x. Advances l x.1) (no_result o)
no_result-Ensures l (ret l') h = record {
  at = λ x e. subst (λ y. Advances l y.1) (ret_path e) (h.at l' refl);
}
  where
    ret_path :
        {x : Unit {0} × RaftLog} → ret (tt, l') ≡ ret x → ◌≡◌ {A = Unit {0} × RaftLog} (tt, l') x
    ret_path e = cc
no_result-Ensures l fatal h = record { at = λ x e. cc }

pub commit_to-Still : (i : ℕ) → Keeps Still (commit_to i)
unfolding commit_to
commit_to-Still i =
    Keeps-on_log _
      λ r. log_Still r _ (no_result-Ensures r.raft_log _ (commit_to-Advances i r.raft_log))

log_append-Still :
    (i t c : ℕ) (es : List Entry) → Keeps Still (on_log (RaftLog.maybe_append i t c es))
log_append-Still i t c es =
    Keeps-on_log _ (λ r. log_Still r _ (maybe_append-Advances i t c es r.raft_log))

accept_append-Still : (m : Message) (i : ℕ) → Keeps Still (accept_append m i)
unfolding accept_append
accept_append-Still m i = search sending_rules

reject_append-Still : (m : Message) → Keeps Still (reject_append m)
unfolding reject_append
reject_append-Still m = search sending_rules

pub handle_append_entries-Still : (m : Message) → Keeps Still (handle_append_entries m)
unfolding handle_append_entries
handle_append_entries-Still m =
    search (sending_rules, log_append-Still, accept_append-Still, reject_append-Still) depth 9

pub handle_heartbeat-Still : (m : Message) → Keeps Still (handle_heartbeat m)
unfolding handle_heartbeat
handle_heartbeat-Still m = search (sending_rules, commit_to-Still)

restore_one-Still : (node : ℕ) (b : Bool) → Keeps Still (restore_one node b)
unfolding restore_one
restore_one-Still node b = search sending_rules depth 14

pub restore_node-Still : (nodes : List ℕ) (b : Bool) → Keeps Still (restore_node nodes b)
unfolding restore_node
restore_node-Still [] b = Keeps-pure still tt
restore_node-Still (node ∷ nodes) b =
    Keeps-bind still (restore_one node b) _ (restore_one-Still node b)
      (λ _. restore_node-Still nodes b)

install-Still :
    (s : Snapshot) (r : Raft)
    → r.raft_log.committed < s.metadata.index
    → Holds (Still r) (install s r)
unfolding install
install-Still s r h =
    Holds-then Still still _ _ r (unfold modify RaftLog.restore in replaced)
      λ _. Keeps-bind still _ _ (restore_node-Still _ false) (λ _. restore_node-Still _ true)
  where
    replaced :
        Still r (record r { raft_log = RaftLog.restore s r.raft_log; prs = []; learner_prs = [] })
    replaced = record {
      id = refl;
      term = refl;
      vote = refl;
      log =
          unfold RaftLog.restore in
          record { committed = omega arith; applied = refl; storage = refl };
      sent = [];
      msgs = sym (append-nil r.msgs);
      from = tt;
    }

restore_newer-Still :
    (s : Snapshot) (r : Raft)
    → r.raft_log.committed < s.metadata.index
    → Holds (Still r) (restore_newer s r)
unfolding restore_newer
restore_newer-Still s r h = Holds-query (Still r) _ _ r λ same _.
    Holds-if (Still r) same _ _ r
      (λ _.
        Holds-then Still still _ _ r ((commit_to-Still s.metadata.index).at r)
          (λ _. Keeps-pure still false))
      (λ _. Holds-gets (Still r) _ _ r (
        Holds-if (Still r) (is_demoted s r) (pure false) (install s >> pure true) r
          (λ _. (Keeps-pure still false).at r)
          (λ _.
            Holds-then Still still (install s) _ r (install-Still s r h)
              (λ _. Keeps-pure still true))))

pub restore-Still : (s : Snapshot) → Keeps Still (restore s)
unfolding restore
restore-Still s = record {
  at = λ r. Holds-gets (Still r) _ _ r (
      Holds-if (Still r) (leb s.metadata.index r.raft_log.committed) _ _ r
        (λ _. (Keeps-pure still false).at r) (λ e. restore_newer-Still s r (ground arith)));
}

pub handle_snapshot-Still : (m : Message) → Keeps Still (handle_snapshot m)
unfolding handle_snapshot
handle_snapshot-Still m = search (sending_rules, restore-Still) depth 9

pub ruleset following_rules = (
  sending_rules, commit_to-Still, handle_append_entries-Still, handle_heartbeat-Still,
  handle_snapshot-Still,
)
