-- ===== src/Progress.antt =====
-- `Progress` of raft-kv/raft/progress.h and progress.cpp: what the leader knows of a follower. The
-- window of messages in flight is in InFlights.
pub mod Window
use raft_etcd.Common.{
  ℕ, Bool, true, false, not, min, max, ltb, leb, ◌==◌, add64, sub64, if◌then◌else◌,
}
use raft_etcd.InFlights
use raft_etcd.InFlights.{InFlights, new_in_flights}

pub data ProgressState : Type 0 where
  probe replicate snapshot : ProgressState

pub record Progress : Type 0 where
  pub match : ℕ
  pub next : ℕ
  pub state : ProgressState
  pub paused : Bool
  pub pending_snapshot : ℕ
  pub recent_active : Bool
  pub inflights : InFlights
  pub is_learner : Bool

-- `Progress(max_inflight)`.
abbrev pub new_progress : ℕ → Progress
new_progress max_inflight = record {
  match = 0;
  next = 0;
  state = probe;
  paused = false;
  pending_snapshot = 0;
  recent_active = false;
  inflights = new_in_flights max_inflight;
  is_learner = false;
}

unfoldable pub reset_state : ProgressState → Progress → Progress
reset_state st p = record p {
  paused = false;
  pending_snapshot = 0;
  state = st;
  inflights = InFlights.reset p.inflights;
}

unfoldable pub become_replicate : Progress → Progress
unfolding reset_state
become_replicate p = record (reset_state replicate p) { next = add64 p.match 1 }

unfoldable pub become_probe : Progress → Progress
unfolding reset_state
become_probe p = elim p.state [
  | snapshot ↦ record (reset_state probe p) {
    next = max (add64 p.match 1) (add64 p.pending_snapshot 1);
  }
  | _ ↦ record (reset_state probe p) { next = add64 p.match 1 }
]

unfoldable pub become_snapshot : ℕ → Progress → Progress
unfolding reset_state
become_snapshot i p = record (reset_state snapshot p) { pending_snapshot = i }

unfoldable pub is_paused : Progress → Bool
is_paused p = elim p.state [
  | probe ↦ p.paused
  | replicate ↦ InFlights.is_full p.inflights
  | snapshot ↦ true
]

abbrev pub set_pause : Progress → Progress
set_pause p = record p { paused = true }

abbrev pub resume : Progress → Progress
resume p = record p { paused = false }

-- Whether the match moved, and the new progress.
unfoldable pub maybe_update : ℕ → Progress → Bool × Progress
maybe_update n p =
    let update = ltb p.match n in
    let p' : Progress = if update then record p { match = n; paused = false } else p in
    (update, if ltb p.next (add64 n 1) then record p' { next = add64 n 1 } else p')

abbrev pub optimistic_update : ℕ → Progress → Progress
optimistic_update n p = record p { next = add64 n 1 }

-- Back from a rejected message outside of the replicate state: `next` is at least 1.
abbrev decreased : ℕ → ℕ → ℕ
decreased rejected last = let n = min rejected (add64 last 1) in if ltb n 1 then 1 else n

unfoldable pub maybe_decreases_to : ℕ → ℕ → Progress → Bool × Progress
maybe_decreases_to rejected last p = elim p.state [
  | replicate ↦
      if leb rejected p.match then (false, p) else (true, record p { next = add64 p.match 1 })
  | _ ↦
      if not (sub64 p.next 1 == rejected)
      then (false, p)
      else (true, record p { next = decreased rejected last; paused = false })
]

unfoldable pub need_snapshot_abort : Progress → Bool
need_snapshot_abort p = elim p.state [ snapshot ↦ leb p.pending_snapshot p.match | _ ↦ false ]

abbrev pub snapshot_failure : Progress → Progress
snapshot_failure p = record p { pending_snapshot = 0 }
