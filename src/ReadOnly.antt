-- ===== src/ReadOnly.antt =====
-- `ReadOnly` of raft-kv/raft/readonly.h and readonly.cpp: the read requests that wait for a quorum.
-- A context is a byte string. The shared status of a request is its value in the map.
use raft_etcd.Common.{
  ℕ, ◌+◌, Bool, true, false, not, none, some, List, [], ◌∷◌, ◌++◌, Outcome, ret, or_fatal, ◌>>=◌,
  length, get_elem?, get_last?, ◌==◌, ◌||◌, drop, to_u32, if◌then◌else◌,
}
use raft_etcd.Common.Maps.{find, put, erase, same_bytes, bytes_keys}
use raft_etcd.Proto.{Message}

pub record ReadState : Type 0 where
  pub index : ℕ
  pub request_ctx : List ℕ

pub data ReadOnlyOption : Type 0 where
  safe lease_based : ReadOnlyOption

pub record ReadIndexStatus : Type 0 where
  pub req : Message
  pub index : ℕ
  pub acks : List ℕ

pub record ReadOnly : Type 0 where
  pub option : ReadOnlyOption
  pub pending_read_index : List (List ℕ × ReadIndexStatus)
  pub read_index_queue : List (List ℕ)

-- The context of the last request that waits, appended to an empty vector.
unfoldable pub last_pending_request_ctx : ReadOnly → List ℕ
last_pending_request_ctx ro = elim (get_last? ro.read_index_queue) [ none ↦ [] | some ctx ↦ ctx ]

abbrev member : ℕ → List ℕ → Bool
member a [] = false
member a (x ∷ xs) = x == a || member a xs

-- `acks.insert(a)`, of a set.
abbrev insert : ℕ → List ℕ → List ℕ
insert a xs = if member a xs then xs else a ∷ xs

unfoldable pub recv_ack : Message → ReadOnly → ℕ × ReadOnly
recv_ack m ro = elim (find m.context ro.pending_read_index) [
  | none ↦ (0, ro)
  | some rs ↦
      let acks' = insert m.from rs.acks in
      (
        to_u32 (length acks' + 1),
        record ro {
          pending_read_index = put m.context (record rs { acks = acks' }) ro.pending_read_index;
        },
      )
]

-- The loop of `advance` over the queue: the statuses met, how many, and whether `ctx` was met.
advance_loop :
    List ℕ
    → List (List ℕ × ReadIndexStatus)
    → List (List ℕ)
    → Outcome (List ReadIndexStatus × ℕ × Bool)
advance_loop ctx pending [] = ret ([], 0, false)
advance_loop ctx pending (okctx ∷ queue) = do
  rs ← or_fatal (find okctx pending)
  let rest = advance_loop ctx pending queue
  if same_bytes okctx ctx then ret (rs ∷ [], 1, true) else do r ← rest; ret (rs ∷ r.0, r.1 + 1, r.2)

-- The requests that are served leave the map, each under the context of its first entry.
erase_all :
    List ReadIndexStatus
    → List (List ℕ × ReadIndexStatus)
    → Outcome (List (List ℕ × ReadIndexStatus))
erase_all [] pending = ret pending
erase_all (rs ∷ rss) pending = do
  e ← or_fatal (get_elem? rs.req.entries 0)
  erase_all rss (erase e.payload pending)

unfoldable pub advance : Message → ReadOnly → Outcome (List ReadIndexStatus × ReadOnly)
unfolding advance_loop erase_all
advance m ro = do
  r ← advance_loop m.context ro.pending_read_index ro.read_index_queue
  if not r.2 then ret (r.0, ro) else do
    pending ← erase_all r.0 ro.pending_read_index
    ret (
      r.0,
      record ro { read_index_queue = drop r.1 ro.read_index_queue; pending_read_index = pending },
    )

unfoldable pub add_request : ℕ → Message → ReadOnly → Outcome ReadOnly
add_request index m ro = do
  e ← or_fatal (get_elem? m.entries 0)
  let status : ReadIndexStatus = record { req = m; index = index; acks = [] }
  ret (elim (find e.payload ro.pending_read_index) [
    | some rs ↦ ro
    | none ↦ record ro {
      pending_read_index = put e.payload status ro.pending_read_index;
      read_index_queue = ro.read_index_queue ++ e.payload ∷ [];
    }
  ])
