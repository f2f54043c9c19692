-- ===== src/Util.antt =====
-- raft-kv/raft/util.cpp. `is_local_msg` is the one of Proto; `compute_crc32` is the library's.
pub mod Limit
use raft_etcd.Common.{
  ℕ, Bool, not, ◌||◌, List, [], ◌∷◌, Outcome, ret, fatal, ltb, ◌==◌, add64, if◌then◌else◌,
}
use raft_etcd.Proto.{
  MessageType, msg_vote, msg_vote_resp, msg_pre_vote, msg_pre_vote_resp, Entry, serialize_size,
  HardState,
}

unfoldable pub vote_resp_msg_type : MessageType → Outcome MessageType
vote_resp_msg_type msg_vote = ret msg_vote_resp
vote_resp_msg_type msg_pre_vote = ret msg_pre_vote_resp
vote_resp_msg_type _ = fatal

-- The loop of `entry_limit_size`: the entries kept of those from `limit` on.
limit_from : ℕ → ℕ → List Entry → List Entry
limit_from max_size size [] = []
limit_from max_size size (e ∷ es) =
    let size' = add64 size (serialize_size e) in
    let rest = limit_from max_size size' es in if ltb max_size size' then [] else e ∷ rest

unfoldable pub entry_limit_size : ℕ → List Entry → List Entry
unfolding limit_from
entry_limit_size max_size [] = []
entry_limit_size max_size (e ∷ es) = e ∷ limit_from max_size (serialize_size e) es

unfoldable pub is_must_sync : HardState → HardState → ℕ → Bool
is_must_sync st prevst entsnum =
    not (entsnum == 0) || not (st.vote == prevst.vote) || not (st.term == prevst.term)
