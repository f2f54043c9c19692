-- ===== src/Redis/Store.antt =====
-- `RedisStore` of raft-kv/server/redis_store.h and redis_store.cpp. A callback is a value of a type
-- that the client picks; the calls of callbacks are a list. What is posted to the io_service runs
-- later, in one thread: each posted function is an operation of its own.
use raft_etcd.Common.{
  ℕ, Bool, true, false, not, List, [], ◌∷◌, ◌++◌, Option, none, some, Outcome, ret, fatal, ◌>>=◌,
  ◌==◌, add32, to_u32, is_empty, if◌then◌else◌,
}
use raft_etcd.Common.Maps.{find, put, erase, bytes_keys, nat_keys}
use raft_etcd.Codec.{Codec}
use raft_etcd.Status.{Status, ok, failed, is_ok, io_error_code}
use raft_etcd.Redis.Glob.{string_match_len}

abbrev pub commit_set : ℕ
commit_set = 0

abbrev pub commit_del : ℕ
commit_del = 1

pub record RedisCommitData : Type 0 where
  pub type : ℕ
  pub strs : List (List ℕ)

pub record RaftCommit : Type 0 where
  pub node_id : ℕ
  pub commit_id : ℕ
  pub redis_data : RedisCommitData

abbrev pub Pairs : Type 0
Pairs = List (List ℕ × List ℕ)

-- A call of `propose`: the bytes, the request, and whether the callback is the one of `del`.
pub record Proposal : Type 0 where
  pub bytes : List ℕ
  pub commit_id : ℕ
  pub of_del : Bool

pub record RedisStore (C : Type 0) : Type 0 where
  pub key_values : Pairs
  pub next_request_id : ℕ
  pub pending_requests : List (ℕ × C)
  pub called : List (C × Status)
  pub proposed : List Proposal

-- The conversion of a MessagePack map into an `unordered_map`.
unfoldable pub to_map : Pairs → Pairs → Pairs
unfolding put
to_map m [] = m
to_map m ((k, v) ∷ ps) = to_map (put k v m) ps

-- The keys that match, of the pairs in their order.
unfoldable pub matching : List ℕ → Pairs → List (List ℕ)
matching pattern [] = []
matching pattern ((k, v) ∷ ps) =
    let rest = matching pattern ps in if string_match_len pattern k then k ∷ rest else rest

unfoldable pub erase_all : List (List ℕ) → Pairs → Pairs
unfolding erase
erase_all [] m = m
erase_all (k ∷ ks) m = erase_all ks (erase k m)

-- `kCommitSet`, with its assertion.
abbrev pub apply_set : List (List ℕ) → Pairs → Outcome Pairs
apply_set (k ∷ v ∷ []) m = ret (put k v m)
apply_set _ m = fatal

-- The `switch` of `read_commit`.
unfoldable pub apply_commit : RedisCommitData → Pairs → Outcome Pairs
unfolding put erase_all
apply_commit cmd m =
    if cmd.type == commit_set
    then apply_set cmd.strs m
    else if cmd.type == commit_del
    then ret (erase_all cmd.strs m)
    else ret m

module _ {C : Type 0} where
  -- The constructor, less the socket: an exception of `unpack` is not caught, one of `convert` is.
  unfoldable pub new_store : Codec Pairs → List ℕ → Outcome (RedisStore C)
  unfolding to_map
  new_store maps snap =
      if is_empty snap
      then ret (with_pairs [])
      else if not (maps.is_msgpack snap)
      then fatal
      else ret (with_pairs (elim (maps.unpack snap) [ none ↦ [] | some ps ↦ to_map [] ps ]))
    where
      with_pairs : Pairs → RedisStore C
      with_pairs ps = record {
        key_values = ps;
        next_request_id = 0;
        pending_requests = [];
        called = [];
        proposed = [];
      }

  unfoldable pub get : List ℕ → RedisStore C → Option (List ℕ)
  unfolding find
  get key st = find key st.key_values

  -- What `set` and `del` share: the next request, and its proposal.
  unfoldable pub request :
      Codec RaftCommit → ℕ → Bool → RedisCommitData → C → RedisStore C → RedisStore C
  unfolding put
  request commits node_id of_del cmd callback st =
      let id = st.next_request_id in
      let commit : RaftCommit = record {
        node_id = to_u32 node_id;
        commit_id = id;
        redis_data = cmd;
      } in
      record st {
        next_request_id = add32 id 1;
        pending_requests = put id callback st.pending_requests;
        proposed =
            st.proposed
            ++ record { bytes = commits.pack commit; commit_id = id; of_del = of_del } ∷ [];
      }

  unfoldable pub set : Codec RaftCommit → ℕ → List ℕ → List ℕ → C → RedisStore C → RedisStore C
  unfolding request
  set commits node_id key value callback st =
      request commits node_id false (record { type = commit_set; strs = key ∷ value ∷ [] }) callback
        st

  unfoldable pub del : Codec RaftCommit → ℕ → List (List ℕ) → C → RedisStore C → RedisStore C
  unfolding request
  del commits node_id keys callback st =
      request commits node_id true (record { type = commit_del; strs = keys }) callback st

  -- `it->second(status); pending_requests_.erase(it)`, if the request is there.
  abbrev pub answer_found : ℕ → Status → RedisStore C → Option C → RedisStore C
  answer_found id status st none = st
  answer_found id status st (some callback) = record st {
    called = st.called ++ (callback, status) ∷ [];
    pending_requests = erase id st.pending_requests;
  }

  unfoldable pub answer : ℕ → Status → RedisStore C → RedisStore C
  unfolding find erase
  answer id status st = answer_found id status st (find id st.pending_requests)

  -- The functions that `set` and `del` post when their proposal has a status.
  unfoldable pub set_proposed : ℕ → Status → RedisStore C → RedisStore C
  unfolding answer
  set_proposed id status st = if is_ok status then st else answer id status st

  unfoldable pub del_proposed : ℕ → Status → RedisStore C → RedisStore C
  unfolding answer
  del_proposed id status st = answer id status st

  unfoldable pub get_snapshot : Codec Pairs → RedisStore C → List ℕ
  get_snapshot maps st = maps.pack st.key_values

  abbrev pub recover_pairs : Option Pairs → RedisStore C → Status × RedisStore C
  recover_pairs none st = (failed io_error_code "invalid snapshot", st)
  recover_pairs (some ps) st = (ok, record st { key_values = to_map [] ps })

  unfoldable pub recover_from_snapshot :
      Codec Pairs → List ℕ → RedisStore C → Outcome (Status × RedisStore C)
  unfolding to_map
  recover_from_snapshot maps snap st =
      if maps.is_msgpack snap then ret (recover_pairs (maps.unpack snap) st) else fatal

  unfoldable pub keys : List ℕ → RedisStore C → List (List ℕ)
  unfolding matching
  keys pattern st = matching pattern st.key_values

  -- What is done with an entry once it is unpacked; an entry that is not a commit is left.
  abbrev pub read_unpacked : ℕ → Option RaftCommit → RedisStore C → Outcome (RedisStore C)
  read_unpacked node_id none st = ret st
  read_unpacked node_id (some commit) st = apply_commit commit.redis_data st.key_values >>= λ m.
      let st' = record st { key_values = m } in
      ret (if commit.node_id == node_id then answer commit.commit_id ok st' else st')

  -- The function that `read_commit` posts; the id of a node in a commit has 32 bits.
  unfoldable pub read_commit : Codec RaftCommit → ℕ → List ℕ → RedisStore C → Outcome (RedisStore C)
  unfolding apply_commit answer
  read_commit commits node_id bytes st = read_unpacked node_id (commits.unpack bytes) st
