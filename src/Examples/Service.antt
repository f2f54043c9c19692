-- ===== src/Examples/Service.antt =====
-- The theorems on raft-kv/server on concrete inputs.
use mathlib.Core.List.{Perm}
use raft_etcd.Common.{
  true, false, ℕ, zero, suc, ◌<◌, ◌≡◌, refl, arith, List, [], ◌∷◌, ret, length, take, drop,
}
use raft_etcd.Common.Maps.{nat_keys, bytes_keys}
use raft_etcd.Status.{Status, ok, failed, io_error_code}
use raft_etcd.Common.Ensures.{Ensures}
use raft_etcd.Proto.{Entry, entry_conf_change}
use raft_etcd.Unstable.Contiguous.{Numbered}
use raft_etcd.Storage.{MemoryStorage, new_storage, compact}
use raft_etcd.Raft.Membership.{soft_state, hard_state}
use raft_etcd.Examples.{entry, node}
use raft_etcd.Examples.Codecs.{commits, maps, encodings}
use raft_etcd.Redis.Store.{
  RaftCommit, RedisStore, commit_set, commit_del, set, set_proposed, get, get_snapshot,
  recover_from_snapshot, new_store,
}
use raft_etcd.Redis.Commits.{Distinct, has, latest}
use raft_etcd.Redis.Agreement.{read_commits, read_commits_lem, replicas_agree}
use raft_etcd.Redis.Requests.{Run, begin, set_step, set_proposed_step, callbacks_accounted}
use raft_etcd.Redis.Accounts.{accounted}
use raft_etcd.Redis.Snapshots.{recover-get_snapshot}
use raft_etcd.Redis.Session.{Request, array_request, string_element, on_redis_reply, text}
use raft_etcd.Redis.Session.Replies.{Settled, answered-Once}
use raft_etcd.Redis.Glob.{string_match_len, match_from}
use raft_etcd.Redis.Glob.Fuel.{match_from_fuel}
use raft_etcd.Redis.Glob.Reference.{glob, plain, string_match_len-glob}
use raft_etcd.Server.{RaftNode, compact_index}
use raft_etcd.Server.Rounds.{apply_committed}
use raft_etcd.Server.Once.{Reached, applied_once}
use raft_etcd.Server.Batch.{commands, AllNormal}
use raft_etcd.Server.Compacting.{compact-compact_index}
use raft_etcd.Wal.Log.{opened}

-- A store with the value "b" for the key "a"; callbacks are numbers.
abbrev store : RedisStore ℕ
store = record {
  key_values = (text "a", text "b") ∷ [];
  next_request_id = 0;
  pending_requests = [];
  called = [];
  proposed = [];
}

-- A commit that sets "a" to "c", and one that deletes it.
abbrev sets : RaftCommit
sets = record {
  node_id = 1;
  commit_id = 0;
  redis_data = record { type = commit_set; strs = text "a" ∷ text "c" ∷ [] };
}

abbrev deletes : RaftCommit
deletes = record {
  node_id = 2;
  commit_id = 5;
  redis_data = record { type = commit_del; strs = text "a" ∷ [] };
}

store-Distinct : Distinct store.key_values
unfolding has
store-Distinct = (refl, tt)

read_commits_lem_example :
    (st : RedisStore ℕ) × (read_commits commits 1 (deletes ∷ sets ∷ []) store ≡ ret st)
    × Distinct st.key_values
    × ((k : List ℕ) → get k st ≡ latest k (get k store) (deletes ∷ sets ∷ []))
read_commits_lem_example =
    read_commits_lem commits 1 (deletes ∷ sets ∷ []) store store-Distinct (refl, (refl, tt))

same_gets : (k : List ℕ) → get k store ≡ get k store
same_gets k = refl

replicas_agree_example :
    (a : RedisStore ℕ) × (b : RedisStore ℕ) × (read_commits commits 1 (sets ∷ []) store ≡ ret a)
    × (read_commits commits 2 (sets ∷ []) store ≡ ret b)
    × ((k : List ℕ) → get k a ≡ get k b)
replicas_agree_example =
    replicas_agree commits 1 2 (sets ∷ []) store store store-Distinct store-Distinct (refl, tt)
      same_gets

-- Two sets, and the failure of the first one's proposal.
abbrev failure : Status
failure = failed io_error_code "no leader"

abbrev served : RedisStore ℕ
served =
    set_proposed 0 failure
      (set commits 1 (text "x") (text "z") 12 (set commits 1 (text "x") (text "y") 11 store))

served-Run : Run commits maps served (11 ∷ 12 ∷ [])
served-Run = set_proposed_step 0 failure (
    set_step 1 (text "x") (text "z") 12
      (set_step 1 (text "x") (text "y") 11 (begin store refl refl refl)))

callbacks_accounted_example : Perm (accounted served) (11 ∷ 12 ∷ [])
callbacks_accounted_example =
    callbacks_accounted commits maps served (11 ∷ 12 ∷ []) (omega arith) served-Run

abbrev empty_store : RedisStore ℕ
empty_store = record store { key_values = [] }

recover-get_snapshot_example :
    (recover_from_snapshot maps (get_snapshot maps store) empty_store
      ≡ ret (ok, record empty_store { key_values = store.key_values }))
    × ((st : RedisStore ℕ) × (new_store maps (get_snapshot maps store) ≡ ret st)
        × (st.key_values ≡ store.key_values))
unfolding get_snapshot
recover-get_snapshot_example = recover-get_snapshot maps store empty_store store-Distinct refl

-- "set x y".
abbrev set_request : Request
set_request =
    array_request
      (string_element (text "set") ∷ string_element (text "x") ∷ string_element (text "y") ∷ [])

answered-Once_example : Settled 11 store (on_redis_reply commits 1 11 set_request store)
answered-Once_example = answered-Once commits 1 11 set_request store (omega arith)

match_from_fuel_example :
    match_from false 4 (text "a*c") (text "abc") ≡ match_from true 9 (text "a*c") (text "abc")
match_from_fuel_example =
    match_from_fuel false true 4 9 (text "a*c") (text "abc") (omega arith) (omega arith)

string_match_len-glob_example :
    string_match_len (text "a*?c") (text "abbc") ≡ glob (text "a*?c") (text "abbc")
unfolding plain
string_match_len-glob_example = string_match_len-glob (text "a*?c") b'a' (text "bbc") refl

-- The log that a node starts with has a change of the configuration, which adds the node.
abbrev added : Entry
added = record (entry 1 1) {
  type = entry_conf_change;
  payload =
      encodings.conf_changes.pack
        (record { id = 0; conf_change_type = 0; node_id = 1; context = [] });
}

-- A node that has applied the first of three entries.
abbrev server : RaftNode ℕ
server = record {
  id = 1;
  last_index = 0;
  conf_state = record { nodes = []; learners = [] };
  snapshot_index = 0;
  applied_index = 1;
  node = record {
    raft = node 0;
    prev_soft_state = soft_state (node 0);
    prev_hard_state = hard_state (node 0);
  };
  redis = store;
  posted = commands (added ∷ []);
  wal = opened (record { index = 0; term = 0 }) [];
  snap_dir = [];
  sent = [];
  added_peers = [];
}

abbrev three : List Entry
three = added ∷ entry 2 5 ∷ entry 3 5 ∷ []

applied_once_example :
    Ensures (Reached [] three 3 server) (apply_committed encodings (take 3 (drop 0 three)) server)
    × (AllNormal (take 3 (drop 0 three))
        → (n : RaftNode ℕ) × (apply_committed encodings (take 3 (drop 0 three)) server ≡ ret n))
applied_once_example =
    applied_once encodings [] three server 0 3 (refl, (refl, (refl, tt))) (omega arith)
      (refl, (refl, (refl, tt))) (record { handed = refl; inside = omega arith }) (omega arith)
      (omega arith) (omega arith)

-- As many entries as are asked for, numbered from an index.
many : ℕ → ℕ → List Entry
many i zero = []
many i (suc n) = entry i 1 ∷ many (suc i) n

many-Numbered : (i n : ℕ) → Numbered i (many i n)
unfolding many
many-Numbered i zero = tt
many-Numbered i (suc n) = (refl, many-Numbered (suc i) n)

length-many : (i n : ℕ) → length (many i n) ≡ n
unfolding many
length-many i zero = refl
length-many i (suc n) = omega (arith, length-many (suc i) n)

long_storage : MemoryStorage
long_storage = record new_storage { entries = entry 0 0 ∷ many 1 100_001 }

compact-compact_index_example :
    (0 < compact_index 100_001)
    × (compact_index 100_001 < 100_001)
    × (s : MemoryStorage) × (compact (compact_index 100_001) long_storage ≡ ret (ok, s))
    × (new : Entry) × (kept : List Entry) × (s.entries ≡ new ∷ kept)
    × (new.index ≡ compact_index 100_001)
unfolding long_storage
compact-compact_index_example =
    compact-compact_index long_storage (entry 0 0) (many 1 100_001) 0 100_001 refl
      (refl, many-Numbered 1 100_001) (omega arith) (omega arith)
      (omega (arith, length-many 1 100_001)) (omega (arith, length-many 1 100_001))
