-- ===== src/Redis/Session.antt =====
-- `RedisSession` of raft-kv/server/redis_session.cpp: the commands and their replies.
pub mod Link
pub mod Replies
use Prim.Native.Char.{code}
use Prim.Native.String.{String}
use raft_etcd.Common.{
  ℕ, zero, suc, ◌+◌, ◌-◌, ◌/◌, ◌%◌, Bool, true, false, not, ◌&&◌, ◌||◌, List, [], ◌∷◌, ◌++◌, Option,
  none, some, Outcome, ret, fatal, ◌>>=◌, length, take, drop, is_empty, ltb, leb, ◌==◌, to_u32,
  if◌then◌else◌,
}
use raft_etcd.Common.Maps.{find, bytes_keys}
use raft_etcd.Codec.{Codec}
use raft_etcd.Status.{Status, ok, failed, is_ok}
use raft_etcd.Buffer.{ByteBuffer, readable, readable_bytes, read_bytes, slice}
use raft_etcd.Buffer
use raft_etcd.Redis.Store.{RaftCommit, RedisStore, get, set, del, keys}

abbrev pub text : String → List ℕ
text String.[] = []
text (String.◌∷◌ c s) = code c ∷ text s

-- `\r\n`.
abbrev pub crlf : List ℕ
crlf = 13 ∷ 10 ∷ []

abbrev pub ok_reply : List ℕ
ok_reply = text "+OK" ++ crlf

abbrev pub pong_reply : List ℕ
pong_reply = text "+PONG" ++ crlf

abbrev pub null_reply : List ℕ
null_reply = text "$-1" ++ crlf

abbrev pub wrong_type_reply : List ℕ
wrong_type_reply = text "-WRONGTYPE Operation against a key holding the wrong kind of value" ++ crlf

-- What `%s` prints of the bytes behind a pointer.
unfoldable pub c_str : List ℕ → List ℕ
c_str [] = []
c_str (b ∷ bs) = let rest = c_str bs in if b == 0 then [] else b ∷ rest

-- `%lu`; 64 bits have 20 digits at most.
decimal_from : ℕ → ℕ → List ℕ
decimal_from zero n = []
decimal_from (suc k) n =
    let rest = decimal_from k (n / 10) in
    if ltb n 10 then (b'0' + n) ∷ [] else rest ++ (b'0' + n % 10) ∷ []

unfoldable pub decimal : ℕ → List ℕ
unfolding decimal_from
decimal n = decimal_from 20 n

-- `snprintf` into 256 bytes, of which as many are sent as the whole text has: one byte more than
-- fits is the 0 at the end, and then the read leaves the buffer.
unfoldable pub printed : List ℕ → Outcome (List ℕ)
printed bytes =
    if ltb (length bytes) 256
    then ret bytes
    else if length bytes == 256
    then ret (take 255 bytes ++ 0 ∷ [])
    else fatal

abbrev pub wrong_number : List ℕ → List ℕ
wrong_number name =
    ((text "-ERR wrong number of arguments for '" ++ name) ++ text "' command") ++ crlf

abbrev pub unknown_command : List ℕ → List ℕ
unknown_command name = ((text "-ERR unknown command `" ++ c_str name) ++ text "`") ++ crlf

abbrev pub bulk_header : List ℕ → List ℕ
bulk_header s = (text "$" ++ decimal (length s)) ++ crlf

-- The loop of `build_redis_string_array_reply`.
unfoldable pub array_items : List (List ℕ) → List ℕ
unfolding decimal
array_items [] = []
array_items (s ∷ ss) = (bulk_header s ++ (if is_empty s then [] else s ++ crlf)) ++ array_items ss

unfoldable pub build_redis_string_array_reply : List (List ℕ) → List ℕ
unfolding array_items decimal
build_redis_string_array_reply strs =
    ((text "*" ++ decimal (length strs)) ++ crlf) ++ array_items strs

-- `redisReply`, as far as it is looked at: an element of an array is a string or something else.
pub data Element : Type 0 where
  string_element : List ℕ → Element
  other_element : Element

pub data Request : Type 0 where
  array_request : List Element → Request
  other_request : Request

pub data Command : Type 0 where
  ping_command get_command set_command del_command keys_command : Command

-- `command_table`.
unfoldable pub command_table : List (List ℕ × Command)
command_table =
    (text "ping", ping_command)
    ∷ (text "PING", ping_command)
    ∷ (text "get", get_command)
    ∷ (text "Get", get_command)
    ∷ (text "set", set_command)
    ∷ (text "SET", set_command)
    ∷ (text "del", del_command)
    ∷ (text "DEL", del_command)
    ∷ (text "keys", keys_command)
    ∷ (text "KEYS", keys_command)
    ∷ []

-- The strings of the arguments of DEL, if they are all strings.
unfoldable pub all_strings : List Element → Option (List (List ℕ))
all_strings [] = some []
all_strings (other_element ∷ es) = none
all_strings (string_element s ∷ es) = elim (all_strings es) [
  | none ↦ none
  | some ss ↦ some (s ∷ ss)
]

-- What a command comes to: the reply that is sent at once, if there is one, and the store.
abbrev pub Answer : Type 0 → Type 0
Answer C = Outcome (Option (List ℕ) × RedisStore C)

abbrev pub get_reply : Option (List ℕ) → List ℕ
get_reply none = null_reply
get_reply (some v) = (bulk_header v ++ c_str v) ++ crlf

module _ {C : Type 0} where
  abbrev pub replied : List ℕ → RedisStore C → Answer C
  replied bytes st = ret (some bytes, st)

  abbrev pub print_reply : List ℕ → RedisStore C → Answer C
  print_reply bytes st = printed bytes >>= λ out. ret (some out, st)

  abbrev pub run_get : List Element → RedisStore C → Answer C
  run_get (string_element key ∷ []) st = replied (get_reply (get key st)) st
  run_get (other_element ∷ []) st = replied wrong_type_reply st
  run_get _ st = print_reply (wrong_number (text "get")) st

  abbrev pub run_set : Codec RaftCommit → ℕ → C → List Element → RedisStore C → Answer C
  run_set F node_id callback (string_element key ∷ string_element value ∷ []) st =
      ret (none, set F node_id key value callback st)
  run_set F node_id callback (_ ∷ _ ∷ []) st = replied wrong_type_reply st
  run_set F node_id callback _ st = print_reply (wrong_number (text "set")) st

  abbrev pub del_strings :
      Codec RaftCommit → ℕ → C → Option (List (List ℕ)) → RedisStore C → Answer C
  del_strings F node_id callback none st = replied wrong_type_reply st
  del_strings F node_id callback (some ks) st = ret (none, del F node_id ks callback st)

  abbrev pub run_del : Codec RaftCommit → ℕ → C → List Element → RedisStore C → Answer C
  run_del F node_id callback [] st = print_reply (wrong_number (text "del")) st
  run_del F node_id callback (e ∷ es) st = del_strings F node_id callback (all_strings (e ∷ es)) st

  abbrev pub run_keys : List Element → RedisStore C → Answer C
  run_keys (string_element pattern ∷ []) st =
      replied (build_redis_string_array_reply (keys pattern st)) st
  run_keys (other_element ∷ []) st = replied wrong_type_reply st
  run_keys _ st = print_reply (wrong_number (text "keys")) st

  abbrev pub run_command :
      Codec RaftCommit → ℕ → C → Option Command → List ℕ → List Element → RedisStore C → Answer C
  run_command F node_id callback none name args st = print_reply (unknown_command name) st
  run_command F node_id callback (some ping_command) name args st = replied pong_reply st
  run_command F node_id callback (some get_command) name args st = run_get args st
  run_command F node_id callback (some set_command) name args st =
      run_set F node_id callback args st
  run_command F node_id callback (some del_command) name args st =
      run_del F node_id callback args st
  run_command F node_id callback (some keys_command) name args st = run_keys args st

  -- `callback` is the function that the session passes to `set` and `del`.
  unfoldable pub on_redis_reply : Codec RaftCommit → ℕ → C → Request → RedisStore C → Answer C
  unfolding printed c_str decimal command_table all_strings build_redis_string_array_reply get set
      del keys find
  on_redis_reply F node_id callback other_request st = replied wrong_type_reply st
  on_redis_reply F node_id callback (array_request []) st = print_reply (wrong_number []) st
  on_redis_reply F node_id callback (array_request (other_element ∷ args)) st =
      replied wrong_type_reply st
  on_redis_reply F node_id callback (array_request (string_element name ∷ args)) st =
      run_command F node_id callback (find name command_table) name args st

-- The function that is passed to `set` and `del`: the reply to a status, where `message` is what
-- `to_string` prints.
unfoldable pub status_reply : (Status → List ℕ) → Status → Outcome (List ℕ)
unfolding printed c_str
status_reply message s =
    if is_ok s then ret ok_reply else printed ((text "-ERR " ++ c_str (message s)) ++ crlf)
