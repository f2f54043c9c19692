-- ===== src/Redis/Session/Replies.antt =====
-- What a request comes to in raft-kv/server/redis_session.cpp: one reply at once, or one request to
-- the store that will call back.
use raft_etcd.Common.{
  ◌≤◌, Bool-cases, inl, inr, length, length-append, leb, ltb, take, ℕ, ◌≡◌, refl, Bool, true, false,
  List, [], ◌∷◌, ◌++◌, Option, none, some, ret, arith, ==-refl,
}
use raft_etcd.Common.Maps.{find, put, nat_keys, nat_eq_iff, bytes_keys}
use raft_etcd.Codec.{Codec}
use raft_etcd.Redis.Store.{RaftCommit, RedisCommitData, RedisStore, Proposal, request, set, del}
use raft_etcd.Redis.Session.{
  Answer, c_str, text, crlf, unknown_command, Element, string_element, other_element, Request,
  array_request, other_request, Command, ping_command, get_command, set_command, del_command,
  keys_command, on_redis_reply, run_command, run_get, run_set, run_del, del_strings, run_keys,
  print_reply, printed, wrong_number, command_table, all_strings,
}

-- The name of the command, if there is one, leaves room for the text around it in 256 bytes.
abbrev pub ShortName : Request → Type 0
ShortName (array_request (string_element name ∷ args)) = length name ≤ 231
ShortName (array_request (other_element ∷ args)) = Unit
ShortName (array_request []) = Unit
ShortName other_request = Unit

c_str-length : (s : List ℕ) → length (c_str s) ≤ length s
unfolding c_str
c_str-length [] = omega arith
c_str-length (b ∷ bs) = ground (arith, c_str-length bs)

unknown_command-short :
    (name : List ℕ) → length name ≤ 231 → leb (length (unknown_command name)) 256 ≡ true
unknown_command-short name h = ground (
  arith,
  h,
  c_str-length name,
  length-append (c_str name) (text "`"),
  length-append (c_str name ++ text "`") crlf,
)

printed_lem :
    (bytes : List ℕ) → leb (length bytes) 256 ≡ true → (out : List ℕ) × (printed bytes ≡ ret out)
unfolding printed
printed_lem bytes h = elim (Bool-cases (ltb (length bytes) 256)) [
  | inl e ↦ (bytes, rw e refl)
  | inr e ↦ (take 255 bytes ++ 0 ∷ [], ground (arith, h, e))
]

module _ {C : Type 0} where
  -- The callback waits under the request id that was to be given, and there is one proposal more,
  -- with this id.
  pub record Waits (callback : C) (st st' : RedisStore C) : Type 0 where
    pub waits : find st.next_request_id st'.pending_requests ≡ some callback
    pub proposal : Proposal
    pub proposed : st'.proposed ≡ st.proposed ++ proposal ∷ []
    pub its_id : proposal.commit_id ≡ st.next_request_id
    pub same_pairs : st'.key_values ≡ st.key_values
    pub same_calls : st'.called ≡ st.called

  abbrev pub Once : C → RedisStore C → Option (List ℕ) × RedisStore C → Type 0
  Once callback st (some bytes, st') = st' ≡ st
  Once callback st (none, st') = Waits callback st st'

  find-put_self : (i : ℕ) (c : C) (m : List (ℕ × C)) → find i (put i c m) ≡ some c
  unfolding find put
  find-put_self i c [] = rw (==-refl i) refl
  find-put_self i c ((j, d) ∷ m) = ground (arith, nat_eq_iff j i, ==-refl i, find-put_self i c m)

  request-Waits :
      (F : Codec RaftCommit) (node_id : ℕ) (of_del : Bool) (cmd : RedisCommitData) (callback : C)
      (st : RedisStore C)
      → Waits callback st (request F node_id of_del cmd callback st)
  unfolding request
  request-Waits F node_id of_del cmd callback st = record {
    waits = find-put_self st.next_request_id callback st.pending_requests;
    proposal = _;
    proposed = refl;
    its_id = refl;
    same_pairs = refl;
    same_calls = refl;
  }

  -- A call that returns, with a reply at once or a request.
  pub record Settled (callback : C) (st : RedisStore C) (m : Answer C) : Type 0 where
    pub result : Option (List ℕ) × RedisStore C
    pub returns : m ≡ ret result
    pub once : Once callback st result

  settled :
      {callback : C} {st : RedisStore C} {x : Option (List ℕ) × RedisStore C}
      → Once callback st x
      → Settled callback st (ret x)
  settled {x} h = record { result = x; returns = refl; once = h }

  print_reply-Once :
      (bytes : List ℕ) (callback : C) (st : RedisStore C)
      → leb (length bytes) 256 ≡ true
      → Settled callback st (print_reply bytes st)
  print_reply-Once bytes callback st h =
      let (out, e) = printed_lem bytes h in
      record { result = (some out, st); returns = rw e refl; once = refl }

  run_get-Once :
      (args : List Element) (callback : C) (st : RedisStore C)
      → Settled callback st (run_get args st)
  run_get-Once [] callback st = print_reply-Once _ callback st refl
  run_get-Once (string_element key ∷ []) callback st = settled refl
  run_get-Once (other_element ∷ []) callback st = settled refl
  run_get-Once (string_element k ∷ _ ∷ _) callback st = print_reply-Once _ callback st refl
  run_get-Once (other_element ∷ _ ∷ _) callback st = print_reply-Once _ callback st refl

  run_keys-Once :
      (args : List Element) (callback : C) (st : RedisStore C)
      → Settled callback st (run_keys args st)
  run_keys-Once [] callback st = print_reply-Once _ callback st refl
  run_keys-Once (string_element key ∷ []) callback st = settled refl
  run_keys-Once (other_element ∷ []) callback st = settled refl
  run_keys-Once (string_element k ∷ _ ∷ _) callback st = print_reply-Once _ callback st refl
  run_keys-Once (other_element ∷ _ ∷ _) callback st = print_reply-Once _ callback st refl

  run_set-Once :
      (F : Codec RaftCommit) (node_id : ℕ) (callback : C) (args : List Element) (st : RedisStore C)
      → Settled callback st (run_set F node_id callback args st)
  unfolding set
  run_set-Once F node_id callback [] st = print_reply-Once _ callback st refl
  run_set-Once F node_id callback (string_element k ∷ []) st = print_reply-Once _ callback st refl
  run_set-Once F node_id callback (other_element ∷ []) st = print_reply-Once _ callback st refl
  run_set-Once F node_id callback (string_element k ∷ string_element v ∷ []) st =
      settled (request-Waits F node_id false _ callback st)
  run_set-Once F node_id callback (string_element k ∷ other_element ∷ []) st = settled refl
  run_set-Once F node_id callback (other_element ∷ string_element v ∷ []) st = settled refl
  run_set-Once F node_id callback (other_element ∷ other_element ∷ []) st = settled refl
  run_set-Once F node_id callback (string_element k ∷ string_element v ∷ _ ∷ _) st =
      print_reply-Once _ callback st refl
  run_set-Once F node_id callback (string_element k ∷ other_element ∷ _ ∷ _) st =
      print_reply-Once _ callback st refl
  run_set-Once F node_id callback (other_element ∷ string_element v ∷ _ ∷ _) st =
      print_reply-Once _ callback st refl
  run_set-Once F node_id callback (other_element ∷ other_element ∷ _ ∷ _) st =
      print_reply-Once _ callback st refl

  del_strings-Once :
      (F : Codec RaftCommit) (node_id : ℕ) (callback : C) (o : Option (List (List ℕ)))
      (st : RedisStore C)
      → Settled callback st (del_strings F node_id callback o st)
  unfolding del
  del_strings-Once F node_id callback none st = settled refl
  del_strings-Once F node_id callback (some ks) st =
      settled (request-Waits F node_id true _ callback st)

  run_del-Once :
      (F : Codec RaftCommit) (node_id : ℕ) (callback : C) (args : List Element) (st : RedisStore C)
      → Settled callback st (run_del F node_id callback args st)
  run_del-Once F node_id callback [] st = print_reply-Once _ callback st refl
  run_del-Once F node_id callback (e ∷ es) st =
      del_strings-Once F node_id callback (all_strings (e ∷ es)) st

  run_command-Once :
      (F : Codec RaftCommit) (node_id : ℕ) (callback : C) (o : Option Command) (name : List ℕ)
      (args : List Element) (st : RedisStore C)
      → length name ≤ 231
      → Settled callback st (run_command F node_id callback o name args st)
  run_command-Once F node_id callback none name args st h =
      print_reply-Once (unknown_command name) callback st (unknown_command-short name h)
  run_command-Once F node_id callback (some ping_command) name args st h = settled refl
  run_command-Once F node_id callback (some get_command) name args st h =
      run_get-Once args callback st
  run_command-Once F node_id callback (some set_command) name args st h =
      run_set-Once F node_id callback args st
  run_command-Once F node_id callback (some del_command) name args st h =
      run_del-Once F node_id callback args st
  run_command-Once F node_id callback (some keys_command) name args st h =
      run_keys-Once args callback st

  -- If the name of the command of a request, where it has one, is of at most 231 bytes, the request
  -- is handled and the handling returns: either there is a reply, and the store is as it was; or
  -- there is none, and the store has taken one request: its callback is the one that waits under the
  -- id that was next, one proposal with this id is added, and the map and the calls of callbacks are
  -- as they were.
  pub answered-Once :
      (F : Codec RaftCommit) (node_id : ℕ) (callback : C) (q : Request) (st : RedisStore C)
      → ShortName q
      → Settled callback st (on_redis_reply F node_id callback q st)
  unfolding on_redis_reply
  answered-Once F node_id callback other_request st h = settled refl
  answered-Once F node_id callback (array_request []) st h =
      print_reply-Once (wrong_number []) callback st refl
  answered-Once F node_id callback (array_request (other_element ∷ args)) st h = settled refl
  answered-Once F node_id callback (array_request (string_element name ∷ args)) st h =
      run_command-Once F node_id callback (find name command_table) name args st h
