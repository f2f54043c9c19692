-- ===== src/Redis/Requests.antt =====
-- The callbacks of `RedisStore` in raft-kv/server/redis_store.cpp, over any order of the functions
-- that sessions call and of those that are posted.
use mathlib.Core.List.{Perm}
use mathlib.Core.List.Perm
use raft_etcd.Common.{
  ℕ, ◌^◌, ◌<◌, ◌≡◌, Bool, true, false, List, [], ◌∷◌, ◌++◌, ret, arith, length, length-append,
  if◌then◌else◌,
}
use raft_etcd.Common.Maps.{nat_keys}
use raft_etcd.Codec.{Codec}
use raft_etcd.Status.{Status, is_ok}
use raft_etcd.Redis.Store.{
  Pairs, RaftCommit, RedisStore, set, del, answer, set_proposed, del_proposed, read_commit,
  recover_from_snapshot,
}
use raft_etcd.Redis.Accounts.{
  accounted, Accounts, answer-Accounts, request-Accounts, read_unpacked-Accounts, recover-Accounts,
}

module _ {C : Type 0} where
  -- A store that runs, and the callbacks that it was given, in order.
  pub data Run (commits : Codec RaftCommit) (maps : Codec Pairs)
      : RedisStore C → List C → Type 0 where
    begin :
        (st : RedisStore C)
        → st.next_request_id ≡ 0
        → st.pending_requests ≡ []
        → st.called ≡ []
        → Run commits maps st []
    set_step :
        (node_id : ℕ) (key value : List ℕ) (callback : C) {st : RedisStore C} {cs : List C}
        → Run commits maps st cs
        → Run commits maps (set commits node_id key value callback st) (cs ++ callback ∷ [])
    del_step :
        (node_id : ℕ) (ks : List (List ℕ)) (callback : C) {st : RedisStore C} {cs : List C}
        → Run commits maps st cs
        → Run commits maps (del commits node_id ks callback st) (cs ++ callback ∷ [])
    set_proposed_step :
        (id : ℕ) (status : Status) {st : RedisStore C} {cs : List C}
        → Run commits maps st cs
        → Run commits maps (set_proposed id status st) cs
    del_proposed_step :
        (id : ℕ) (status : Status) {st : RedisStore C} {cs : List C}
        → Run commits maps st cs
        → Run commits maps (del_proposed id status st) cs
    commit_step :
        (node_id : ℕ) (bytes : List ℕ) (st' : RedisStore C) {st : RedisStore C} {cs : List C}
        → read_commit commits node_id bytes st ≡ ret st'
        → Run commits maps st cs
        → Run commits maps st' cs
    recover_step :
        (snap : List ℕ) (status : Status) (st' : RedisStore C) {st : RedisStore C} {cs : List C}
        → recover_from_snapshot maps snap st ≡ ret (status, st')
        → Run commits maps st cs
        → Run commits maps st' cs

  Run-Accounts :
      (commits : Codec RaftCommit) (maps : Codec Pairs) (st : RedisStore C) (cs : List C)
      → length cs < 2 ^ 32
      → Run commits maps st cs
      → Accounts st cs
  unfolding set del set_proposed del_proposed read_commit
  Run-Accounts commits maps st _ l (begin _ n p c) = record {
    all = rw (p, c) (Perm.refl []);
    below = rw p tt;
    count = n;
  }
  Run-Accounts commits maps _ _ l (set_step node_id key value callback {st} {cs} r) =
      request-Accounts commits node_id false _ callback st cs
        (omega (arith, l, length-append cs (callback ∷ [])))
        (Run-Accounts commits maps st cs (omega (arith, l, length-append cs (callback ∷ []))) r)
  Run-Accounts commits maps _ _ l (del_step node_id ks callback {st} {cs} r) =
      request-Accounts commits node_id true _ callback st cs
        (omega (arith, l, length-append cs (callback ∷ [])))
        (Run-Accounts commits maps st cs (omega (arith, l, length-append cs (callback ∷ []))) r)
  Run-Accounts commits maps _ cs l (set_proposed_step id status {st} r) =
      by_status (is_ok status) (Run-Accounts commits maps st cs l r)
    where
      by_status : (b : Bool) → Accounts st cs → Accounts (if b then st else answer id status st) cs
      by_status true h = h
      by_status false h = answer-Accounts id status st cs h
  Run-Accounts commits maps _ cs l (del_proposed_step id status {st} r) =
      answer-Accounts id status st cs (Run-Accounts commits maps st cs l r)
  Run-Accounts commits maps _ cs l (commit_step node_id bytes st' {st} e r) =
      read_unpacked-Accounts node_id (commits.unpack bytes) st st' cs e
        (Run-Accounts commits maps st cs l r)
  Run-Accounts commits maps _ cs l (recover_step snap status st' {st} e r) =
      recover-Accounts maps snap status st st' cs e (Run-Accounts commits maps st cs l r)

  -- Over any order of calls of `set` and `del`, fewer than 2 ^ 32 of them, of the answers to their
  -- proposals, of commits read and of snapshots recovered, from a store with nothing pending: the
  -- callbacks that wait and those that have been called are together just the callbacks that were
  -- given, each as often as it was given. So a callback is called once at most, and none is lost.
  pub callbacks_accounted :
      (commits : Codec RaftCommit) (maps : Codec Pairs) (st : RedisStore C) (cs : List C)
      → length cs < 2 ^ 32
      → Run commits maps st cs
      → Perm (accounted st) cs
  callbacks_accounted commits maps st cs l r = (Run-Accounts commits maps st cs l r).all
