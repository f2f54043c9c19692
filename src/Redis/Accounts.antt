-- ===== src/Redis/Accounts.antt =====
-- The callbacks of `RedisStore` in raft-kv/server/redis_store.cpp: what each operation keeps.
use mathlib.Core.List.{Perm, perm_middle, append_assoc, append-nil}
use mathlib.Core.List.Perm
use raft_etcd.Common.{
  ℕ, ◌+◌, ◌^◌, ◌<◌, ◌≡◌, refl, ap, sym, ◌∙◌, subst, inl, inr, Bool, true, false, Bool-cases, List,
  [], ◌∷◌, ◌++◌, map, Option, none, some, ret, fatal, >>=-eq-ret, arith, length, length-append,
  ◌==◌, add32_lem, if◌then◌else◌,
}
use raft_etcd.Common.Maps.{find, put, erase, keys, values, nat_keys}
use raft_etcd.Codec.{Codec}
use raft_etcd.Status.{Status, ok}
use raft_etcd.Redis.Store.{
  Pairs, RaftCommit, RedisCommitData, RedisStore, request, answer, answer_found, read_unpacked,
  recover_from_snapshot, recover_pairs, apply_commit,
}

abbrev pub AllBelow : ℕ → List ℕ → Type 0
AllBelow n [] = Unit
AllBelow n (i ∷ is) = (i < n) × AllBelow n is

AllBelow-suc : (n : ℕ) (is : List ℕ) → AllBelow n is → AllBelow (n + 1) is
AllBelow-suc n [] h = tt
AllBelow-suc n (i ∷ is) h = (omega (arith, h.0), AllBelow-suc n is h.1)

module _ {C : Type 0} where
  -- The callbacks that wait, and those that have been called.
  abbrev pub accounted : RedisStore C → List C
  accounted st = values st.pending_requests ++ map (λ c. c.0) st.called

  -- What every operation keeps.
  pub record Accounts (st : RedisStore C) (cs : List C) : Type 0 where
    pub all : Perm (accounted st) cs
    pub below : AllBelow st.next_request_id (keys st.pending_requests)
    pub count : st.next_request_id ≡ length cs

  put-fresh :
      (n : ℕ) (c : C) (m : List (ℕ × C)) → AllBelow n (keys m) → put n c m ≡ m ++ (n, c) ∷ []
  unfolding put
  put-fresh n c [] h = refl
  put-fresh n c ((i, d) ∷ m) h = elim (Bool-cases (i == n)) [
    | inl e ↦ absurd (ground (arith, h.0))
    | inr e ↦ rw e (ap (λ r. (i, d) ∷ r) (put-fresh n c m h.1))
  ]

  values-append : (a b : List (ℕ × C)) → values (a ++ b) ≡ values a ++ values b
  values-append [] b = refl
  values-append ((i, c) ∷ a) b = ap (λ r. c ∷ r) (values-append a b)

  AllBelow-append :
      (n i : ℕ) (c : C) (m : List (ℕ × C))
      → AllBelow n (keys m)
      → i < n
      → AllBelow n (keys (m ++ (i, c) ∷ []))
  AllBelow-append n i c [] h l = (l, tt)
  AllBelow-append n i c ((j, d) ∷ m) h l = (h.0, AllBelow-append n i c m h.1 l)

  AllBelow-erase :
      (n i : ℕ) (m : List (ℕ × C)) → AllBelow n (keys m) → AllBelow n (keys (erase i m))
  unfolding erase
  AllBelow-erase n i [] h = tt
  AllBelow-erase n i ((j, d) ∷ m) h = elim (Bool-cases (j == i)) [
    | inl e ↦ rw e h.1
    | inr e ↦ rw e (h.0, AllBelow-erase n i m h.1)
  ]

  erase-Perm :
      (i : ℕ) (c : C) (m : List (ℕ × C))
      → find i m ≡ some c
      → Perm (values m) (c ∷ values (erase i m))
  unfolding find erase
  erase-Perm i c [] e = absurd (cc)
  erase-Perm i c ((j, d) ∷ m) e = elim (Bool-cases (j == i)) [
    | inl q ↦ rw q (Perm.cons' (same (sym (rw q refl) ∙ e)) (Perm.refl (values m)))
    | inr q ↦ rw q (
        Perm.trans (Perm.cons d (erase-Perm i c m (sym (rw q refl) ∙ e)))
          (Perm.swap c d (values (erase i m))))
  ]
    where
      same : {a b : C} → some a ≡ some b → a ≡ b
      same h = cc

  map-append :
      (a : List (C × Status)) (c : C) (s : Status)
      → map (λ x. x.0) (a ++ (c, s) ∷ []) ≡ map (λ x. x.0) a ++ c ∷ []
  map-append [] c s = refl
  map-append (x ∷ a) c s = ap (λ r. x.0 ∷ r) (map-append a c s)

  to_end : (xs : List C) (c : C) → Perm (c ∷ xs) (xs ++ c ∷ [])
  to_end xs c =
      Perm.symm (subst (λ ys. Perm (xs ++ c ∷ []) (c ∷ ys)) (append-nil xs) (perm_middle xs []))

  answer_found-Accounts :
      (id : ℕ) (s : Status) (st : RedisStore C) (cs : List C) (o : Option C)
      → find id st.pending_requests ≡ o
      → Accounts st cs
      → Accounts (answer_found id s st o) cs
  answer_found-Accounts id s st cs none e h = h
  answer_found-Accounts id s st cs (some c) e h = record {
    all =
        Perm.trans
          (Perm.symm (
            Perm.trans
              (Perm.append_right (map (λ x. x.0) st.called) (erase-Perm id c st.pending_requests e))
              (subst (λ ys. Perm (c ∷ (rest ++ map (λ x. x.0) st.called)) (rest ++ ys))
                (sym (map-append st.called c s))
                (subst (λ ys. Perm (c ∷ (rest ++ map (λ x. x.0) st.called)) ys)
                  (append_assoc rest (map (λ x. x.0) st.called) (c ∷ []))
                  (to_end (rest ++ map (λ x. x.0) st.called) c)))))
          h.all;
    below = AllBelow-erase st.next_request_id id st.pending_requests h.below;
    count = h.count;
  }
    where
      rest : List C
      rest = values (erase id st.pending_requests)

  pub answer-Accounts :
      (id : ℕ) (s : Status) (st : RedisStore C) (cs : List C)
      → Accounts st cs
      → Accounts (answer id s st) cs
  unfolding answer
  answer-Accounts id s st cs h =
      answer_found-Accounts id s st cs (find id st.pending_requests) refl h

  pub request-Accounts :
      (commits : Codec RaftCommit) (node_id : ℕ) (of_del : Bool) (cmd : RedisCommitData)
      (callback : C) (st : RedisStore C) (cs : List C)
      → length cs + 1 < 2 ^ 32
      → Accounts st cs
      → Accounts (request commits node_id of_del cmd callback st) (cs ++ callback ∷ [])
  unfolding request
  request-Accounts commits node_id of_del cmd callback st cs l h =
      rw
        (
          put-fresh st.next_request_id callback st.pending_requests h.below,
          add32_lem st.next_request_id 1 (omega (arith, h.count)),
        )
        record {
          all = joined (values-append st.pending_requests ((st.next_request_id, callback) ∷ []));
          below =
              AllBelow-append (st.next_request_id + 1) st.next_request_id callback
                st.pending_requests
                (AllBelow-suc st.next_request_id (keys st.pending_requests) h.below) (omega arith);
          count = omega (arith, h.count, length-append cs (callback ∷ []));
        }
    where
      vp : List C
      vp = values st.pending_requests

      ca : List C
      ca = map (λ x. x.0) st.called

      joined : {xs : List C} → xs ≡ vp ++ callback ∷ [] → Perm (xs ++ ca) (cs ++ callback ∷ [])
      joined e =
          subst (λ ys. Perm (ys ++ ca) (cs ++ callback ∷ [])) (sym e)
            (subst (λ ys. Perm ys (cs ++ callback ∷ [])) (sym (append_assoc vp (callback ∷ []) ca))
              (Perm.trans (perm_middle vp ca)
                (Perm.trans (Perm.cons callback h.all) (to_end cs callback))))

  with_pairs-Accounts :
      (m : Pairs) (st : RedisStore C) (cs : List C)
      → Accounts st cs
      → Accounts (record st { key_values = m }) cs
  with_pairs-Accounts m st cs h = record { all = h.all; below = h.below; count = h.count }

  pub read_unpacked-Accounts :
      (node_id : ℕ) (o : Option RaftCommit) (st st' : RedisStore C) (cs : List C)
      → read_unpacked node_id o st ≡ ret st'
      → Accounts st cs
      → Accounts st' cs
  read_unpacked-Accounts node_id none st st' cs e h = subst (λ x. Accounts x cs) (same e) h
    where
      same : {a b : RedisStore C} → ret a ≡ ret b → a ≡ b
      same q = cc
  read_unpacked-Accounts node_id (some c) st st' cs e h =
      let (m, _, q) = >>=-eq-ret (apply_commit c.redis_data st.key_values) _ e in
      subst (λ x. Accounts x cs) (same q)
        (by_node (c.node_id == node_id) (record st { key_values = m })
          (with_pairs-Accounts m st cs h))
    where
      same : {a b : RedisStore C} → ret a ≡ ret b → a ≡ b
      same q = cc

      by_node :
          (b : Bool) (x : RedisStore C)
          → Accounts x cs
          → Accounts (if b then answer c.commit_id ok x else x) cs
      by_node true x a = answer-Accounts c.commit_id ok x cs a
      by_node false x a = a

  recover_pairs-Accounts :
      (o : Option Pairs) (st : RedisStore C) (cs : List C)
      → Accounts st cs
      → Accounts (recover_pairs o st).1 cs
  recover_pairs-Accounts none st cs h = h
  recover_pairs-Accounts (some ps) st cs h = with_pairs-Accounts _ st cs h

  pub recover-Accounts :
      (maps : Codec Pairs) (snap : List ℕ) (s : Status) (st st' : RedisStore C) (cs : List C)
      → recover_from_snapshot maps snap st ≡ ret (s, st')
      → Accounts st cs
      → Accounts st' cs
  unfolding recover_from_snapshot
  recover-Accounts maps snap s st st' cs e h = by_msgpack (maps.is_msgpack snap) e
    where
      same : {a : Status × RedisStore C} → ret a ≡ ret (s, st') → a.1 ≡ st'
      same q = cc

      by_msgpack :
          (b : Bool)
          → (if b then ret (recover_pairs (maps.unpack snap) st) else fatal) ≡ ret (s, st')
          → Accounts st' cs
      by_msgpack true q =
          subst (λ x. Accounts x cs) (same q) (recover_pairs-Accounts (maps.unpack snap) st cs h)
      by_msgpack false q = absurd (cc)
