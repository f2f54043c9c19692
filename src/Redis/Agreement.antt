-- ===== src/Redis/Agreement.antt =====
-- The stores of raft-kv/server/redis_store.cpp that read one log: `read_commit`, `get` and the
-- snapshots.
use raft_etcd.Common.{
  ℕ, ◌≡◌, refl, ap, sym, ◌∙◌, inl, inr, Bool-cases, List, [], ◌∷◌, Outcome, ret, ◌>>=◌, ◌==◌,
  Option-cases,
}
use raft_etcd.Common.Maps.{find, nat_keys, bytes_keys}
use raft_etcd.Codec.{Codec}
use raft_etcd.Status.{Status, ok}
use raft_etcd.Redis.Store.{Pairs, RaftCommit, RedisStore, apply_commit, read_commit, answer, get}
use raft_etcd.Redis.Commits.{Distinct, AllProper, apply_commit_lem, latest}

module _ {C : Type 0} where
  -- The entries of a log, one after the other.
  unfoldable pub read_commits :
      Codec RaftCommit → ℕ → List RaftCommit → RedisStore C → Outcome (RedisStore C)
  unfolding read_commit
  read_commits commits node_id [] st = ret st
  read_commits commits node_id (c ∷ cs) st =
      read_commit commits node_id (commits.pack c) st >>= λ st'. read_commits commits node_id cs st'

  answer-key_values :
      (id : ℕ) (s : Status) (st : RedisStore C) → (answer id s st).key_values ≡ st.key_values
  unfolding answer
  answer-key_values id s st = elim (Option-cases (find id st.pending_requests)) [
    | inl e ↦ rw e refl
    | inr (c, e) ↦ rw e refl
  ]

  -- One commit, in the store of any node.
  pub read_commit_lem :
      (commits : Codec RaftCommit) (node_id : ℕ) (c : RaftCommit) (m : Pairs) (st : RedisStore C)
      → apply_commit c.redis_data st.key_values ≡ ret m
      → (st' : RedisStore C) × (read_commit commits node_id (commits.pack c) st ≡ ret st')
        × (st'.key_values ≡ m)
  unfolding read_commit
  read_commit_lem commits node_id c m st e = elim (Bool-cases (c.node_id == node_id)) [
    | inl a ↦ (
      answer c.commit_id ok (record st { key_values = m }),
      rw (commits.unpack-pack c) (rw (e, a) refl),
      answer-key_values c.commit_id ok (record st { key_values = m }),
    )
    | inr a ↦ (record st { key_values = m }, rw (commits.unpack-pack c) (rw (e, a) refl), refl)
  ]

  -- A store whose keys are distinct reads the entries of some commits, where each set has a key and
  -- a value: all are read, the keys stay distinct, and `get` of any key answers what the last
  -- command about the key says, or, if there is none, what it answered before. The node, the
  -- requests that wait and their callbacks do not matter.
  pub read_commits_lem :
      (commits : Codec RaftCommit) (node_id : ℕ) (cs : List RaftCommit) (st : RedisStore C)
      → Distinct st.key_values
      → AllProper cs
      → (st' : RedisStore C) × (read_commits commits node_id cs st ≡ ret st')
        × Distinct st'.key_values
        × ((k : List ℕ) → get k st' ≡ latest k (get k st) cs)
  unfolding read_commits latest get
  read_commits_lem commits node_id [] st d p = (st, refl, d, λ k. refl)
  read_commits_lem commits node_id (c ∷ cs) st d p =
      let a = apply_commit_lem c.redis_data st.key_values p.0 d in
      let one = read_commit_lem commits node_id c a.after st a.returns in
      let rest = read_commits_lem commits node_id cs one.0 (rw one.2 a.distinct) p.1 in
      (
        rest.0,
        rw one.1 rest.1,
        rest.2,
        λ k.
            rest.3 k
            ∙ ap (λ m. latest k (find k m) cs) one.2
            ∙ ap (λ v. latest k v cs) (a.values k),
      )

-- Two stores, of any nodes and with any requests, that answer every `get` alike and read the same
-- commits, where the keys are distinct and each set has a key and a value, both read them all, and
-- answer every `get` alike again.
pub replicas_agree :
    {C D : Type 0} (commits : Codec RaftCommit) (i j : ℕ) (cs : List RaftCommit) (a : RedisStore C)
    (b : RedisStore D)
    → Distinct a.key_values
    → Distinct b.key_values
    → AllProper cs
    → ((k : List ℕ) → get k a ≡ get k b)
    → (a' : RedisStore C) × (b' : RedisStore D) × (read_commits commits i cs a ≡ ret a')
      × (read_commits commits j cs b ≡ ret b')
      × ((k : List ℕ) → get k a' ≡ get k b')
replicas_agree commits i j cs a b da db p h =
    let ra = read_commits_lem commits i cs a da p in
    let rb = read_commits_lem commits j cs b db p in
    (ra.0, rb.0, ra.1, rb.1, λ k. ra.3 k ∙ ap (λ v. latest k v cs) (h k) ∙ sym (rb.3 k))
