-- ===== src/Redis/Snapshots.antt =====
-- The snapshots of the map of raft-kv/server/redis_store.cpp, packed by one node and recovered from
-- by another.
use mathlib.Core.List.{append_assoc, append-nil}
use raft_etcd.Common.{
  ℕ, ◌≡◌, refl, ap, sym, ◌∙◌, inl, inr, false, Bool-cases, List, [], ◌∷◌, ◌++◌, ret, arith,
  is_empty,
}
use raft_etcd.Common.Maps.{put, same_bytes, bytes_keys, keys}
use raft_etcd.Codec.{Codec}
use raft_etcd.Status.{ok}
use raft_etcd.Redis.Store.{
  Pairs, RedisStore, to_map, get_snapshot, recover_from_snapshot, new_store,
}
use raft_etcd.Redis.Commits.{has, Distinct, Distinct-shift}

put-missing : (k v : List ℕ) (m : Pairs) → has k (keys m) ≡ false → put k v m ≡ m ++ (k, v) ∷ []
unfolding put has
put-missing k v [] h = refl
put-missing k v ((i, w) ∷ m) h = elim (Bool-cases (same_bytes i k)) [
  | inl e ↦ absurd (ground (arith, h))
  | inr e ↦ rw e (ap (λ r. (i, w) ∷ r) (put-missing k v m (ground (arith, h))))
]

-- The keys of a map that is put together are those of the map, in order.
to_map-Distinct : (m ps : Pairs) → Distinct (m ++ ps) → to_map m ps ≡ m ++ ps
unfolding to_map
to_map-Distinct m [] d = sym (append-nil m)
to_map-Distinct m ((k, v) ∷ ps) d =
    ap (λ n. to_map n ps) (put-missing k v m (missing m d))
    ∙ to_map-Distinct (m ++ (k, v) ∷ []) ps (shifted d)
    ∙ append_assoc m ((k, v) ∷ []) ps
  where
    shifted : Distinct (m ++ (k, v) ∷ ps) → Distinct ((m ++ (k, v) ∷ []) ++ ps)
    shifted h = rw (append_assoc m ((k, v) ∷ []) ps) h

    missing : (m : Pairs) → Distinct (m ++ (k, v) ∷ ps) → has k (keys m) ≡ false
    missing m h = Distinct-shift m k v ps h

module _ {C : Type 0} where
  -- A store that recovers from the snapshot that another one took, while the keys of that one were
  -- distinct, answers an ok status, has just the pairs of the other, and keeps its requests; and a
  -- store that is started on that snapshot, if it is not the empty string, has these pairs too.
  pub recover-get_snapshot :
      (maps : Codec Pairs) (a b : RedisStore C)
      → Distinct a.key_values
      → is_empty (get_snapshot maps a) ≡ false
      → (recover_from_snapshot maps (get_snapshot maps a) b
          ≡ ret (ok, record b { key_values = a.key_values }))
        × ((st : RedisStore C) × (new_store maps (get_snapshot maps a) ≡ ret st)
            × (st.key_values ≡ a.key_values))
  unfolding recover_from_snapshot get_snapshot new_store
  recover-get_snapshot maps a b d n = (
    rw (maps.is_msgpack-pack a.key_values, maps.unpack-pack a.key_values)
        (ap (λ m. ret (ok, record b { key_values = m })) (to_map-Distinct [] a.key_values d)),
    (
      record {
        key_values = to_map [] a.key_values;
        next_request_id = 0;
        pending_requests = [];
        called = [];
        proposed = [];
      },
      rw (n, maps.is_msgpack-pack a.key_values, maps.unpack-pack a.key_values) refl,
      to_map-Distinct [] a.key_values d,
    ),
  )
