-- ===== src/Codec.antt =====
-- The MessagePack library, which the server packs its values with: bytes for each value, and the
-- value back, or `none` for the exception that `unpack` or `convert` throws; `is_msgpack` tells that
-- it is not `unpack` that throws. Only the fields that MSGPACK_DEFINE names are packed: `kept` is
-- what comes back of a value.
use raft_etcd.Common.{ℕ, ◌≡◌, Bool, true, List, Option, some}

pub record Packing {A : Type 0} (kept : A → A) : Type 0 where
  pub pack : A → List ℕ
  pub unpack : List ℕ → Option A
  pub is_msgpack : List ℕ → Bool
  pub unpack-pack : (a : A) → unpack (pack a) ≡ some (kept a)
  pub is_msgpack-pack : (a : A) → is_msgpack (pack a) ≡ true

-- An encoding of all fields.
abbrev pub Codec : Type 0 → Type 0
Codec A = Packing {A = A} (λ a. a)
