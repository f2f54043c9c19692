-- ===== src/Util/Limit.antt =====
-- What `entry_limit_size` of raft-kv/raft/util.cpp keeps.
use raft_etcd.Common.{
  ℕ, ◌+◌, ◌^◌, ◌≡◌, ◌≤◌, ◌<◌, refl, ap, true, false, Bool, inl, inr, List, [], ◌∷◌, ◌++◌, ltb,
  add64_lem, arith, ◌⊎◌, if◌then◌else◌,
}
use raft_etcd.Proto.{Entry, serialize_size}
use raft_etcd.Util.{entry_limit_size, limit_from}

-- The bytes of the entries, without the wrap of the source.
abbrev pub total_size : List Entry → ℕ
total_size [] = 0
total_size (e ∷ es) = serialize_size e + total_size es

-- The entry that is the first one not kept would go over the limit.
abbrev pub Overflows : ℕ → ℕ → List Entry → Type 0
Overflows max_size size [] = Unit
Overflows max_size size (e ∷ es) = max_size < size + serialize_size e

-- `kept` is the longest start of `es` that fits beside what `size` stands for.
pub record Cut (max_size size : ℕ) (es kept : List Entry) : Type 0 where
  pub cut : List Entry
  pub all : es ≡ kept ++ cut
  pub fits : (size + total_size kept ≤ max_size) ⊎ (kept ≡ [])
  pub most : Overflows max_size (size + total_size kept) cut

fits_on :
    (max_size size n : ℕ) (kept : List Entry)
    → ltb max_size (size + n) ≡ false
    → (size + n + total_size kept ≤ max_size) ⊎ (kept ≡ [])
    → size + (n + total_size kept) ≤ max_size
fits_on max_size size n kept f (inl h) = omega arith
fits_on max_size size n kept f (inr e) = rw e ground arith

most_on :
    (max_size size n t : ℕ) (cut : List Entry)
    → Overflows max_size (size + n + t) cut
    → Overflows max_size (size + (n + t)) cut
most_on max_size size n t [] h = tt
most_on max_size size n t (e ∷ es) h = omega arith

limit_one :
    (max_size size : ℕ) (e : Entry) (es kept : List Entry)
    → Cut max_size (size + serialize_size e) es kept
    → (b : Bool) → ltb max_size (size + serialize_size e) ≡ b
    → Cut max_size size (e ∷ es) (if b then [] else e ∷ kept)
limit_one max_size size e es kept c true t = record {
  cut = e ∷ es;
  all = refl;
  fits = inr refl;
  most = ground arith;
}
limit_one max_size size e es kept c false f = record {
  cut = c.cut;
  all = ap (λ xs. e ∷ xs) c.all;
  fits = inl (fits_on max_size size (serialize_size e) kept f c.fits);
  most = most_on max_size size (serialize_size e) _ c.cut c.most;
}

limit_from-Cut :
    (max_size size : ℕ) (es : List Entry)
    → size + total_size es < 2 ^ 64
    → Cut max_size size es (limit_from max_size size es)
unfolding limit_from
limit_from-Cut max_size size [] h = record { cut = []; all = refl; fits = inr refl; most = tt }
limit_from-Cut max_size size (e ∷ es) h = rw (add64_lem size (serialize_size e) (omega arith)) (
    limit_one max_size size e es _
      (limit_from-Cut max_size (size + serialize_size e) es (omega arith)) _ refl)

-- Of entries whose sizes add up to less than 2 ^ 64, `entry_limit_size` keeps the first one and the
-- longest run after it that fits in the limit: it returns a start of the list, which is the first
-- entry alone or is within the limit, and the entry after it would be over.
pub entry_limit_size-Cut :
    (max_size : ℕ) (e : Entry) (es : List Entry)
    → total_size (e ∷ es) < 2 ^ 64
    → (kept : List Entry) × (entry_limit_size max_size (e ∷ es) ≡ e ∷ kept)
      × Cut max_size (serialize_size e) es kept
unfolding entry_limit_size
entry_limit_size-Cut max_size e es h =
    (_, refl, limit_from-Cut max_size (serialize_size e) es (omega arith))
