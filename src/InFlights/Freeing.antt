-- ===== src/InFlights/Freeing.antt =====
-- `free_to` of raft-kv/raft/progress.cpp, on the indexes in flight.
use raft_etcd.Common.{
  ℕ, ◌+◌, ◌-◌, ◌^◌, ◌≡◌, ◌≤◌, ◌<◌, ◌⊎◌, List, [], ◌∷◌, some, ret, length, get_elem?, ltb, ◌==◌,
  if◌then◌else◌,
}
use raft_etcd.InFlights.{InFlights, advance, free_to}
use raft_etcd.InFlights.Fits.{Fits}

-- `n` slots from `i` on are in a buffer of `len` slots, as a ring of `size`.
record InUse (size len n i : ℕ) : Type 0 where
  pub place : i < size
  pub buffer : len ≤ size
  pub used : (i + n ≤ len) ⊎ (len ≡ size)
  pub word : size < 2 ^ 31

-- The values in the slots of a ring from `i` on.
abbrev pub Slots : ℕ → List ℕ → ℕ → List ℕ → Type 0
Slots size b i [] = Unit
Slots size b i (v ∷ vs) = (get_elem? b i ≡ some v) × Slots size b (advance size i) vs

-- What is left of a queue when the values up to a bound are taken from its front.
unfoldable pub drop_up_to : ℕ → List ℕ → List ℕ
drop_up_to to [] = []
drop_up_to to (v ∷ vs) = let rest = drop_up_to to vs in if ltb to v then v ∷ vs else rest

-- The rounds made on slots with some values, and what is left in use.
record Freed (to size : ℕ) (b vs : List ℕ) (r : ℕ × ℕ) : Type 0 where
  pub made : r.0 ≤ length vs
  pub in_use : InUse size (length b) (length vs - r.0) r.1
  pub slots : Slots size b r.1 (drop_up_to to vs)
  pub left_over : length vs - r.0 ≡ length (drop_up_to to vs)

-- The window after `k` of its messages are freed and the next one is at `i`.
abbrev rest_of : InFlights → ℕ → ℕ → InFlights
rest_of f k i = record f { count = f.count - k; start = if f.count - k == 0 then 0 else i }

in_use : (f : InFlights) → Fits f → InUse f.size (length f.buffer) f.count f.start
in_use f w = record { place = w.start; buffer = w.buffer; used = w.used; word = w.size }

-- The indexes of the messages in flight, the oldest first.
pub record Window (f : InFlights) (vs : List ℕ) : Type 0 where
  pub slots : Slots f.size f.buffer f.start vs
  pub count : f.count ≡ length vs

-- What `free_to` is to do with a window.
pub record Freeing (to : ℕ) (f : InFlights) (vs : List ℕ) : Type 0 where
  pub after : InFlights
  pub returns : free_to to f ≡ ret after
  pub window : Window after (drop_up_to to vs)
  pub fits : Fits after
