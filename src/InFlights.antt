-- ===== src/InFlights.antt =====
-- `InFlights` of raft-kv/raft/progress.h and progress.cpp: a ring of the last indexes of the
-- messages in flight, in a vector that grows on demand up to `size`.
pub mod Fits
pub mod Freeing
use raft_etcd.Common.{
  ℕ, zero, suc, ◌-◌, ◌*◌, Bool, List, [], ◌∷◌, ◌++◌, Outcome, ret, fatal, or_fatal, ◌>>=◌, ltb, leb,
  ◌==◌, length, get_elem?, set, take, add64, sub64, add32, to_u32, if◌then◌else◌,
}

pub record InFlights : Type 0 where
  pub start : ℕ
  pub count : ℕ
  pub size : ℕ
  pub buffer : List ℕ

abbrev pub new_in_flights : ℕ → InFlights
new_in_flights max_inflights = record {
  start = 0;
  count = 0;
  size = to_u32 max_inflights;
  buffer = [];
}

abbrev pub reset : InFlights → InFlights
reset f = record f { start = 0; count = 0 }

abbrev pub is_full : InFlights → Bool
is_full f = f.size == f.count

abbrev zeros : ℕ → List ℕ
zeros zero = []
zeros (suc n) = 0 ∷ zeros n

-- `buffer.resize(n)`.
unfoldable pub resize : ℕ → List ℕ → List ℕ
resize n b = take n b ++ zeros (n - length b)

-- `new_size` of `add`, a `uint32_t`.
unfoldable pub grown_size : ℕ → ℕ → ℕ
grown_size len size =
    let doubled = to_u32 (len * 2) in
    if doubled == 0 then 1 else if ltb size doubled then size else doubled

-- The write to the slot; one out of range is undefined in the source.
write : List ℕ → ℕ → ℕ → Outcome (List ℕ)
write b i v = if ltb i (length b) then ret (set b i v) else fatal

unfoldable pub add : ℕ → InFlights → Outcome InFlights
unfolding write
add inflight f =
    if is_full f
    then fatal
    else let end = add64 f.start f.count in
      let next = if leb f.size end then sub64 end f.size else end in
      let b =
        if leb (length f.buffer) next
        then resize (grown_size (length f.buffer) f.size) f.buffer
        else f.buffer in
      do b' ← write b next inflight; ret (record f { buffer = b'; count = add64 f.count 1 })

-- `idx++; if (idx >= size) idx -= size;` on `uint32_t`.
unfoldable pub advance : ℕ → ℕ → ℕ
advance size idx = let next = add32 idx 1 in if leb size next then next - size else next

-- The loop of `free_to` with `n` rounds left: the rounds made, and the index where it stopped.
unfoldable pub free_loop : ℕ → ℕ → ℕ → List ℕ → ℕ → Outcome (ℕ × ℕ)
unfolding advance
free_loop to size zero b idx = ret (0, idx)
free_loop to size (suc n) b idx = do
  v ← or_fatal (get_elem? b idx)
  let rest = free_loop to size n b (advance size idx)
  if ltb to v then ret (0, idx) else do r ← rest; ret (suc r.0, r.1)

unfoldable pub free_to : ℕ → InFlights → Outcome InFlights
unfolding free_loop
free_to to f = if f.count == 0 then ret f else do
  v ← or_fatal (get_elem? f.buffer f.start)
  if ltb to v then ret f else do
    r ← free_loop to f.size f.count f.buffer f.start
    let count' = f.count - r.0
    ret (record f { count = count'; start = if count' == 0 then 0 else r.1 })

-- The source frees up to `start`, the index of the first slot in the ring.
unfoldable pub free_first_one : InFlights → Outcome InFlights
unfolding free_to
free_first_one f = free_to f.start f
