-- ===== src/Progress/Window.antt =====
-- The bounds of raft-kv/raft/progress.cpp: what a follower has matched is below what it gets next.
use raft_etcd.Common.{
  ℕ, Bool, false, not, ◌&&◌, ◌||◌, ◌==◌, ◌⊎◌, inl, inr, Bool-cases, leb, ltb, ◌+◌, ◌↔◌, ◌≡◌, ◌≤◌,
  ◌<◌, true, max, arith, add64_lem, sub64_lem, max64,
}
use raft_etcd.Progress.{
  ProgressState, replicate, Progress, become_replicate, become_probe, become_snapshot, maybe_update,
  maybe_decreases_to, optimistic_update, reset_state,
}

-- `match` is below `next`, and both have room for one more.
pub record Ordered (p : Progress) : Type 0 where
  pub below : p.match < p.next
  pub room : p.next < max64

-- The calls that move a progress, but for a rejection, with what their callers know of the
-- arguments: an index that is sent is at least the one that is matched.
pub data Move (p : Progress) : Progress → Type 0 where
  replicating : Move p (become_replicate p)
  probing : p.pending_snapshot + 1 < max64 → Move p (become_probe p)
  snapshotting : (i : ℕ) → Move p (become_snapshot i p)
  updated : (n : ℕ) → n + 1 < max64 → Move p (maybe_update n p).1
  sent : (n : ℕ) → p.match ≤ n → n + 1 < max64 → Move p (optimistic_update n p)

abbrev replicates : ProgressState → Bool
replicates replicate = true
replicates _ = false

-- A rejection that takes `next` back to `match` or further: it is acted upon outside of the replicate
-- state, where the rejected index, or the follower's last one, leaves nothing above `match`.
pub record Behind (at last : ℕ) (p : Progress) : Type 0 where
  pub state : replicates p.state ≡ false
  pub acted : p.next ≡ at + 1
  pub above : 0 < at
  pub low : (at ≤ p.match) ⊎ (last < p.match)

become_replicate-Ordered : (p : Progress) → Ordered p → Ordered (become_replicate p)
unfolding become_replicate
become_replicate-Ordered p o =
    rw (add64_lem p.match 1 (omega arith)) record { below = omega arith; room = omega arith }

become_probe-Ordered :
    (p : Progress) → Ordered p → p.pending_snapshot + 1 < max64 → Ordered (become_probe p)
unfolding become_probe reset_state
become_probe-Ordered p o h =
    let a = add64_lem p.match 1 (omega arith) in
    let b = add64_lem p.pending_snapshot 1 (omega arith) in
    record { below = ground (arith, a, b); room = ground (arith, a, b) }

maybe_update-Ordered :
    (n : ℕ) (p : Progress) → Ordered p → n + 1 < max64 → Ordered (maybe_update n p).1
unfolding maybe_update
maybe_update-Ordered n p o h =
    rw (add64_lem n 1 (omega arith)) record { below = ground arith; room = ground arith }

rejected-Ordered :
    (at last : ℕ) (p : Progress)
    → Ordered p
    → last + 1 < max64
    → Ordered (maybe_decreases_to at last p).1 ⊎ Behind at last p
unfolding maybe_decreases_to
rejected-Ordered at last p o l =
    let a = add64_lem p.match 1 (omega (arith, o.below, o.room)) in
    let b = add64_lem last 1 (omega (arith, l)) in
    let c = sub64_lem p.next 1 (omega (arith, o.below)) (omega (arith, o.room)) in
    elim (Bool-cases (
      not (replicates p.state)
      && ((p.next == at + 1) && (not (at == 0) && (leb at p.match || ltb last p.match))))) [
        | inl h ↦ inr record {
          state = ground (arith, h);
          acted = ground (arith, h);
          above = ground (arith, h);
          low = ground (arith, h);
        }
        | inr h ↦ inl record {
          below = ground (arith, a, b, c, h, o.below);
          room = ground (arith, a, b, c, h, o.below, o.room);
        }
      ]

next-Behind :
    (at last : ℕ) (p : Progress)
    → Ordered p
    → last + 1 < max64
    → Behind at last p
    → (maybe_decreases_to at last p).1.next ≤ p.match
unfolding maybe_decreases_to
next-Behind at last p o l h =
    let b = add64_lem last 1 (omega (arith, l)) in
    let c = sub64_lem p.next 1 (omega (arith, o.below)) (omega (arith, o.room)) in
    ground (arith, b, c, h.state, h.acted, h.above, h.low, o.below)

become_snapshot-Ordered : (i : ℕ) (p : Progress) → Ordered p → Ordered (become_snapshot i p)
unfolding become_snapshot reset_state
become_snapshot-Ordered i p o = record { below = o.below; room = o.room }

optimistic_update-Ordered :
    (n : ℕ) (p : Progress)
    → Ordered p
    → p.match ≤ n
    → n + 1 < max64
    → Ordered (optimistic_update n p)
optimistic_update-Ordered n p o h k =
    rw (add64_lem n 1 (omega arith)) record { below = omega arith; room = omega arith }

-- Where `match` is below `next`, each call that moves a progress, but for a rejection, keeps it so
-- (`Move`), if an index that is sent is no smaller than `match` and the indexes leave room for two
-- more in 64 bits. A rejection keeps it so too, unless it is acted upon outside of the replicate
-- state and the rejected index, which is not 0, is at most `match`, or the follower's last index is
-- below `match`: then, as the values of the message are not checked, `next` is no longer above
-- `match`.
pub Move-Ordered :
    (p : Progress)
    → Ordered p
    → ((q : Progress) → Move p q → Ordered q)
      × ((at last : ℕ)
          → last + 1 < max64
          → (Ordered (maybe_decreases_to at last p).1 ⊎ Behind at last p)
            × (Behind at last p → (maybe_decreases_to at last p).1.next ≤ p.match))
Move-Ordered p o = (
  λ q m. moved q m,
  λ at last l. (rejected-Ordered at last p o l, λ h. next-Behind at last p o l h),
)
  where
    moved : (q : Progress) → Move p q → Ordered q
    moved q replicating = become_replicate-Ordered p o
    moved q (probing h) = become_probe-Ordered p o h
    moved q (snapshotting i) = become_snapshot-Ordered i p o
    moved q (updated n h) = maybe_update-Ordered n p o h
    moved q (sent n h k) = optimistic_update-Ordered n p o h k

-- Where `match` is below `next` and the indexes leave room in 64 bits, a rejection that is acted
-- upon, of an index above `match`, does not move `next` forward, and `match` stays.
pub maybe_decreases_to_back :
    (at last : ℕ) (p : Progress)
    → Ordered p
    → p.match < at
    → last + 1 < max64
    → (maybe_decreases_to at last p).0 ≡ true
    → ((maybe_decreases_to at last p).1.next ≤ p.next)
      × ((maybe_decreases_to at last p).1.match ≡ p.match)
unfolding maybe_decreases_to
maybe_decreases_to_back at last p o h l e =
    let a = add64_lem p.match 1 (omega arith) in
    let b = add64_lem last 1 (omega arith) in
    let c = sub64_lem p.next 1 (omega arith) (omega arith) in
    (ground (arith, a, b, c), ground (arith, a, b, c))

-- For an index below 2 ^ 64 - 1, `maybe_update` takes `match` to the larger one of itself and the
-- index, and `next` to the larger one of itself and the index after that, and it says whether
-- `match` moved.
pub maybe_update_lem :
    (n : ℕ) (p : Progress)
    → n < max64
    → ((maybe_update n p).1.match ≡ max p.match n)
      × ((maybe_update n p).1.next ≡ max p.next (n + 1))
      × (((maybe_update n p).0 ≡ true) ↔ (p.match < n))
unfolding maybe_update
maybe_update_lem n p h =
    let a = add64_lem n 1 (omega arith) in (ground (arith, a), ground (arith, a), ground (arith, a))
