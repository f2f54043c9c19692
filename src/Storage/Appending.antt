-- ===== src/Storage/Appending.antt =====
-- `append` of raft-kv/raft/storage.cpp against a list of numbered entries.
use raft_etcd.Common.{
  ℕ, zero, suc, ◌+◌, ◌-◌, ◌^◌, ◌≡◌, ◌≤◌, ◌<◌, refl, ap, arith, Bool-cases, inl, inr, true, false,
  List, [], ◌∷◌, ◌++◌, ret, length, take, ltb, ◌==◌, add64_lem, sub64_lem, length-append,
  length-take,
}
use raft_etcd.Proto.{Entry}
use raft_etcd.Status.{ok}
use raft_etcd.Storage.{MemoryStorage, append, append_at, first_index}
use raft_etcd.Unstable.Contiguous.{Numbered, Numbered-append, Numbered-take}

-- A storage that holds the dummy `d`, then `ds`.
abbrev pub holding : Entry → List Entry → MemoryStorage → MemoryStorage
holding d ds s = record s { entries = d ∷ ds }

take-all : (n : ℕ) (es : List Entry) → length es ≡ n → take n es ≡ es
take-all zero [] h = refl
take-all zero (e ∷ es) h = absurd (omega arith)
take-all (suc n) [] h = refl
take-all (suc n) (e ∷ es) h = ap (λ xs. e ∷ xs) (take-all n es (omega arith))

append_at_lem :
    (e : Entry) (es : List Entry) (d : Entry) (ds : List Entry) (s : MemoryStorage)
    → d.index < e.index
    → e.index ≤ d.index + length (d ∷ ds)
    → e.index < 2 ^ 64
    → append_at (e ∷ es) (holding d ds s)
      ≡ ret (ok, record s { entries = take (e.index - d.index) (d ∷ ds) ++ e ∷ es })
unfolding append_at
append_at_lem e es d ds s h k f =
    rw (sub64_lem e.index d.index (omega arith) f)
      (elim (Bool-cases (ltb (e.index - d.index) (length (d ∷ ds)))) [
        | inl b ↦ rw b refl
        | inr b ↦
            let n : (length (d ∷ ds) == e.index - d.index) ≡ true = ground arith in
            let t = take-all (e.index - d.index) (d ∷ ds) (ground arith) in rw (b, n, t) refl
      ])

-- If the first new index is above the dummy's and at most one past the last one, and the indexes,
-- with one more, are below 2 ^ 64, `append` returns with an ok status, the entries from the first
-- new index on are dropped, and the new ones follow what stays.
pub append_lem :
    (e : Entry) (es : List Entry) (d : Entry) (ds : List Entry) (s : MemoryStorage)
    → d.index < e.index
    → e.index ≤ d.index + length (d ∷ ds)
    → e.index + length (e ∷ es) < 2 ^ 64
    → append (e ∷ es) (holding d ds s)
      ≡ ret (ok, record s { entries = take (e.index - d.index) (d ∷ ds) ++ e ∷ es })
unfolding append first_index
append_lem e es d ds s h k f =
    let a = add64_lem d.index 1 (omega arith) in
    let b = add64_lem e.index (length (e ∷ es)) (omega arith) in
    let c = sub64_lem (e.index + length (e ∷ es)) 1 (omega arith) (omega arith) in
    let new : ltb (e.index + length (e ∷ es) - 1) (d.index + 1) ≡ false = ground arith in
    let later : ltb e.index (d.index + 1) ≡ false = ground arith in
    rw (a, b, c, new, later) (append_at_lem e es d ds s h k (omega arith))

kept_length :
    (i o : ℕ) (xs : List Entry) → o < i → i ≤ o + length xs → i ≡ o + length (take (i - o) xs)
kept_length i o xs h k = omega (arith, length-take (i - o) xs)

-- If the entries of the storage, the dummy first, are numbered one after the other, and so are
-- the new ones, the first new index is above the dummy's and at most one past the last one, and
-- the indexes, with one more, are below 2 ^ 64, then `append` returns with an ok status, the
-- entries of the storage are numbered from the dummy on, and the last of them has the index of
-- the last new one.
pub append-Numbered :
    (e : Entry) (es : List Entry) (d : Entry) (ds : List Entry) (s : MemoryStorage)
    → Numbered d.index (d ∷ ds)
    → Numbered e.index (e ∷ es)
    → d.index < e.index
    → e.index ≤ d.index + length (d ∷ ds)
    → e.index + length (e ∷ es) < 2 ^ 64
    → (s' : MemoryStorage) × (append (e ∷ es) (holding d ds s) ≡ ret (ok, s'))
      × Numbered d.index s'.entries
      × (d.index + length s'.entries ≡ e.index + length (e ∷ es))
append-Numbered e es d ds s n m h k f =
    let kept = take (e.index - d.index) (d ∷ ds) in
    let l = kept_length e.index d.index (d ∷ ds) h k in
    (
      record s { entries = kept ++ e ∷ es },
      append_lem e es d ds s h k f,
      Numbered-append d.index e.index kept (e ∷ es)
          (Numbered-take d.index (e.index - d.index) (d ∷ ds) n) l m,
      omega (arith, l, length-append kept (e ∷ es)),
    )
