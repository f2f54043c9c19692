-- ===== src/Server/Once.antt =====
-- How `RaftNode` of raft-kv/server/raft_node.cpp hands the batches of one log to the store, which
-- may overlap.
use mathlib.Core.List.{append_assoc, append-nil}
use raft_etcd.Common.{
  ℕ, zero, suc, ◌+◌, ◌-◌, ◌^◌, ◌≤◌, ◌<◌, max, ◌≡◌, refl, ap, sym, ◌∙◌, subst, inl, inr, Bool-cases,
  List, [], ◌∷◌, ◌++◌, ret, arith, length, take, drop, length-take, length-drop, drop-take,
  drop-drop, ltb,
}
use raft_etcd.Common.Ensures.{Ensures, Ensures-weaken}
use raft_etcd.Proto.{Entry}
use raft_etcd.Unstable.Contiguous.{Numbered, Numbered-take, Numbered-drop}
use raft_etcd.Server.Batch.{
  commands, commands-append, AllNormal, AllAccepted, AllAccepted-drop, drop-past,
}
use raft_etcd.Server.Applying.{Published, apply_committed_lem}
use raft_etcd.Server.Rounds.{apply_committed}
use raft_etcd.Server.{Encodings, Posted, RaftNode}

take-plus : (a j c : ℕ) (es : List Entry) → c ≡ a + j → take a es ++ take j (drop a es) ≡ take c es
take-plus zero j c es e = ap (λ i. take i es) (omega (arith, e))
take-plus (suc a) j zero es e = absurd (omega (arith, e))
take-plus (suc a) zero (suc c) [] e = refl
take-plus (suc a) (suc j) (suc c) [] e = refl
take-plus (suc a) j (suc c) (x ∷ es) e = ap (λ ys. x ∷ ys) (take-plus a j c es (omega (arith, e)))

-- The new part of a batch continues what is applied.
batch_joined :
    (a k m : ℕ) (log : List Entry)
    → k ≤ a
    → a ≤ length log
    → k + m ≤ length log
    → take a log ++ drop (a - k) (take m (drop k log)) ≡ take (max a (k + m)) log
batch_joined a k m log h l f = elim (Bool-cases (ltb a (k + m))) [
  | inl b ↦
      ap (λ ys. take a log ++ ys)
        (drop-take (a - k) (m - (a - k)) m (drop k log) (ground (arith, b, h))
          ∙ ap (λ ys. take (m - (a - k)) ys) (drop-drop k (a - k) a log (omega (arith, h))))
      ∙ take-plus a (m - (a - k)) (max a (k + m)) log (ground (arith, b, h))
  | inr b ↦
      ap (λ ys. take a log ++ ys)
        (drop-past (a - k) (take m (drop k log)) (ground (arith, b, h, length-take m (drop k log))))
      ∙ append-nil (take a log)
      ∙ ap (λ c. take c log) (ground (arith, b))
]

AllAccepted-take :
    (F : Encodings) (id n : ℕ) (es : List Entry)
    → AllAccepted F id es
    → AllAccepted F id (take n es)
AllAccepted-take F id zero es t = tt
AllAccepted-take F id (suc n) [] t = t
AllAccepted-take F id (suc n) (e ∷ es) t = (t.0, AllAccepted-take F id n es t.1)

module _ {C : Type 0} where
  -- The store has been handed the commands of the log up to the applied index, each once and in
  -- order, after what was there before.
  pub record UpTo (before : List Posted) (log : List Entry) (n : RaftNode C) : Type 0 where
    pub handed : n.posted ≡ before ++ commands (take n.applied_index log)
    pub inside : n.applied_index ≤ length log

  -- What a batch comes to.
  abbrev pub Reached : List Posted → List Entry → ℕ → RaftNode C → RaftNode C → Type 0
  Reached before log last n n' = UpTo before log n' × (n'.applied_index ≡ max n.applied_index last)

  Published-Reached :
      (before : List Posted) (log : List Entry) (n n' : RaftNode C) (k m : ℕ)
      → UpTo before log n
      → k ≤ n.applied_index
      → k + m ≤ length log
      → Published (drop (n.applied_index - k) (take m (drop k log))) n n'
      → Reached before log (k + m) n n'
  Published-Reached before log n n' k m u h f p = (
    record {
      handed =
          p.posted
          ∙ ap (λ ps. ps ++ commands new) u.handed
          ∙ append_assoc before (commands (take n.applied_index log)) (commands new)
          ∙ ap (λ ps. before ++ ps)
              (sym (commands-append (take n.applied_index log) new)
                ∙ ap commands (batch_joined n.applied_index k m log h u.inside f)
                ∙ ap (λ c. commands (take c log)) (sym size));
      inside = omega (arith, size, u.inside, f);
    },
    size,
  )
    where
      new : List Entry
      new = drop (n.applied_index - k) (take m (drop k log))

      size : n'.applied_index ≡ max n.applied_index (k + m)
      size = omega (
        arith,
        p.applied,
        length-drop (n.applied_index - k) (take m (drop k log)),
        length-take m (drop k log),
        length-drop k log,
        h,
        f,
      )

  -- In a log numbered from 1 and shorter than 2 ^ 64 - 1, of normal entries and of changes of the
  -- configuration that can be read and do not remove the node itself, let the commands of the
  -- entries up to the applied index have been handed to the store. Take a batch of `m` committed
  -- entries of the log, the first of them at most one after the applied index, however much of it
  -- was applied before. If `apply_committed` returns, which it does of normal entries, the applied
  -- index is the larger one of what it was and of the last index of the batch, and what was handed
  -- to the store in all is the commands of the log up to there, each once and in order.
  pub applied_once :
      (F : Encodings) (before : List Posted) (log : List Entry) (n : RaftNode C) (k m : ℕ)
      → Numbered 1 log
      → length log + 1 < 2 ^ 64
      → AllAccepted F n.id log
      → UpTo before log n
      → k ≤ n.applied_index
      → 0 < m
      → k + m ≤ length log
      → Ensures (Reached before log (k + m) n) (apply_committed F (take m (drop k log)) n)
        × (AllNormal (take m (drop k log))
            → (n' : RaftNode C) × (apply_committed F (take m (drop k log)) n ≡ ret n'))
  applied_once F before log n k m i f t u h p l =
      let done =
        by_batch (take m (drop k log))
          (subst (λ j. Numbered j (take m (drop k log))) (omega arith)
            (Numbered-take (1 + k) m (drop k log) (Numbered-drop 1 k log i)))
          (AllAccepted-take F n.id m (drop k log) (AllAccepted-drop F n.id k log t))
          (omega (arith, length-take m (drop k log), length-drop k log, p, l)) in
      (Ensures-weaken (λ n' g. Published-Reached before log n n' k m u h l g) done.0, done.1)
    where
      by_batch :
          (es : List Entry)
          → Numbered (k + 1) es
          → AllAccepted F n.id es
          → 0 < length es
          → Ensures (Published (drop (n.applied_index - k) es) n) (apply_committed F es n)
            × (AllNormal es → (n' : RaftNode C) × (apply_committed F es n ≡ ret n'))
      by_batch [] i t p = absurd (omega (arith, p))
      by_batch (e ∷ es) i t p =
          let d =
            apply_committed_lem F e es n (omega (arith, i.0)) (omega (arith, i.0, h))
              (omega (arith, u.inside, f)) (subst (λ j. Numbered j (e ∷ es)) (sym i.0) i) t in
          (
            subst (λ j. Ensures (Published (drop j (e ∷ es)) n) (apply_committed F (e ∷ es) n))
                (omega (arith, i.0, h)) d.0,
            d.1,
          )
