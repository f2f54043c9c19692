-- ===== src/Unstable/Contiguous.antt =====
-- The numbering of the entries of raft-kv/raft/unstable.cpp: the one at place `i` has the index
-- `offset + i`.
use raft_etcd.Common.{
  ℕ, zero, suc, ◌+◌, ◌-◌, ◌^◌, ◌≡◌, subst, Bool-cases, inl, inr, ◌≤◌, ◌<◌, refl, ap, sym, List, [],
  ◌∷◌, ◌++◌, leb, ◌==◌, add64_lem, sub64_lem, arith, length, take, drop, Outcome, ret,
  length-append, length-take, min,
}
use raft_etcd.Proto.{Entry}
use raft_etcd.Unstable.{Unstable, truncate_and_append, slice}

abbrev pub Numbered : ℕ → List Entry → Type 0
Numbered i [] = Unit
Numbered i (e ∷ es) = (e.index ≡ i) × Numbered (suc i) es

pub Numbered-append :
    (i j : ℕ) (es fs : List Entry)
    → Numbered i es
    → j ≡ i + length es
    → Numbered j fs
    → Numbered i (es ++ fs)
Numbered-append i j [] fs h e k = subst (λ n. Numbered n fs) (omega (arith, e)) k
Numbered-append i j (x ∷ es) fs h e k = (h.0, Numbered-append (suc i) j es fs h.1 (omega arith) k)

pub Numbered-take : (i n : ℕ) (es : List Entry) → Numbered i es → Numbered i (take n es)
Numbered-take i zero es h = tt
Numbered-take i (suc n) [] h = tt
Numbered-take i (suc n) (e ∷ es) h = (h.0, Numbered-take (suc i) n es h.1)

pub Numbered-drop : (i n : ℕ) (es : List Entry) → Numbered i es → Numbered (i + n) (drop n es)
Numbered-drop i zero es h = subst (λ n. Numbered n es) (omega arith) h
Numbered-drop i (suc n) [] h = tt
Numbered-drop i (suc n) (e ∷ es) h =
    subst (λ m. Numbered m (drop n es)) (omega arith) (Numbered-drop (suc i) n es h.1)

-- Room for the indexes in 64 bits, and the numbering.
pub record Contiguous (u : Unstable) : Type 0 where
  pub numbered : Numbered u.offset u.entries
  pub fits : u.offset + length u.entries < 2 ^ 64

take-all : (n : ℕ) (es : List Entry) → length es ≤ n → take n es ≡ es
take-all zero [] h = refl
take-all zero (e ∷ es) h = absurd (omega arith)
take-all (suc n) [] h = refl
take-all (suc n) (e ∷ es) h = ap (λ xs. e ∷ xs) (take-all n es (omega arith))

-- The entries before the first new one, then the new ones.
abbrev pub spliced : Entry → List Entry → Unstable → Unstable
spliced e es u = record u {
  entries = take (e.index - u.offset) u.entries ++ e ∷ es;
  offset = min u.offset e.index;
}

no_difference : (n : ℕ) → n - n ≡ 0
no_difference n = omega arith

drop_none : (n : ℕ) (es : List Entry) → drop (n - n) es ≡ es
drop_none n es = rw (no_difference n) refl

slice_kept :
    (u : Unstable) (after : ℕ)
    → u.offset < after
    → after ≤ u.offset + length u.entries
    → u.offset + length u.entries < 2 ^ 64
    → slice u.offset after u ≡ ret (take (after - u.offset) u.entries)
unfolding slice
slice_kept u after h k f =
    rw
      (
        add64_lem u.offset (length u.entries) f,
        sub64_lem after u.offset (omega arith) (omega arith),
        sub64_lem u.offset u.offset (omega arith) (omega arith),
      )
      ground (arith, drop_none u.offset u.entries)

-- The result, by where the new entries start.
spliced_from :
    (e : Entry) (es : List Entry) (u : Unstable) (o : ℕ) (kept : List Entry)
    → min u.offset e.index ≡ o
    → take (e.index - u.offset) u.entries ≡ kept
    → Path
        (Outcome Unstable)
        (ret (record u { offset = o; entries = kept ++ e ∷ es }))
        (ret (spliced e es u))
spliced_from e es u o kept h k = rw (h, k) refl

no_place : (a b : ℕ) → a ≤ b → a - b ≡ 0
no_place a b h = omega arith

take_none : (i : ℕ) (u : Unstable) → i ≤ u.offset → take (i - u.offset) u.entries ≡ []
take_none i u h = rw (no_place i u.offset h) refl

-- If the first new index is not past the end of the unstable entries, and that end is below 2 ^
-- 64, `truncate_and_append` returns, the entries before that index stay, the new ones follow
-- them, and the offset is the smaller one of itself and that index: one result for the branches
-- that append, replace and truncate.
pub truncate_and_append_lem :
    (e : Entry) (es : List Entry) (u : Unstable)
    → e.index ≤ u.offset + length u.entries
    → u.offset + length u.entries < 2 ^ 64
    → truncate_and_append (e ∷ es) u ≡ ret (spliced e es u)
unfolding truncate_and_append
truncate_and_append_lem e es u h f =
    rw (add64_lem (length u.entries) u.offset (omega arith))
      elim (Bool-cases (e.index == length u.entries + u.offset)) [
        | inl a ↦ rw a (
            spliced_from e es u u.offset u.entries (ground arith)
              (take-all (e.index - u.offset) u.entries (ground arith)))
        | inr a ↦ elim (Bool-cases (leb e.index u.offset)) [
          | inl b ↦
              rw (a, b)
                (spliced_from e es u e.index [] (ground arith) (take_none e.index u (ground arith)))
          | inr b ↦
              rw (a, b, slice_kept u e.index (ground arith) h f)
                (spliced_from e es u u.offset _ (ground arith) refl)
        ]
      ]

kept-Numbered :
    (i : ℕ) (u : Unstable)
    → Numbered u.offset u.entries
    → Numbered (min u.offset i) (take (i - u.offset) u.entries)
kept-Numbered i u h = elim (Bool-cases (leb i u.offset)) [
  | inl b ↦ rw (take_none i u (ground arith)) tt
  | inr b ↦
      subst (λ o. Numbered o (take (i - u.offset) u.entries)) (ground arith)
        (Numbered-take u.offset (i - u.offset) u.entries h)
]

kept_length :
    (i : ℕ) (u : Unstable)
    → i ≤ u.offset + length u.entries
    → min u.offset i + length (take (i - u.offset) u.entries) ≡ i
kept_length i u h = omega (arith, length-take (i - u.offset) u.entries)

-- If the unstable entries are numbered from the offset and the new ones from the index of the
-- first of them, that index is not past the end, and all indexes, with one more, are below 2 ^
-- 64, then `truncate_and_append` returns, and the entries of the result are numbered from its
-- offset, below 2 ^ 64.
pub truncate_and_append-Contiguous :
    (e : Entry) (es : List Entry) (u : Unstable)
    → Contiguous u
    → Numbered e.index (e ∷ es)
    → e.index ≤ u.offset + length u.entries
    → e.index + length (e ∷ es) < 2 ^ 64
    → (u' : Unstable) × (truncate_and_append (e ∷ es) u ≡ ret u') × Contiguous u'
truncate_and_append-Contiguous e es u c n h f =
    let kept = take (e.index - u.offset) u.entries in
    (
      spliced e es u,
      truncate_and_append_lem e es u h c.fits,
      record {
        numbered =
            Numbered-append (min u.offset e.index) e.index kept (e ∷ es)
              (kept-Numbered e.index u c.numbered) (sym (kept_length e.index u h)) n;
        fits = omega (arith, length-append kept (e ∷ es), kept_length e.index u h);
      },
    )
