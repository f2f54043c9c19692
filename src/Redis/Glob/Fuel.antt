-- ===== src/Redis/Glob/Fuel.antt =====
-- `string_match_len` of raft-kv/server/redis_store.cpp ends: each round and each call shortens the
-- pattern.
use raft_etcd.Common.{
  ℕ, zero, suc, ◌≤◌, ◌<◌, ◌≡◌, refl, inl, inr, Bool, true, false, ◌||◌, Bool-cases, List, [], ◌∷◌,
  arith, length, is_empty, ◌==◌, if◌then◌else◌,
}
use raft_etcd.Redis.Glob.{
  skip_stars, in_range, in_class, match_class, any_suffix, after_round, match_escaped, match_round,
  match_from,
}

pub length-skip_stars : (p : List ℕ) → length (skip_stars p) ≤ length p
unfolding skip_stars
length-skip_stars [] = omega arith
length-skip_stars (a ∷ p) = ground (arith, length-skip_stars p)

-- A class leaves at most the pattern after it.
abbrev Shorter : ℕ → Bool × List ℕ → Type 0
Shorter n r = length r.1 ≤ n

in_class-Shorter : (c : ℕ) (found : Bool) (p : List ℕ) → Shorter (length p) (in_class c found p)
unfolding in_class
in_class-Shorter c found [] = omega arith
in_class-Shorter c found (a ∷ []) = ground arith
in_class-Shorter c found (a ∷ b ∷ []) =
    ground (arith, in_class-Shorter c (found || (a == c)) (b ∷ []))
in_class-Shorter c found (a ∷ b ∷ d ∷ p) = ground (
  arith,
  in_class-Shorter c (found || (b == c)) (d ∷ p),
  in_class-Shorter c (found || in_range a d c) p,
  in_class-Shorter c (found || (a == c)) (b ∷ d ∷ p),
)

match_class-Shorter : (c : ℕ) (p : List ℕ) → Shorter (length p) (match_class c p)
unfolding match_class
match_class-Shorter c [] = in_class-Shorter c false []
match_class-Shorter c (a ∷ p) =
    ground (arith, in_class-Shorter c false p, in_class-Shorter c false (a ∷ p))

abbrev pub Matcher : Type 0
Matcher = List ℕ → List ℕ → Bool

-- Two matchers agree on patterns up to a length.
abbrev pub Agree : ℕ → Matcher → Matcher → Type 0
Agree n f g = (p s : List ℕ) → length p ≤ n → f p s ≡ g p s

pub any_suffix-ap :
    (f g : List ℕ → Bool) (s : List ℕ)
    → ((c : ℕ) (t : List ℕ) → f (c ∷ t) ≡ g (c ∷ t))
    → any_suffix f s ≡ any_suffix g s
unfolding any_suffix
any_suffix-ap f g [] h = refl
any_suffix-ap f g (c ∷ s) h = ground (arith, h c s, any_suffix-ap f g s h)

after_round-ap :
    (n : ℕ) (f g : Matcher) (p s : List ℕ)
    → Agree n f g
    → length p ≤ n
    → after_round f p s ≡ after_round g p s
after_round-ap n f g p [] h l = refl
after_round-ap n f g p (c ∷ s) h l = h p (c ∷ s) l

guarded : (b : Bool) {x y : Bool} → x ≡ y → (if b then x else false) ≡ (if b then y else false)
guarded true h = h
guarded false h = refl

match_escaped-ap :
    (n : ℕ) (f g : Matcher) (p : List ℕ) (c : ℕ) (s : List ℕ)
    → Agree n f g
    → length p ≤ n
    → match_escaped f p c s ≡ match_escaped g p c s
match_escaped-ap n f g [] c s h l = guarded (b'\\' == c) (after_round-ap n f g [] s h l)
match_escaped-ap n f g (b ∷ p) c s h l =
    guarded (b == c) (after_round-ap n f g p s h (omega (arith, l)))

match_round-ap :
    (f g : Matcher) (a : ℕ) (p : List ℕ) (c : ℕ) (s : List ℕ)
    → Agree (length p) f g
    → match_round f a p c s ≡ match_round g a p c s
match_round-ap f g a p c s h = elim (Bool-cases (a == b'*')) [
  | inl e ↦ rw e (elim (Bool-cases (is_empty (skip_stars p))) [
    | inl k ↦ rw k refl
    | inr k ↦ rw k (any_suffix-ap _ _ (c ∷ s) λ b t. h (skip_stars p) (b ∷ t) (length-skip_stars p))
  ])
  | inr e ↦ elim (Bool-cases (a == b'?')) [
    | inl q ↦ rw (e, q) (after_round-ap (length p) f g p s h (omega arith))
    | inr q ↦ elim (Bool-cases (a == b'[')) [
      | inl k ↦
          rw (e, q, k)
            (guarded (match_class c p).0
              (after_round-ap (length p) f g (match_class c p).1 s h (match_class-Shorter c p)))
      | inr k ↦ elim (Bool-cases (a == b'\\')) [
        | inl m ↦ rw (e, q, k, m) (match_escaped-ap (length p) f g p c s h (omega arith))
        | inr m ↦
            rw (e, q, k, m) (guarded (a == c) (after_round-ap (length p) f g p s h (omega arith)))
      ]
    ]
  ]
]

-- With more fuel than the pattern has bytes, the matcher gives one and the same answer whatever the
-- fuel is and whatever is answered without fuel: its rounds and calls end before the fuel does.
pub match_from_fuel :
    (a b : Bool) (f g : ℕ) (p s : List ℕ)
    → length p < f
    → length p < g
    → match_from a f p s ≡ match_from b g p s
unfolding match_from
match_from_fuel a b zero g p s h k = absurd (omega (arith, h))
match_from_fuel a b (suc f) zero p s h k = absurd (omega (arith, k))
match_from_fuel a b (suc f) (suc g) [] s h k = refl
match_from_fuel a b (suc f) (suc g) (x ∷ p) [] h k = refl
match_from_fuel a b (suc f) (suc g) (x ∷ p) (c ∷ s) h k =
    match_round-ap _ _ x p c s
      λ q t l. match_from_fuel a b f g q t (omega (arith, h, l)) (omega (arith, k, l))
