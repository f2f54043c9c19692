-- ===== src/Redis/Glob/Reference.antt =====
-- `string_match_len` of raft-kv/server/redis_store.cpp against the meaning of `*` and `?`.
use raft_etcd.Common.{
  ℕ, zero, suc, ◌<◌, ◌≡◌, refl, ap, sym, ◌∙◌, inl, inr, Bool, true, false, not, ◌||◌, ◌&&◌,
  Bool-cases, List, [], ◌∷◌, arith, length, is_empty, ◌==◌, if◌then◌else◌,
}
use raft_etcd.Redis.Glob.{
  skip_stars, any_suffix, after_round, match_round, match_from, string_match_len,
}
use raft_etcd.Redis.Glob.Fuel.{length-skip_stars, any_suffix-ap}

-- A star stands for any bytes, also none, a question mark for one byte, another byte for itself.
unfoldable pub glob : List ℕ → List ℕ → Bool
glob [] s = is_empty s
glob (a ∷ p) [] = let rest = glob p [] in if a == b'*' then rest else false
glob (a ∷ p) (c ∷ s) =
    let here = glob p (c ∷ s) in
    let later = glob (a ∷ p) s in
    let one = glob p s in if a == b'*' then here || later else ((a == b'?') || (a == c)) && one

-- No class and no escape.
unfoldable pub plain : List ℕ → Bool
plain [] = true
plain (a ∷ p) = not (a == b'[') && not (a == b'\\') && plain p

is_empty-skip_stars : (p : List ℕ) → is_empty (skip_stars p) ≡ glob p []
unfolding skip_stars glob
is_empty-skip_stars [] = refl
is_empty-skip_stars (a ∷ p) = ground (arith, is_empty-skip_stars p)

glob-skip_stars_nil : (p : List ℕ) → glob (skip_stars p) [] ≡ glob p []
unfolding skip_stars glob
glob-skip_stars_nil [] = refl
glob-skip_stars_nil (a ∷ p) = ground (arith, glob-skip_stars_nil p)

plain-skip_stars : (p : List ℕ) → plain p ≡ true → plain (skip_stars p) ≡ true
unfolding skip_stars plain
plain-skip_stars [] h = refl
plain-skip_stars (a ∷ p) h = ground (arith, h, plain-skip_stars p)

glob_nil : (c : ℕ) (s : List ℕ) → glob [] (c ∷ s) ≡ false
unfolding glob
glob_nil c s = refl

two_stars : (p s : List ℕ) → glob (b'*' ∷ b'*' ∷ p) s ≡ glob (b'*' ∷ p) s
unfolding glob
two_stars p [] = refl
two_stars p (c ∷ s) = ground (arith, two_stars p s)

star-skip_stars : (p s : List ℕ) → glob (b'*' ∷ p) s ≡ glob (b'*' ∷ skip_stars p) s
unfolding skip_stars
star-skip_stars [] s = refl
star-skip_stars (a ∷ p) s = elim (Bool-cases (a == b'*')) [
  | inl e ↦
      let q : a ≡ b'*' = ground (arith, e) in
      rw e (ap (λ b. glob (b'*' ∷ b ∷ p) s) q ∙ two_stars p s ∙ star-skip_stars p s)
  | inr e ↦ rw e refl
]

any_suffix-glob : (q s : List ℕ) → (any_suffix (λ t. glob q t) s || glob q []) ≡ glob (b'*' ∷ q) s
unfolding any_suffix glob
any_suffix-glob q [] = refl
any_suffix-glob q (c ∷ s) = ground (arith, any_suffix-glob q s)

star_all : (s : List ℕ) → glob (b'*' ∷ []) s ≡ true
unfolding glob
star_all [] = refl
star_all (c ∷ s) = ground (arith, star_all s)

is_empty-nil : (q : List ℕ) → is_empty q ≡ true → q ≡ []
is_empty-nil [] h = refl
is_empty-nil (a ∷ q) h = absurd (cc)

or_false : (x y : Bool) → y ≡ false → (x || y) ≡ x
or_false x y h = ground (arith, h)

-- The star, from the matcher of the rest.
star_round :
    (f : List ℕ → List ℕ → Bool) (p : List ℕ) (c : ℕ) (s : List ℕ)
    → ((b : ℕ) (t : List ℕ) → f (skip_stars p) (b ∷ t) ≡ glob (skip_stars p) (b ∷ t))
    → (if is_empty (skip_stars p) then true else any_suffix (λ t. f (skip_stars p) t) (c ∷ s))
      ≡ glob (b'*' ∷ p) (c ∷ s)
star_round f p c s h = elim (Bool-cases (is_empty (skip_stars p))) [
  | inl e ↦ rw e (
      sym (
        star-skip_stars p (c ∷ s)
        ∙ ap (λ q. glob (b'*' ∷ q) (c ∷ s)) (is_empty-nil (skip_stars p) e)
        ∙ star_all (c ∷ s)))
  | inr e ↦ rw e (
      any_suffix-ap _ _ (c ∷ s) h
      ∙ sym (
          or_false (any_suffix (λ t. glob (skip_stars p) t) (c ∷ s)) (glob (skip_stars p) [])
            (glob-skip_stars_nil p ∙ sym (is_empty-skip_stars p) ∙ e))
      ∙ any_suffix-glob (skip_stars p) (c ∷ s)
      ∙ sym (star-skip_stars p (c ∷ s)))
]

glob-star : (a : ℕ) (p s : List ℕ) → (a == b'*') ≡ true → glob (b'*' ∷ p) s ≡ glob (a ∷ p) s
glob-star a p s e = let q : b'*' ≡ a = ground (arith, e) in ap (λ b. glob (b ∷ p) s) q

after_round-glob :
    (f : List ℕ → List ℕ → Bool) (p s : List ℕ)
    → ((b : ℕ) (t : List ℕ) → f p (b ∷ t) ≡ glob p (b ∷ t))
    → after_round f p s ≡ glob p s
after_round-glob f p [] h = is_empty-skip_stars p
after_round-glob f p (c ∷ s) h = h c s

-- A round on a byte that is neither a star, nor the start of a class, nor an escape.
one_round :
    (a c : ℕ) (p s : List ℕ)
    → (a == b'*') ≡ false
    → glob (a ∷ p) (c ∷ s) ≡ (((a == b'?') || (a == c)) && glob p s)
unfolding glob
one_round a c p s e = ground (arith, e)

match_from-glob :
    (n : ℕ) (p : List ℕ) (c : ℕ) (s : List ℕ)
    → length p < n
    → plain p ≡ true
    → match_from false n p (c ∷ s) ≡ glob p (c ∷ s)
unfolding match_from plain
match_from-glob zero p c s h k = absurd (omega (arith, h))
match_from-glob (suc n) [] c s h k = sym (glob_nil c s)
match_from-glob (suc n) (a ∷ p) c s h k =
    let rest : plain p ≡ true = ground (arith, k) in
    elim (Bool-cases (a == b'*')) [
      | inl e ↦ rw_star e (
          star_round (λ q t. match_from false n q t) p c s
            (λ b t.
              match_from-glob n (skip_stars p) b t (omega (arith, h, length-skip_stars p))
                (plain-skip_stars p rest))
          ∙ glob-star a p (c ∷ s) e)
      | inr e ↦ rw_other e (
          after_round-glob (λ q t. match_from false n q t) p s
            (λ b t. match_from-glob n p b t (omega (arith, h)) rest))
    ]
  where
    rw_star :
        (a == b'*') ≡ true
        → (if is_empty (skip_stars p)
            then true
            else any_suffix (λ t. match_from false n (skip_stars p) t) (c ∷ s))
          ≡ glob (a ∷ p) (c ∷ s)
        → match_round (λ q t. match_from false n q t) a p c s ≡ glob (a ∷ p) (c ∷ s)
    rw_star e q = rw e q

    rw_other :
        (a == b'*') ≡ false
        → after_round (λ q t. match_from false n q t) p s ≡ glob p s
        → match_round (λ q t. match_from false n q t) a p c s ≡ glob (a ∷ p) (c ∷ s)
    rw_other e q = ground (arith, e, q, k, one_round a c p s e)

-- A pattern without `[` and a backslash matches a string that is not empty as `*` and `?` mean it:
-- the matcher agrees with the direct recursion on both, whatever the stars are.
pub string_match_len-glob :
    (p : List ℕ) (c : ℕ) (s : List ℕ) → plain p ≡ true → string_match_len p (c ∷ s) ≡ glob p (c ∷ s)
unfolding string_match_len
string_match_len-glob p c s h = match_from-glob (suc (length p)) p c s (omega arith) h
